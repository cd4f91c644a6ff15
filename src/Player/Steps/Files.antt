-- ===== src/Player/Steps/Files.antt =====
-- Where the screenshots of a run go.
use mathlib.Core.List.{Memᴰ}
use alex_claw.Prelude.{
  ℕ, ◌≤◌, ◌≡◌, ◌≢◌, ap, sym, Bool, true, Option, none, some, List, [], ◌∷◌, ◌++◌, All, All-append,
  All-map, all, arith,
}
use mathlib.Core.List.{append_assoc}
use alex_claw.Text.{Text, codes}
use alex_claw.Text.Laws.{Lacks}
use alex_claw.Text.Number.{decimal}
use alex_claw.Text.Number.Laws.{IsDigits-decimal}
use alex_claw.Path.{path_join}
use alex_claw.Contract.{Step, Recipe, name_ok, step_ok, recipe_ok, is_name_char}
use alex_claw.Player.Page.{Page}
use alex_claw.Player.Actions.Typing.{IsShot}
use alex_claw.Player.Steps.{text_or, run}
use alex_claw.Player.Steps.Watching.{Named, NamedStep, run-IsWatched}

-- A PNG file of the directory itself: its name has no slash, and is more than the ending.
abbrev pub IsInside : Text → Text → Type 0
IsInside dir path =
    (stem : Text) × (path ≡ path_join dir (stem ++ codes ".png")) × Lacks b'/' stem × (stem ≢ [])

Lacks-append : (s t : Text) → Lacks b'/' s → Lacks b'/' t → Lacks b'/' (s ++ t)
Lacks-append s t h k = All-append (λ x. x ≢ b'/') s t h k

Lacks-decimal : (n : ℕ) → Lacks b'/' (decimal n)
Lacks-decimal n =
    All-map (λ c. (b'0' ≤ c) × (c ≤ b'9')) (λ c. c ≢ b'/') (λ c h e. omega arith) (decimal n)
      (IsDigits-decimal n)

Lacks-of_name : (s : Text) → all is_name_char s ≡ true → Lacks b'/' s
Lacks-of_name [] h = tt
Lacks-of_name (c ∷ s) h = (λ e. ground arith, Lacks-of_name s (ground arith))

append-ne-nil : (s : Text) (c : ℕ) (t : Text) → s ++ c ∷ t ≢ []
append-ne-nil [] c t = cc
append-ne-nil (x ∷ s) c t = cc

all_of_Memᴰ :
    {A : Type 0} (p : A → Bool) (l : List A) (a : A) → all p l ≡ true → Memᴰ a l → p a ≡ true
all_of_Memᴰ p [] a h m = elim m [ ]
all_of_Memᴰ p (x ∷ l) a h (Memᴰ.head e) = rw e (ground arith)
all_of_Memᴰ p (x ∷ l) a h (Memᴰ.tail m) = all_of_Memᴰ p l a (ground arith) m

-- A valid name, or "step_" and the step's number.
Lacks-shot_name :
    (j : ℕ) (name : Option Text)
    → name_ok name ≡ true
    → Lacks b'/' (text_or name (codes "step_" ++ decimal j))
unfolding name_ok
Lacks-shot_name j none h = Lacks-append (codes "step_") (decimal j) (ground arith) (Lacks-decimal j)
Lacks-shot_name j (some []) h = absurd (ground arith)
Lacks-shot_name j (some (c ∷ s)) h = Lacks-of_name (c ∷ s) (ground arith)

module _ (dir : Text) (page : Page) (stamps : (t : ℕ) → Lacks b'/' (page.stamp t)) where
  Named-Lacks : (name : Text) → Lacks b'/' name → Named dir page (λ t v. Unit) (IsInside dir) name
  Named-Lacks name h t = (
    name ++ (b'_' ∷ page.stamp t),
    ap (path_join dir) (sym (append_assoc name (b'_' ∷ page.stamp t) (codes ".png"))),
    Lacks-append name (b'_' ∷ page.stamp t) h (λ e. omega arith, stamps t),
    append-ne-nil name b'_' (page.stamp t),
  )

  step_ok-NamedStep :
      (j : ℕ) (step : Step)
      → step_ok step ≡ true
      → NamedStep dir page (λ t v. Unit) (IsInside dir) j step
  unfolding step_ok
  step_ok-NamedStep j (Step.screenshot name full t) h =
      Named-Lacks _ (Lacks-shot_name j name (ground arith))
  step_ok-NamedStep j (Step.navigate url t) h = tt
  step_ok-NamedStep j (Step.click selector t) h = tt
  step_ok-NamedStep j (Step.fill selector value date origin t) h = tt
  step_ok-NamedStep j (Step.select selector value t) h = tt
  step_ok-NamedStep j (Step.check selector checked t) h = tt
  step_ok-NamedStep j (Step.wait ms t) h = tt
  step_ok-NamedStep j (Step.keyboard key t) h = tt
  step_ok-NamedStep j (Step.download selector t) h = tt
  step_ok-NamedStep j (Step.scrape selector t) h = tt
  step_ok-NamedStep j (Step.scrape_text selector t) h = tt
  step_ok-NamedStep j (Step.extract_grid selector t) h = tt

  -- A recipe that the contract lets through, with time stamps that hold no slash: whatever the page
  -- does during a run, every screenshot is written to a PNG file of the download directory itself.
  pub run-IsInside :
      (config : Recipe)
      → recipe_ok config ≡ true
      → All (IsShot (IsInside dir)) (run dir page config).1.log
  unfolding recipe_ok
  run-IsInside config h =
      run-IsWatched dir page (λ t v. Unit) (IsInside dir) config (λ step m t v a. tt)
        (λ j step m.
          step_ok-NamedStep j step (all_of_Memᴰ step_ok config.steps step (ground arith) m))
        (Named-Lacks (codes "final") (ground arith)) (Named-Lacks (codes "error") (ground arith))
