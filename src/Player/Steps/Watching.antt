-- ===== src/Player/Steps/Watching.antt =====
-- What a whole run types, and where its screenshots go: one walk through all steps.
use mathlib.Core.List.{Memᴰ}
use alex_claw.Prelude.{
  ℕ, suc, refl, Bool, false, Option, none, some, List, [], ◌∷◌, ◌++◌, All, is_empty,
}
use alex_claw.Text.{Text, codes}
use alex_claw.Text.Number.{decimal}
use alex_claw.Path.{path_join}
use alex_claw.Contract.{Step, Recipe}
use alex_claw.Player.Page.{Grid, Page, State, Result, ok, raised, cancelled, Error}
use alex_claw.Player.Page.Log.{
  Logs-pure, Logs-raise, Logs-gets, Logs-if, Logs-catch, Logs-bind, Logs-modify, Logs-gets_bind,
}
use alex_claw.Player.Actions.Typing.{
  IsOn, IsFilled, IsWatched, Quiet, navigate-Quiet, fill-Quiet, click-Quiet, click_within-Quiet,
  select-Quiet, check-Quiet, Quiet-sleeps, Quiet-presses, Quiet-ask_evaluates, Quiet-saves,
  Quiet-shoots,
}
use alex_claw.Player.Steps.{
  error_of, text_or, save_download, wait_for_download, grid_in_frames, extract_grid,
  tables_in_frames, scrape, scrape_text, take_screenshot, run_step, run_steps, run_recipe, conclude,
  conclude_error, run, start,
}

-- A fill may type its own value, or what it becomes as a date; a bound one only on its origin.
abbrev pub Allows : Page → ℕ → Text → Step → Type 0
Allows page t v (Step.fill selector value date origin timeout) =
    IsFilled page selector value date v × IsOn page t origin
Allows page t v _ = ⊥

module _ (dir : Text) (page : Page) (P : ℕ → Text → Type 0) (R : Text → Type 0) where
  save_download-Quiet : (o : Option Text) (ms : ℕ) → Quiet page P R (save_download dir page o ms)
  unfolding save_download
  save_download-Quiet none ms = Logs-bind _ _ (Quiet-sleeps page P R ms) (λ _. Logs-raise _)
  save_download-Quiet (some name) ms =
      Logs-bind _ _ (Logs-catch _ _ (Quiet-saves page P R _) (λ e. Logs-raise _))
        (λ _. Logs-if _ _ _ (Logs-pure tt) (Logs-modify _ (λ s. refl)))

  wait_for_download-Quiet :
      (selector : Text) (ms : ℕ) → Quiet page P R (wait_for_download dir page selector ms)
  unfolding wait_for_download
  wait_for_download-Quiet selector ms =
      Logs-bind _ _ (click_within-Quiet page P R selector 30000 _)
        (λ _. Logs-bind _ _ (Logs-gets _) (λ o. save_download-Quiet o ms))

  grid_in_frames-Quiet :
      (urls : List Text) (selector : Text) (g : Grid)
      → Quiet page P R (grid_in_frames dir page urls selector g)
  unfolding grid_in_frames
  grid_in_frames-Quiet [] selector g = Logs-pure g
  grid_in_frames-Quiet (url ∷ urls) selector g =
      Logs-bind _ _ (Logs-catch _ _ (Quiet-ask_evaluates page P R selector _) (λ e. Logs-pure none))
        (elim [
          | none ↦ grid_in_frames-Quiet urls selector g
          | some h ↦
              Logs-if (is_empty (error_of h)) _ _ (Logs-pure h)
                (grid_in_frames-Quiet urls selector h)
        ])

  extract_grid-Quiet : (selector : Text) → Quiet page P R (extract_grid dir page selector)
  unfolding extract_grid
  extract_grid-Quiet selector = Logs-bind _ _ (Quiet-ask_evaluates page P R selector _) (λ main.
      Logs-bind _ _ (Logs-gets _) (λ frames.
        Logs-bind _ _ (Logs-if _ _ _ (grid_in_frames-Quiet frames selector main) (Logs-pure main))
          (λ result.
            Logs-bind _ _ (Logs-gets _)
              (λ stamp. Logs-bind _ _ (Quiet-saves page P R _) (λ _. Logs-modify _ (λ s. refl))))))

  tables_in_frames-Quiet :
      (i : ℕ) (urls : List Text) (selector : Text)
      → Quiet page P R (tables_in_frames dir page i urls selector)
  unfolding tables_in_frames
  tables_in_frames-Quiet i [] selector = Logs-pure []
  tables_in_frames-Quiet i (url ∷ urls) selector =
      Logs-bind _ _ (Logs-catch _ _ (Quiet-ask_evaluates page P R selector _) (λ e. Logs-pure []))
        (λ here. Logs-bind _ _ (tables_in_frames-Quiet (suc i) urls selector) (λ rest. Logs-pure _))

  scrape-Quiet : (selector : Text) → Quiet page P R (scrape dir page selector)
  unfolding scrape
  scrape-Quiet selector = Logs-bind _ _ (Quiet-ask_evaluates page P R selector _) (λ main.
      Logs-bind _ _ (Logs-gets _) (λ frames.
        Logs-bind _ _ (tables_in_frames-Quiet 0 frames selector) (λ more.
          Logs-bind _ _ (Logs-gets _)
            (λ stamp. Logs-bind _ _ (Quiet-saves page P R _) (λ _. Logs-modify _ (λ s. refl))))))

  scrape_text-Quiet : (selector : Text) → Quiet page P R (scrape_text dir page selector)
  unfolding scrape_text
  scrape_text-Quiet selector =
      Logs-bind _ _ (Quiet-ask_evaluates page P R selector page.text)
        (λ text. Logs-modify _ (λ s. refl))

  -- Every file that a screenshot of this name may get.
  abbrev pub Named : Text → Type 0
  Named name = (t : ℕ) → R (path_join dir (name ++ (b'_' ∷ (page.stamp t ++ codes ".png"))))

  take_screenshot-Quiet :
      (name : Text) (full : Bool) → Named name → Quiet page P R (take_screenshot dir page name full)
  unfolding take_screenshot
  take_screenshot-Quiet name full named = Logs-gets_bind _ _ (λ s.
      Logs-bind _ _ (Quiet-shoots page P R _ full (named s.clock)) (λ _. Logs-modify _ (λ s. refl)))

  -- The name of the step's screenshot.
  abbrev pub NamedStep : ℕ → Step → Type 0
  NamedStep i (Step.screenshot name full t) = Named (text_or name (codes "step_" ++ decimal i))
  NamedStep i _ = Unit

  run_step-Quiet :
      (i : ℕ) (step : Step)
      → ((t : ℕ) (v : Text) → Allows page t v step → P t v)
      → NamedStep i step
      → Quiet page P R (run_step dir page i step)
  unfolding run_step
  run_step-Quiet i (Step.navigate url t) p n = navigate-Quiet page P R url
  run_step-Quiet i (Step.fill selector value date origin t) p n =
      fill-Quiet page P R selector value date _ origin (λ t v same on. p t v (same, on))
  run_step-Quiet i (Step.select selector value t) p n = select-Quiet page P R selector value _
  run_step-Quiet i (Step.check selector checked t) p n = check-Quiet page P R selector checked _
  run_step-Quiet i (Step.click selector t) p n = click-Quiet page P R selector _
  run_step-Quiet i (Step.download selector t) p n = wait_for_download-Quiet selector _
  run_step-Quiet i (Step.wait ms t) p n = Quiet-sleeps page P R ms
  run_step-Quiet i (Step.keyboard key t) p n =
      Logs-bind _ _ (Quiet-presses page P R key) (λ _. Quiet-sleeps page P R 500)
  run_step-Quiet i (Step.scrape selector t) p n = scrape-Quiet _
  run_step-Quiet i (Step.extract_grid selector t) p n = extract_grid-Quiet selector
  run_step-Quiet i (Step.scrape_text selector t) p n = scrape_text-Quiet _
  run_step-Quiet i (Step.screenshot name full t) p n = take_screenshot-Quiet _ _ n

  run_steps-Quiet :
      (i : ℕ) (steps : List Step)
      → ((step : Step) → Memᴰ step steps → (t : ℕ) (v : Text) → Allows page t v step → P t v)
      → ((j : ℕ) (step : Step) → Memᴰ step steps → NamedStep j step)
      → Quiet page P R (run_steps dir page i steps)
  unfolding run_steps
  run_steps-Quiet i [] p n = Logs-pure tt
  run_steps-Quiet i (step ∷ steps) p n =
      Logs-bind _ _ (run_step-Quiet i step (p step (Memᴰ.head refl)) (n i step (Memᴰ.head refl)))
        (λ _.
          run_steps-Quiet (suc i) steps (λ other m. p other (Memᴰ.tail m))
            (λ j other m. n j other (Memᴰ.tail m)))

  module _ (config : Recipe)
      (p : (step : Step)
        → Memᴰ step config.steps
        → (t : ℕ) (v : Text) → Allows page t v step
        → P t v)
      (n : (j : ℕ) (step : Step) → Memᴰ step config.steps → NamedStep j step)
      (final : Named (codes "final")) (failure : Named (codes "error")) where
    run_recipe-Quiet : Quiet page P R (run_recipe dir page config)
    unfolding run_recipe
    run_recipe-Quiet =
        Logs-bind _ _
          (Logs-if (is_empty config.url) _ _ (Logs-pure tt) (navigate-Quiet page P R config.url))
          (λ _.
            Logs-bind _ _ (run_steps-Quiet 0 config.steps p n)
              (λ _. take_screenshot-Quiet (codes "final") false final))

    conclude_error-Quiet :
        (e : Error) (r : Result Unit) (s : State)
        → All (IsWatched P R) s.log
        → All (IsWatched P R) (conclude_error dir page e r s).1.log
    unfolding conclude_error
    conclude_error-Quiet e (ok a) s h = h
    conclude_error-Quiet e (raised x) s h = h
    conclude_error-Quiet e cancelled s h = h

    conclude-Quiet :
        (r : Result Unit) (s : State)
        → All (IsWatched P R) s.log
        → All (IsWatched P R) (conclude dir page config r s).1.log
    unfolding conclude
    conclude-Quiet (ok a) s h = h
    conclude-Quiet (raised e) s h =
        let shot = take_screenshot dir page (codes "error") false s in
        conclude_error-Quiet e shot.0 shot.1
          ((take_screenshot-Quiet (codes "error") false failure).at s h)
    conclude-Quiet cancelled s h = h

    pub run-IsWatched : All (IsWatched P R) (run dir page config).1.log
    unfolding run
    run-IsWatched =
        conclude-Quiet (run_recipe dir page config start).0 (run_recipe dir page config start).1
          (run_recipe-Quiet.at start tt)
