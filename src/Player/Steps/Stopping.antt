-- ===== src/Player/Steps/Stopping.antt =====
-- How a step that raises shows in the report of a run.
use mathlib.Core.List.{append-nil}
use alex_claw.Prelude.{
  ap, sym, ◌∙◌, is_empty, if◌then◌else◌, ℕ, suc, ◌≡◌, refl, List, [], ◌∷◌, ◌++◌,
}
use alex_claw.Text.{Text}
use alex_claw.Contract.{Step, Recipe}
use alex_claw.Player.Page.{
  Error, Page, State, Result, ok, raised, cancelled, continue, Action, pure, ◌>>=◌,
}
use alex_claw.Player.Actions.{navigate}
use alex_claw.Player.Steps.{run_recipe, run, conclude, start, run_step, run_steps}

stops_with :
    (f g : State → Result Unit × State) (e : Error) (r : Result Unit) (s : State)
    → ((t : State) → (g t).0 ≡ raised e → f t ≡ g t)
    → (continue r (λ _. g) s).0 ≡ raised e
    → continue r (λ _. f) s ≡ continue r (λ _. g) s
stops_with f g e (ok a) s same h = same s h
stops_with f g e (raised x) s same h = refl
stops_with f g e cancelled s same h = refl

module _ (dir : Text) (page : Page) where
  pub run_steps_stops :
      (i : ℕ) (before after : List Step) (s : State) (e : Error)
      → (run_steps dir page i before s).0 ≡ raised e
      → run_steps dir page i (before ++ after) s ≡ run_steps dir page i before s
  unfolding run_steps ◌>>=◌
  run_steps_stops i [] after s e h = cc
  run_steps_stops i (step ∷ before) after s e h =
      stops_with _ _ e (run_step dir page i step s).0 (run_step dir page i step s).1
        (λ t. run_steps_stops (suc i) before after t e) h

bind_raised :
    (p : Result Unit × State) (f : Action Unit) (e : Error)
    → p.0 ≡ raised e
    → continue p.0 (λ _. f) p.1 ≡ p
bind_raised (ok a, s) f e h = cc
bind_raised (raised x, s) f e h = refl
bind_raised (cancelled, s) f e h = refl

-- `first`, then `rest`, then `last`, where `rest` raises as `given` does.
steps_then :
    (r : Result Unit) (s : State) (rest given last : Action Unit) (e : Error)
    → ((t : State) → (given t).0 ≡ raised e → rest t ≡ given t)
    → (continue r (λ _. given) s).0 ≡ raised e
    → continue r (λ _. rest >>= λ _. last) s ≡ continue r (λ _. given) s
unfolding ◌>>=◌
steps_then (ok a) s rest given last e same h =
    let eq = same s h in bind_raised (rest s) last e (rw eq h) ∙ eq
steps_then (raised x) s rest given last e same h = refl
steps_then cancelled s rest given last e same h = refl

module _ (dir : Text) (page : Page) where
  -- The navigation and the steps, without the final screenshot.
  abbrev pub play_steps : Text → List Step → Action Unit
  play_steps url steps =
      (if is_empty url then pure tt else navigate page url) >>= λ _. run_steps dir page 0 steps

  run_recipe_stops :
      (url : Text) (before after : List Step) (e : Error)
      → (play_steps url before start).0 ≡ raised e
      → run_recipe dir page (record { url = url; steps = before ++ after }) start
        ≡ play_steps url before start
  unfolding run_recipe ◌>>=◌
  run_recipe_stops url before after e h =
      steps_then _ _ (run_steps dir page 0 (before ++ after)) (run_steps dir page 0 before) _ e
        (λ t. run_steps_stops dir page 0 before after t e) h

  concludes_alike :
      (c d : Recipe) (p : Result Unit × State) (e : Error)
      → p.0 ≡ raised e
      → conclude dir page c p.0 p.1 ≡ conclude dir page d p.0 p.1
  unfolding conclude
  concludes_alike c d (ok a, s) e h = cc
  concludes_alike c d (raised x, s) e h = refl
  concludes_alike c d (cancelled, s) e h = refl

  -- When the navigation or one of the first steps raises, the run is what it would be without the
  -- steps behind them: the same report, and the same calls to the page.
  pub run_stops :
      (url : Text) (before after : List Step) (e : Error)
      → (play_steps url before start).0 ≡ raised e
      → run dir page (record { url = url; steps = before ++ after })
        ≡ run dir page (record { url = url; steps = before })
  unfolding run
  run_stops url before after e h =
      ap (λ p. conclude dir page (record { url = url; steps = before ++ after }) p.0 p.1)
        (run_recipe_stops url before after e h)
      ∙ concludes_alike _ _ (play_steps url before start) e h
      ∙ ap (λ p. conclude dir page (record { url = url; steps = before }) p.0 p.1)
          (sym (rw append-nil at (run_recipe_stops url before [] e h)))
