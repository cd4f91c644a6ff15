-- ===== src/Player/Steps/Typing.antt =====
-- What a whole run types.
use mathlib.Core.List.{Memᴰ}
use alex_claw.Prelude.{ℕ, List, All}
use alex_claw.Text.{Text}
use alex_claw.Contract.{Step, Recipe}
use alex_claw.Player.Page.{Page}
use alex_claw.Player.Actions.Typing.{IsTyped}
use alex_claw.Player.Steps.{run}
use alex_claw.Player.Steps.Watching.{Allows, NamedStep, run-IsWatched}

-- One of the steps may type this.
abbrev pub IsAllowed : Page → List Step → ℕ → Text → Type 0
IsAllowed page steps t v = (step : Step) × Memᴰ step steps × Allows page t v step

-- Screenshots do not matter here.
any_name :
    (dir : Text) (page : Page) (P : ℕ → Text → Type 0) (j : ℕ) (step : Step)
    → NamedStep dir page P (λ path. Unit) j step
any_name dir page P j (Step.screenshot name full t) = λ k. tt
any_name dir page P j (Step.navigate url t) = tt
any_name dir page P j (Step.click selector t) = tt
any_name dir page P j (Step.fill selector value date origin t) = tt
any_name dir page P j (Step.select selector value t) = tt
any_name dir page P j (Step.check selector checked t) = tt
any_name dir page P j (Step.wait ms t) = tt
any_name dir page P j (Step.keyboard key t) = tt
any_name dir page P j (Step.download selector t) = tt
any_name dir page P j (Step.scrape selector t) = tt
any_name dir page P j (Step.scrape_text selector t) = tt
any_name dir page P j (Step.extract_grid selector t) = tt

module _ (dir : Text) (page : Page) (config : Recipe) where
  -- Whatever the page does during a run: each text that is typed is the value of one of the
  -- recipe's fills, or, for a date, the day that it stands for at some time, with nothing, 00:00 or
  -- 23:59 behind it as the name of the field asks; and if this fill is bound to an origin, the page
  -- is on that origin when the typing begins.
  pub run-IsAllowed : All (IsTyped (IsAllowed page config.steps)) (run dir page config).1.log
  run-IsAllowed =
      run-IsWatched dir page (IsAllowed page config.steps) (λ path. Unit) config
        (λ step m t v a. (step, m, a))
        (λ j step m. any_name dir page (IsAllowed page config.steps) j step) (λ t. tt) (λ t. tt)
