-- ===== src/Player/Steps/Walk.antt =====
-- What is closed holds of a run, if it holds of the steps that scrape.
use alex_claw.Prelude.{ℕ, suc, refl, Bool, false, Option, none, some, List, [], ◌∷◌, is_empty}
use alex_claw.Text.{Text, codes}
use alex_claw.Contract.{Step, Recipe}
use alex_claw.Player.Page.{Grid, Page, Action, evaluates, sleeps, presses, saves, shoots}
use alex_claw.Player.Page.Closed.{Closed}
use alex_claw.Player.Actions.Walk.{
  K-if, K-ask, K-navigate, K-fill, K-select, K-check, K-click, K-click_within,
}
use alex_claw.Player.Steps.{
  error_of, save_download, wait_for_download, grid_in_frames, extract_grid, tables_in_frames,
  scrape, scrape_text, take_screenshot, run_step, run_steps, run_recipe,
}

module _ (dir : Text) (page : Page) (K : (A : Type 0) → Action A → Type 0)
    (closed : Closed page K) where
  K-save_download : (o : Option Text) (ms : ℕ) → K _ (save_download dir page o ms)
  unfolding save_download
  K-save_download none ms =
      closed.on_bind _ _ (closed.on_perform (sleeps ms)) (λ _. closed.on_raise _)
  K-save_download (some name) ms =
      closed.on_bind _ _
        (closed.on_catch _ _ (closed.on_perform (saves _)) (λ e. closed.on_raise _))
        (λ _.
          K-if page K closed _ _ _ (closed.on_pure tt) (closed.on_modify _ (λ s. refl) (λ s. refl)))

  K-wait_for_download : (selector : Text) (ms : ℕ) → K _ (wait_for_download dir page selector ms)
  unfolding wait_for_download
  K-wait_for_download selector ms =
      closed.on_bind _ _ (K-click_within page K closed selector 30000 _)
        (λ _. closed.on_bind _ _ (closed.on_gets _) (λ o. K-save_download o ms))

  pub K-grid_in_frames :
      (urls : List Text) (selector : Text) (g : Grid)
      → K _ (grid_in_frames dir page urls selector g)
  unfolding grid_in_frames
  K-grid_in_frames [] selector g = closed.on_pure g
  K-grid_in_frames (url ∷ urls) selector g =
      closed.on_bind _ _
        (closed.on_catch _ _ (K-ask page K closed (evaluates selector) _)
          (λ e. closed.on_pure none))
        (elim [
          | none ↦ K-grid_in_frames urls selector g
          | some h ↦
              K-if page K closed (is_empty (error_of h)) _ _ (closed.on_pure h)
                (K-grid_in_frames urls selector h)
        ])

  pub K-tables_in_frames :
      (i : ℕ) (urls : List Text) (selector : Text) → K _ (tables_in_frames dir page i urls selector)
  unfolding tables_in_frames
  K-tables_in_frames i [] selector = closed.on_pure []
  K-tables_in_frames i (url ∷ urls) selector =
      closed.on_bind _ _
        (closed.on_catch _ _ (K-ask page K closed (evaluates selector) _) (λ e. closed.on_pure []))
        (λ here.
          closed.on_bind _ _ (K-tables_in_frames (suc i) urls selector) (λ rest. closed.on_pure _))

  pub K-take_screenshot : (name : Text) (full : Bool) → K _ (take_screenshot dir page name full)
  unfolding take_screenshot
  K-take_screenshot name full = closed.on_bind _ _ (closed.on_gets _) (λ stamp.
      closed.on_bind _ _ (closed.on_perform (shoots _ full))
        (λ _. closed.on_modify _ (λ s. refl) (λ s. refl)))

  module _ (on_scrape : (selector : Text) → K _ (scrape dir page selector))
      (on_scrape_text : (selector : Text) → K _ (scrape_text dir page selector))
      (on_extract_grid : (selector : Text) → K _ (extract_grid dir page selector)) where
    K-run_step : (i : ℕ) (step : Step) → K _ (run_step dir page i step)
    unfolding run_step
    K-run_step i (Step.navigate url t) = K-navigate page K closed url
    K-run_step i (Step.fill selector value date origin t) =
        K-fill page K closed selector value date _ origin
    K-run_step i (Step.select selector value t) = K-select page K closed selector value _
    K-run_step i (Step.check selector checked t) = K-check page K closed selector checked _
    K-run_step i (Step.click selector t) = K-click page K closed selector _
    K-run_step i (Step.download selector t) = K-wait_for_download selector _
    K-run_step i (Step.wait ms t) = closed.on_perform (sleeps ms)
    K-run_step i (Step.keyboard key t) =
        closed.on_bind _ _ (closed.on_perform (presses key)) (λ _. closed.on_perform (sleeps 500))
    K-run_step i (Step.scrape selector t) = on_scrape _
    K-run_step i (Step.extract_grid selector t) = on_extract_grid selector
    K-run_step i (Step.scrape_text selector t) = on_scrape_text _
    K-run_step i (Step.screenshot name full t) = K-take_screenshot _ _

    K-run_steps : (i : ℕ) (steps : List Step) → K _ (run_steps dir page i steps)
    unfolding run_steps
    K-run_steps i [] = closed.on_pure tt
    K-run_steps i (step ∷ steps) =
        closed.on_bind _ _ (K-run_step i step) (λ _. K-run_steps (suc i) steps)

    pub K-run_recipe : (config : Recipe) → K _ (run_recipe dir page config)
    unfolding run_recipe
    K-run_recipe config =
        closed.on_bind _ _
          (K-if page K closed (is_empty config.url) _ _ (closed.on_pure tt)
            (K-navigate page K closed config.url))
          (λ _.
            closed.on_bind _ _ (K-run_steps 0 config.steps)
              (λ _. K-take_screenshot (codes "final") false))
