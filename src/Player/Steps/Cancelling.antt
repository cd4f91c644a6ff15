-- ===== src/Player/Steps/Cancelling.antt =====
-- What a run that is cancelled leaves behind.
use alex_claw.Prelude.{ℕ, suc, ◌≡◌, refl, true, false, arith}
use alex_claw.Text.{Text, codes}
use alex_claw.Contract.{Recipe}
use alex_claw.Player.Page.{Error, Page, State, Result, ok, raised, cancelled, evaluates, saves}
use alex_claw.Player.Page.Closed.{Closed}
use alex_claw.Player.Page.Cancels.{Clear, Course, Heeds, Heeds-Closed, Heeds-modify, follow}
use alex_claw.Player.Actions.Walk.{K-ask, K-if}
use alex_claw.Player.Steps.{
  scrape, scrape_text, extract_grid, take_screenshot, run_recipe, conclude, conclude_error, Report,
  run, start,
}
use alex_claw.Player.Steps.Walk.{
  K-grid_in_frames, K-tables_in_frames, K-take_screenshot, K-run_recipe,
}

-- A run that reports has not been cancelled at an await; one that is cancelled ends at the first await
-- at which it is. No error leaves a run.
pub IsEnding : Page → Result Report → ℕ → Type 0
IsEnding page (ok report) n = Clear page 0 n
IsEnding page cancelled n = (t : ℕ) × (n ≡ suc t) × Clear page 0 t × (page.cancels t ≡ true)
IsEnding page (raised e) n = ⊥

module _ (dir : Text) (page : Page) where
  rules : Closed page (λ A m. Heeds page {A = A} m)
  rules = Heeds-Closed page

  scrape_text-Heeds : (selector : Text) → Heeds page (scrape_text dir page selector)
  unfolding scrape_text
  scrape_text-Heeds selector =
      rules.on_bind _ _ (K-ask page _ rules (evaluates selector) _)
        (λ text. Heeds-modify page _ (λ s. refl))

  scrape-Heeds : (selector : Text) → Heeds page (scrape dir page selector)
  unfolding scrape
  scrape-Heeds selector = rules.on_bind _ _ (K-ask page _ rules (evaluates selector) _) (λ main.
      rules.on_bind _ _ (rules.on_gets _) (λ frames.
        rules.on_bind _ _ (K-tables_in_frames dir page _ rules 0 frames selector) (λ more.
          rules.on_bind _ _ (rules.on_gets _) (λ stamp.
            rules.on_bind _ _ (rules.on_perform (saves _))
              (λ _. Heeds-modify page _ (λ s. refl))))))

  extract_grid-Heeds : (selector : Text) → Heeds page (extract_grid dir page selector)
  unfolding extract_grid
  extract_grid-Heeds selector =
      rules.on_bind _ _ (K-ask page _ rules (evaluates selector) _) (λ main.
        rules.on_bind _ _ (rules.on_gets _) (λ frames.
          rules.on_bind _ _
            (K-if page _ rules _ _ _ (K-grid_in_frames dir page _ rules frames selector main)
              (rules.on_pure main))
            (λ result. rules.on_bind _ _ (rules.on_gets _) (λ stamp.
              rules.on_bind _ _ (rules.on_perform (saves _))
                (λ _. Heeds-modify page _ (λ s. refl))))))

  conclude_error-IsEnding :
      (e : Error) (r : Result Unit) (s : State)
      → Course page 0 r s.clock
      → IsEnding page (conclude_error dir page e r s).0 (conclude_error dir page e r s).1.clock
  unfolding conclude_error IsEnding
  conclude_error-IsEnding e (ok u) s (le, h) = h
  conclude_error-IsEnding e (raised x) s (le, h) = h
  conclude_error-IsEnding e cancelled s (t, last, le, h, hit) = (t, last, h, hit)

  conclude-IsEnding :
      (config : Recipe) (r : Result Unit) (s : State)
      → Course page 0 r s.clock
      → IsEnding page (conclude dir page config r s).0 (conclude dir page config r s).1.clock
  unfolding conclude IsEnding
  conclude-IsEnding config (ok u) s (le, h) = h
  conclude-IsEnding config (raised e) s (le, h) =
      let shot = take_screenshot dir page (codes "error") false s in
      conclude_error-IsEnding e shot.0 shot.1 (
        follow page 0 s.clock shot.1.clock shot.0 le h
          ((K-take_screenshot dir page _ rules (codes "error") false).course s))
  conclude-IsEnding config cancelled s (t, last, le, h, hit) = (t, last, h, hit)

  -- Whatever the page raises, and at whatever awaits the task is cancelled, a run of the player
  -- either returns a report, and then none of its awaits was cancelled, or it is cancelled, and
  -- then its last await is the first one at which the task is: nothing is asked of the page after
  -- it, no screenshot of the error either. It ends with no other exception.
  pub run-IsEnding :
      (config : Recipe) → IsEnding page (run dir page config).0 (run dir page config).1.clock
  unfolding run
  run-IsEnding config =
      let (r, s) = run_recipe dir page config start in
      conclude-IsEnding config r s (
        (K-run_recipe dir page _ rules scrape-Heeds scrape_text-Heeds extract_grid-Heeds
            config).course
          start)

  reports :
      (r : Result Report) (n : ℕ)
      → ((t : ℕ) → page.cancels t ≡ false)
      → IsEnding page r n
      → (report : Report) × (r ≡ ok report)
  unfolding IsEnding
  reports (ok report) n calm h = (report, refl)
  reports cancelled n calm (t, last, h, hit) = absurd (ground (arith, calm t, hit))
  reports (raised e) n calm h = absurd h

  -- A run that nobody cancels returns a report, whatever the page raises.
  pub run-reports :
      (config : Recipe)
      → ((t : ℕ) → page.cancels t ≡ false)
      → (report : Report) × ((run dir page config).0 ≡ ok report)
  run-reports config calm = reports _ _ calm (run-IsEnding config)
