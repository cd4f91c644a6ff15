-- ===== src/Player/Steps/Scraping.antt =====
-- The shape of what a run scrapes.
use alex_claw.Prelude.{◌≡◌, false, ◌++◌, All, All-append}
use alex_claw.Text.{Text, text_eq, codes}
use alex_claw.Contract.{Recipe}
use alex_claw.Player.Page.{Page, evaluates, saves, State, Result, ok, raised, cancelled, Error}
use alex_claw.Player.Page.Scrapes.{
  Gives, Gives-ok, Scrapes, Scrapes-pure, Scrapes-gets, Scrapes-if, Scrapes-bind, Scrapes-perform,
  Scrapes-ask, Scrapes-add, Scrapes-bind_answer, Scrapes-Closed, Answers-pure, Answers-ask,
  Answers-if,
}
use alex_claw.Player.Page.Closed.{Closed}
use alex_claw.Player.Steps.Walk.{
  K-grid_in_frames, K-tables_in_frames, K-take_screenshot, K-run_recipe,
}
use alex_claw.Player.Scripts.Tables.Shape.{IsTable}
use alex_claw.Player.Steps.{
  extract_grid, from_source, scrape, scrape_text, take_screenshot, run_recipe, conclude,
  conclude_error, Report, run, start,
}
use alex_claw.Player.Steps.Shapes.{
  IsGrid, IsShapely, IsGrid-grid_at, grid_in_frames-Answers, tables_at-All, from_source-All,
  tables_in_frames-Answers, table_data-IsShapely,
}

module _ (dir : Text) (page : Page) where
  rules : Closed page (λ A m. Scrapes {A = A} IsShapely m)
  rules = Scrapes-Closed page IsShapely

  extract_grid-Scrapes : (selector : Text) → Scrapes IsShapely (extract_grid dir page selector)
  unfolding extract_grid IsShapely
  extract_grid-Scrapes selector =
      Scrapes-bind_answer IsGrid _ _ (Scrapes-ask page (evaluates selector) _)
        (Answers-ask IsGrid page (evaluates selector) _ (IsGrid-grid_at dir page selector))
        (λ main h. Scrapes-bind _ _ (Scrapes-gets _) (λ frames.
          Scrapes-bind_answer IsGrid _ _
            (Scrapes-if _ _ _ (K-grid_in_frames dir page _ rules frames selector main)
              (Scrapes-pure main))
            (Answers-if IsGrid _ _ _ (grid_in_frames-Answers dir page frames selector main h)
              (Answers-pure IsGrid main h))
            (λ result k. Scrapes-bind _ _ (Scrapes-gets _) (λ stamp.
              Scrapes-bind _ _ (Scrapes-perform page (saves _)) (λ _. Scrapes-add _ (k, tt))))))

  scrape-Scrapes : (selector : Text) → Scrapes IsShapely (scrape dir page selector)
  unfolding scrape
  scrape-Scrapes selector =
      Scrapes-bind_answer (All IsTable) _ _ (Scrapes-ask page (evaluates selector) _)
        (Answers-ask (All IsTable) page (evaluates selector) _ (tables_at-All dir page selector))
        (λ main h. Scrapes-bind _ _ (Scrapes-gets _) (λ frames.
          Scrapes-bind_answer (All (λ t. IsTable t.table)) _ _
            (K-tables_in_frames dir page _ rules 0 frames selector)
            (tables_in_frames-Answers dir page 0 frames selector)
            (λ more k. Scrapes-bind _ _ (Scrapes-gets _) (λ stamp.
              Scrapes-bind _ _ (Scrapes-perform page (saves _)) (λ _. Scrapes-add _ (
                table_data-IsShapely (from_source dir page (codes "main") main ++ more) (
                  All-append (λ t. IsTable t.table) (from_source dir page (codes "main") main) more
                    (from_source-All dir page _ main h) k)))))))

  scrape_text-Scrapes : (selector : Text) → Scrapes IsShapely (scrape_text dir page selector)
  unfolding scrape_text IsShapely
  scrape_text-Scrapes selector =
      Scrapes-bind _ _ (Scrapes-ask page (evaluates selector) page.text)
        (λ text. Scrapes-add _ (tt, tt))

  conclude_error-IsShapely :
      (e : Error) (r : Result Unit) (s : State)
      → All IsShapely s.scraped
      → Gives (λ report. All IsShapely report.scraped) (conclude_error dir page e r s).0
  unfolding conclude_error
  conclude_error-IsShapely e (ok a) s h = h
  conclude_error-IsShapely e (raised x) s h = h
  conclude_error-IsShapely e cancelled s h = tt

  conclude-IsShapely :
      (config : Recipe) (r : Result Unit) (s : State)
      → All IsShapely s.scraped
      → Gives (λ report. All IsShapely report.scraped) (conclude dir page config r s).0
  unfolding conclude
  conclude-IsShapely config (ok a) s h = h
  conclude-IsShapely config (raised e) s h =
      let shot = take_screenshot dir page (codes "error") false s in
      conclude_error-IsShapely e shot.0 shot.1
        ((K-take_screenshot dir page _ rules (codes "error") false).after s h)
  conclude-IsShapely config cancelled s h = tt

  -- Whatever the page and its frames hold during a run, all that its report, if it returns one,
  -- carries as scraped has its shape. A grid is an error, or has one row at least, as many as it
  -- tells, and each row has the keys of the headers and no other. A table has headers or rows; no
  -- row of an HTML table is empty; the headers of a div-based grid are not empty, and all its rows
  -- but the last have as many cells as there are headers, the last one no more and one at least
  -- (without headers there is one row); the headers and the rows of other tables have one width,
  -- two at least.
  pub run-IsShapely :
      (config : Recipe) (report : Report)
      → (run dir page config).0 ≡ ok report
      → All IsShapely report.scraped
  unfolding run
  run-IsShapely config report e =
      let (r, s) = run_recipe dir page config start in
      Gives-ok (λ report. All IsShapely report.scraped) _ report e
        (conclude-IsShapely config r s (
          (K-run_recipe dir page _ rules scrape-Scrapes scrape_text-Scrapes extract_grid-Scrapes
              config).after
            start tt))
