-- ===== src/Player/Steps.antt =====
-- The rest of `Player`: downloads, scraping, screenshots, `_run_step` and `run`.
pub mod Watching
pub mod Typing
pub mod Stopping
pub mod Grids
pub mod Files
pub mod Shapes
pub mod Walk
pub mod Cancelling
pub mod Scraping
pub mod Dicts
use alex_claw.Prelude.{
  ℕ, zero, suc, ◌+◌, Bool, true, false, ◌&&◌, ◌||◌, not, Option, none, some, List, [], ◌∷◌, ◌++◌,
  map, if◌then◌else◌, eqb, is_empty, take, length,
}
use alex_claw.Path.{path_join}
use alex_claw.Text.{Text, codes, has_text}
use alex_claw.Text.Number.{decimal}
use alex_claw.Contract.{Step, Recipe}
use alex_claw.Js.{Json, null}
use alex_claw.Player.Scripts.Grid.{failure, extract, extract_grid_script}
use alex_claw.Player.Scripts.Tables.{ScrapedTable, scrape_script}
use alex_claw.Player.Page.{
  Error, Grid, Table, Page, Call, goes, queries, clicks, evaluates, presses, saves, shoots, sleeps,
  Scraped, text_data, grid_data, table_data, State, Result, ok, raised, cancelled, Action, pure,
  raise, gets, modify, catch, perform, ask, ◌>>=◌, ◌>>◌,
}
use alex_claw.Player.Actions.{runtime_error, navigate, fill, click, click_within, select, check}

abbrev default_to : Option ℕ → ℕ → ℕ
default_to none d = d
default_to (some n) d = n

abbrev pub text_or : Option Text → Text → Text
text_or none d = d
text_or (some s) d = if is_empty s then d else s

-- `bool(step.get("full_page"))`
abbrev switched : Option Bool → Bool
switched none = false
switched (some b) = b

-- `result.get("error", "")`
unfoldable pub error_of : Grid → Text
error_of (failure message) = message
error_of (extract headers rows total) = []

-- `DOWNLOAD_DIR` and the page.
module _ (dir : Text) (page : Page) where
  -- The download that arrives in time, saved under the directory.
  save_download : Option Text → ℕ → Action Unit
  save_download none timeout_ms = do
    perform page (sleeps timeout_ms)
    raise (runtime_error (codes "Download timed out"))
  save_download (some filename) timeout_ms = do
    catch (perform page (saves (path_join dir filename)))
        (λ _. raise (runtime_error (codes "Download timed out")))
    if is_empty (path_join dir filename)
        then pure tt
        else modify (λ s. record s { downloads = s.downloads ++ path_join dir filename ∷ [] })

  -- `_wait_for_download`; the trigger is clicked with the default timeout of `_click`, the number 30.
  pub wait_for_download : Text → ℕ → Action Unit
  wait_for_download selector timeout_ms = do
    click_within page selector 30000 (codes "30")
    arrived ← gets (λ s. page.downloaded s.clock)
    save_download arrived timeout_ms

  -- What the script of `_extract_grid` answers at a time, for no choice of columns.
  pub grid_at : Text → ℕ → Grid
  grid_at selector t = extract_grid_script Json null selector none (page.widget t)

  -- The frames in turn, up to the first without an error; a frame that raises is passed over.
  pub grid_in_frames : List Text → Text → Grid → Action Grid
  grid_in_frames [] selector result = pure result
  grid_in_frames (url ∷ urls) selector result = do
    tried ← catch (ask page (evaluates selector) (λ t. some (grid_at selector t))) (λ _. pure none)
    elim tried [
      | none ↦ grid_in_frames urls selector result
      | some g ↦ if is_empty (error_of g) then pure g else grid_in_frames urls selector g
    ]

  -- Only these errors of the main page are looked into further.
  unfoldable pub elsewhere : Text → Bool
  unfolding has_text
  elsewhere error =
      not (is_empty error)
      && (has_text error (codes "not available") || has_text error (codes "not found"))

  -- `_extract_grid`
  pub extract_grid : Text → Action Unit
  extract_grid selector = do
    main ← ask page (evaluates selector) (grid_at selector)
    frames ← gets (λ s. page.frames s.clock)
    result ← if elsewhere (error_of main) then grid_in_frames frames selector main else pure main
    stamp ← gets (λ s. page.stamp s.clock)
    perform page (saves (path_join dir (codes "grid_" ++ (stamp ++ codes ".json"))))
    modify (λ s. record s { scraped = s.scraped ++ grid_data selector result ∷ [] })

  abbrev from_source : Text → List ScrapedTable → List Table
  from_source source = map (λ table. record { source = source; table = table })

  -- What the script of `_scrape` answers at a time.
  pub tables_at : Text → ℕ → List ScrapedTable
  tables_at selector t = scrape_script selector (page.document t)

  -- `f"iframe_{i}_{frame.url[:80]}"`
  frame_source : ℕ → Text → Text
  frame_source i url = codes "iframe_" ++ (decimal i ++ (b'_' ∷ take 80 url))

  pub tables_in_frames : ℕ → List Text → Text → Action (List Table)
  tables_in_frames i [] selector = pure []
  tables_in_frames i (url ∷ urls) selector = do
    here ← catch (ask page (evaluates selector) (tables_at selector)) (λ _. pure [])
    rest ← tables_in_frames (suc i) urls selector
    pure (from_source (frame_source i url) here ++ rest)

  -- `_scrape`
  pub scrape : Text → Action Unit
  scrape selector = do
    main ← ask page (evaluates selector) (tables_at selector)
    frames ← gets (λ s. page.frames s.clock)
    more ← tables_in_frames 0 frames selector
    stamp ← gets (λ s. page.stamp s.clock)
    perform page (saves (path_join dir (codes "scraped_" ++ (stamp ++ codes ".json"))))
    modify (λ s. record s {
      scraped = s.scraped ++ map table_data (from_source (codes "main") main ++ more);
    })

  -- `_scrape_text`
  pub scrape_text : Text → Action Unit
  scrape_text selector = do
    text ← ask page (evaluates selector) page.text
    modify (λ s. record s { scraped = s.scraped ++ text_data text ∷ [] })

  -- `_take_screenshot`
  pub take_screenshot : Text → Bool → Action Unit
  take_screenshot name full = do
    stamp ← gets (λ s. page.stamp s.clock)
    perform page (shoots (path_join dir (name ++ (b'_' ∷ (stamp ++ codes ".png")))) full)
    modify (λ s. record s {
      screenshots = s.screenshots ++ path_join dir (name ++ (b'_' ∷ (stamp ++ codes ".png"))) ∷ [];
    })

  -- `_run_step`
  unfoldable pub run_step : ℕ → Step → Action Unit
  run_step i (Step.navigate url t) = navigate page url
  run_step i (Step.fill selector value date origin t) =
      fill page selector value date (default_to t 30000) origin
  run_step i (Step.select selector value t) = select page selector value (default_to t 30000)
  run_step i (Step.check selector checked t) = check page selector checked (default_to t 30000)
  run_step i (Step.click selector t) = click page selector (default_to t 30000)
  run_step i (Step.download selector t) = wait_for_download selector (default_to t 120000)
  run_step i (Step.wait ms t) = perform page (sleeps ms)
  run_step i (Step.keyboard key t) = do perform page (presses key); perform page (sleeps 500)
  run_step i (Step.scrape selector t) = scrape (text_or selector (codes "table"))
  run_step i (Step.extract_grid selector t) = extract_grid selector
  run_step i (Step.scrape_text selector t) = scrape_text (text_or selector [])
  run_step i (Step.screenshot name full t) =
      take_screenshot (text_or name (codes "step_" ++ decimal i)) (switched full)

  -- The loop of `run`, from step `i` on.
  unfoldable pub run_steps : ℕ → List Step → Action Unit
  run_steps i [] = pure tt
  run_steps i (step ∷ steps) = do run_step i step; run_steps (suc i) steps

  -- The `try` of `run`.
  pub run_recipe : Recipe → Action Unit
  run_recipe config = do
    if is_empty config.url then pure tt else navigate page config.url
    run_steps 0 config.steps
    take_screenshot (codes "final") false

pub data Status : Type 0 where
  success error : Status

-- What `run` returns; `output` is the number of steps in "Completed n steps".
pub record Report : Type 0 where
  pub status : Status
  pub output : Option ℕ
  pub downloads : List Text
  pub screenshots : List Text
  pub scraped : List Scraped
  pub error : Option Text

abbrev pub start : State
start = record { clock = 0; log = []; downloads = []; screenshots = []; scraped = [] }

abbrev report : Status → Option ℕ → Option Text → State → Report
report status output message s = record {
  status = status;
  output = output;
  downloads = s.downloads;
  screenshots = s.screenshots;
  scraped = s.scraped;
  error = message;
}

module _ (dir : Text) (page : Page) where
  -- Behind the error screenshot, whose own error is dropped.
  unfoldable pub conclude_error : Error → Result Unit → State → Result Report × State
  conclude_error e cancelled s = (cancelled, s)
  conclude_error e _ s = (ok (report Status.error none (some e.message) s), s)

  -- Behind the `try`; when the run is cancelled there is no report.
  unfoldable pub conclude : Recipe → Result Unit → State → Result Report × State
  conclude config (ok _) s = (ok (report Status.success (some (length config.steps)) none s), s)
  conclude config (raised e) s =
      let (r, s') = take_screenshot dir page (codes "error") false s in conclude_error e r s'
  conclude config cancelled s = (cancelled, s)

  -- `run`, with the state it leaves.
  unfoldable pub run : Recipe → Result Report × State
  run config = let (r, s) = run_recipe dir page config start in conclude config r s
