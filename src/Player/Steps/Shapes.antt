-- ===== src/Player/Steps/Shapes.antt =====
-- The shape of what the scripts of a page answer, in the page and in its frames.
use alex_claw.Prelude.{
  ℕ, suc, ◌≤◌, ◌≡◌, ◌≢◌, ◌↔◌, refl, sym, ap, ◌∙◌, true, Option, none, some, List, [], ◌∷◌, map,
  length, All, All-append, arith, contains, is_empty,
}
use alex_claw.Text.{Text, text_eq}
use alex_claw.Js.{Json, null}
use alex_claw.Player.Page.{Grid, Table, Page, evaluates, Scraped, text_data, grid_data, table_data}
use alex_claw.Player.Page.Scrapes.{
  Answers, Answers-pure, Answers-ask, Answers-catch, Answers-bind, Answers-if,
}
use alex_claw.Player.Scripts.Grid.{Row, extract, failure, field, pick, extract_grid_script, Widget}
use alex_claw.Player.Scripts.Grid.Shape.{extract_grid_script_lem, field-pick, length-map}
use alex_claw.Player.Scripts.Tables.{ScrapedTable}
use alex_claw.Player.Scripts.Tables.Shape.{IsTable, scrape_script-IsTable}
use alex_claw.Player.Steps.{
  error_of, grid_at, tables_at, grid_in_frames, tables_in_frames, from_source, frame_source,
}

-- A row has the keys of the headers, and no other.
abbrev pub HasKeys : List Text → Row Json null → Type 0
HasKeys headers row = (k : Text) → (field Json null k row ≢ none) ↔ (contains headers k ≡ true)

-- An error; or rows, one at least, as many as are told, each with the keys of the headers.
pub IsGrid : Grid → Type 0
IsGrid (failure message) = Unit
IsGrid (extract headers rows total) =
    (1 ≤ total) × (total ≡ length rows) × All (HasKeys headers) rows

unfoldable pub IsShapely : Scraped → Type 0
IsShapely (text_data t) = Unit
IsShapely (grid_data selector g) = IsGrid g
IsShapely (table_data t) = IsTable t.table

HasKeys-pick :
    (headers : List Text) (rows : List (Row Json null))
    → All (HasKeys headers) (map (pick Json null headers) rows)
HasKeys-pick headers [] = tt
HasKeys-pick headers (row ∷ rows) =
    (λ k. ground (arith, field-pick Json null row headers k), HasKeys-pick headers rows)

IsGrid-picked :
    (headers : List Text) (own rows : List (Row Json null)) (total : ℕ)
    → own ≢ []
    → rows ≡ map (pick Json null headers) own
    → total ≡ length own
    → IsGrid (extract headers rows total)
unfolding IsGrid
IsGrid-picked headers [] rows total some_rows same counted = absurd (some_rows refl)
IsGrid-picked headers (row ∷ own) rows total some_rows same counted = (
  omega (arith, counted),
  counted ∙ sym (ap length same ∙ length-map Json null (pick Json null headers) (row ∷ own)),
  rw same (HasKeys-pick headers (row ∷ own)),
)

IsGrid-script :
    (selector : Text) (w : Widget Json null) (g : Grid)
    → extract_grid_script Json null selector none w ≡ g
    → IsGrid g
IsGrid-script selector w (extract headers rows total) e =
    let (some_rows, same, counted, keys) =
      extract_grid_script_lem Json null selector none w headers rows total e in
    IsGrid-picked headers w.rows rows total some_rows same counted
IsGrid-script selector w (failure message) e = unfold IsGrid in tt

pub table_data-IsShapely :
    (ts : List Table) → All (λ t. IsTable t.table) ts → All IsShapely (map table_data ts)
unfolding IsShapely
table_data-IsShapely [] h = tt
table_data-IsShapely (t ∷ ts) (h, hs) = (h, table_data-IsShapely ts hs)

module _ (dir : Text) (page : Page) where
  pub IsGrid-grid_at : (selector : Text) (t : ℕ) → IsGrid (grid_at dir page selector t)
  unfolding grid_at
  IsGrid-grid_at selector t = IsGrid-script selector (page.widget t) _ refl

  -- A frame's answer, unless it raised.
  abbrev IsAnswered : Option Grid → Type 0
  IsAnswered none = Unit
  IsAnswered (some g) = IsGrid g

  pub grid_in_frames-Answers :
      (urls : List Text) (selector : Text) (g : Grid)
      → IsGrid g
      → Answers IsGrid (grid_in_frames dir page urls selector g)
  unfolding grid_in_frames
  grid_in_frames-Answers [] selector g h = Answers-pure IsGrid g h
  grid_in_frames-Answers (url ∷ urls) selector g h =
      Answers-bind IsGrid IsAnswered _ _
        (Answers-catch IsAnswered _ _
          (Answers-ask IsAnswered page (evaluates selector) _ (IsGrid-grid_at selector))
          (λ e. Answers-pure IsAnswered none tt))
        (elim [
          | none ↦ λ _. grid_in_frames-Answers urls selector g h
          | some tried ↦ λ k.
              Answers-if IsGrid (is_empty (error_of tried)) _ _ (Answers-pure IsGrid tried k)
                (grid_in_frames-Answers urls selector tried k)
        ])

  pub tables_at-All : (selector : Text) (t : ℕ) → All IsTable (tables_at dir page selector t)
  unfolding tables_at
  tables_at-All selector t = scrape_script-IsTable selector (page.document t)

  pub from_source-All :
      (source : Text) (ts : List ScrapedTable)
      → All IsTable ts
      → All (λ t. IsTable t.table) (from_source dir page source ts)
  from_source-All source [] h = tt
  from_source-All source (t ∷ ts) (h, hs) = (h, from_source-All source ts hs)

  pub tables_in_frames-Answers :
      (i : ℕ) (urls : List Text) (selector : Text)
      → Answers (All (λ t. IsTable t.table)) (tables_in_frames dir page i urls selector)
  unfolding tables_in_frames
  tables_in_frames-Answers i [] selector = Answers-pure _ [] tt
  tables_in_frames-Answers i (url ∷ urls) selector =
      Answers-bind _ (All IsTable) _ _
        (Answers-catch (All IsTable) _ _
          (Answers-ask (All IsTable) page (evaluates selector) _ (tables_at-All selector))
          (λ e. Answers-pure (All IsTable) [] tt))
        (λ here h.
          Answers-bind _ (All (λ t. IsTable t.table)) _ _
            (tables_in_frames-Answers (suc i) urls selector)
            (λ rest k. Answers-pure _ _ (
              All-append (λ t. IsTable t.table)
                (from_source dir page (frame_source dir page i url) here) rest
                (from_source-All _ here h) k)))
