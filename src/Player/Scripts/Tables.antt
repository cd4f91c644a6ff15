-- ===== src/Player/Scripts/Tables.antt =====
-- The script of `_scrape`: the tables of a document, by three strategies. A document is what its
-- `querySelectorAll` calls find; a row of a table has its node, which tells it from another row.
mod Tests
pub mod Cells
pub mod Shape
use alex_claw.Prelude.{
  ℕ, suc, Bool, true, false, ◌&&◌, ◌||◌, not, Option, none, some, List, [], ◌∷◌, ◌++◌, map, length,
  reverse, if◌then◌else◌, is_empty, keep, ◌==◌, eqb, ltb, leb,
}
use alex_claw.Text.{Text, text_eq, codes}
use alex_claw.Js.{trim, split_runs}

-- A `tr` and the texts of its `th` and `td`.
pub record Row : Type 0 where
  pub node : ℕ
  pub cells : List Text

-- A `table`: the first `thead tr`, the `tr` and the `tbody tr` in it.
pub record TableElement : Type 0 where
  pub head : Option Row
  pub all_rows : List Row
  pub body_rows : List Row

-- A cell of a grid: its text, and whether it stands in a header.
pub record Cell : Type 0 where
  pub text : Text
  pub in_header : Bool

pub record GridElement : Type 0 where
  pub header_cells : List Text
  pub grid_cells : List Cell

-- `containers` are the texts of the `:scope > div` and `:scope > li` of each element found.
pub record Document : Type 0 where
  pub tables : Text → List TableElement
  pub grids : List GridElement
  pub containers : Text → List (List Text)

pub data Kind : Type 0 where
  table jqxgrid div_grid : Kind

pub record ScrapedTable : Type 0 where
  pub headers : List Text
  pub rows : List (List Text)
  pub kind : Kind

-- `results.push` of a table that has headers or rows.
pub push : Kind → List Text → List (List Text) → List ScrapedTable → List ScrapedTable
push k headers rows results =
    if not (is_empty headers) || not (is_empty rows)
    then record { headers = headers; rows = rows; kind = k } ∷ results
    else results

-- `table.querySelector('thead tr') || table.querySelector('tr')`
pub header_row : TableElement → Option Row
header_row t = pick t.head t.all_rows
  where
    pick : Option Row → List Row → Option Row
    pick (some row) rows = some row
    pick none [] = none
    pick none (row ∷ rows) = some row

pub row_cells : Option Row → List Text
row_cells none = []
row_cells (some row) = map trim row.cells

pub is_node : Option Row → Row → Bool
is_node none tr = false
is_node (some row) tr = eqb row.node tr.node

-- The loop over the rows, which leaves the header's row out.
pub rows_of : Option Row → List Row → List (List Text)
rows_of head [] = []
rows_of head (tr ∷ trs) =
    let rest = rows_of head trs in
    if is_node head tr || is_empty tr.cells then rest else map trim tr.cells ∷ rest

-- Strategy 1
pub html_tables : List TableElement → List ScrapedTable → List ScrapedTable
html_tables [] results = results
html_tables (t ∷ ts) results =
    let head = header_row t in
    push table (row_cells head)
      (rows_of head (if is_empty t.body_rows then t.all_rows else t.body_rows))
      (html_tables ts results)

-- The loop over a grid's cells, for as many cells in a row as there are headers; `row` is the current
-- row in reverse.
pub grid_rows : ℕ → List Text → List Cell → List (List Text)
grid_rows n row [] = if is_empty row then [] else reverse row ∷ []
grid_rows n row (c ∷ cs) =
    let longer = trim c.text ∷ row in
    let skipped = grid_rows n row cs in
    let closed = grid_rows n [] cs in
    let still = grid_rows n longer cs in
    if c.in_header
    then skipped
    else if ltb 0 n && leb n (length longer)
    then reverse longer ∷ closed
    else still

pub grid_headers : GridElement → List Text
grid_headers g = keep (λ s. not (is_empty s)) (map trim g.header_cells)

-- Strategy 2
pub jqx_grids : List GridElement → List ScrapedTable
jqx_grids [] = []
jqx_grids (g ∷ gs) =
    let headers = grid_headers g in
    push jqxgrid headers (grid_rows (length headers) [] g.grid_cells) (jqx_grids gs)

is_tab_or_newline : ℕ → Bool
is_tab_or_newline c = eqb c b'\t' || eqb c b'\n'

pub div_cells : Text → List Text
div_cells s = keep (λ c. not (is_empty c)) (map trim (split_runs is_tab_or_newline s))

-- The loop over a container's rows; `count` is `colCount`.
pub div_rows : ℕ → List Text → List (List Text)
div_rows count [] = []
div_rows count (s ∷ rest) =
    let cells = div_cells (trim s) in
    let count' = if eqb count 0 then length cells else count in
    let skipped = div_rows count rest in
    let taken = div_rows count' rest in
    if is_empty (trim s)
    then skipped
    else if not (leb 2 (length cells))
    then skipped
    else if eqb (length cells) count'
    then cells ∷ taken
    else taken

div_table : List (List Text) → List ScrapedTable → List ScrapedTable
div_table (headers ∷ row ∷ rows) results =
    record { headers = headers; rows = row ∷ rows; kind = div_grid } ∷ results
div_table rows results = results

-- Strategy 3
pub div_grids : List (List Text) → List ScrapedTable
div_grids [] = []
div_grids (c ∷ cs) =
    let rest = div_grids cs in if ltb (length c) 2 then rest else div_table (div_rows 0 c) rest

-- `if (results.length === 0)`
pub or_div_grids : List ScrapedTable → List (List Text) → List ScrapedTable
or_div_grids [] containers = div_grids containers
or_div_grids (t ∷ results) containers = t ∷ results

-- `extract_js`
pub scrape_script : Text → Document → List ScrapedTable
scrape_script selector d =
    let whole = codes "table" in
    let inner = selector ++ codes " table, table" in
    let any = codes "[class*=\"table\"], [class*=\"grid\"], [class*=\"data\"]" in
    or_div_grids
      (html_tables (d.tables (if selector == whole then whole else inner)) (jqx_grids d.grids))
      (d.containers (if selector == whole then any else selector))
