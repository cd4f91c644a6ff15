-- ===== src/Player/Scripts/Tables/Shape.antt =====
-- The tables that `_scrape` reads of a document have the shape of a table.

use alex_claw.Prelude.{
  ℕ, suc, ◌+◌, ◌≤◌, ◌≡◌, refl, ap, ◌||◌, not, Option, List, [], ◌∷◌, map, length, All, arith,
  if◌then◌else◌, is_empty, keep, if_either, eqb, ltb, leb,
}
use alex_claw.Text.{Text, text_eq}
use alex_claw.Js.{trim}
use alex_claw.Player.Scripts.Tables.{
  Row, TableElement, GridElement, Document, Kind, table, jqxgrid, div_grid, ScrapedTable, push,
  header_row, is_node, or_div_grids, rows_of, html_tables, grid_headers, jqx_grids, div_cells,
  div_rows, div_table, div_grids, scrape_script,
}
use alex_claw.Player.Scripts.Tables.Cells.{IsFilled, grid_rows_lem}

-- A row of `n` cells, two at least.
IsWide : ℕ → List Text → Type 0
IsWide n row = (2 ≤ length row) × (length row ≡ n)

-- The widths of a table's rows.
pub IsShaped : Kind → List Text → List (List Text) → Type 0
IsShaped table headers rows = All (λ row. 1 ≤ length row) rows
IsShaped jqxgrid headers rows = All (λ h. 1 ≤ length h) headers × IsFilled (length headers) rows
IsShaped div_grid headers rows = All (IsWide (length headers)) (headers ∷ rows)

pub IsTable : ScrapedTable → Type 0
IsTable t = (1 ≤ length t.headers + length t.rows) × IsShaped t.kind t.headers t.rows

push-IsTable :
    (k : Kind) (headers : List Text) (rows : List (List Text)) (results : List ScrapedTable)
    → IsShaped k headers rows
    → All IsTable results
    → All IsTable (push k headers rows results)
unfolding push IsTable
push-IsTable k [] [] results h hs = hs
push-IsTable k (x ∷ headers) rows results h hs = ((omega arith, h), hs)
push-IsTable k [] (row ∷ rows) results h hs = ((omega arith, h), hs)

length-map : (cells : List Text) → length (map trim cells) ≡ length cells
length-map [] = refl
length-map (c ∷ cells) = ap suc (length-map cells)

rows_of-All : (head : Option Row) (trs : List Row) → All (λ row. 1 ≤ length row) (rows_of head trs)
unfolding rows_of
rows_of-All head [] = tt
rows_of-All head (tr ∷ trs) =
    if_either (All (λ row. 1 ≤ length row)) (is_node head tr || is_empty tr.cells)
      (λ _. rows_of-All head trs)
      (λ shown. (ground (arith, length-map tr.cells), rows_of-All head trs))

html_tables-IsTable :
    (ts : List TableElement) (results : List ScrapedTable)
    → All IsTable results
    → All IsTable (html_tables ts results)
unfolding html_tables IsShaped
html_tables-IsTable [] results h = h
html_tables-IsTable (t ∷ ts) results h =
    push-IsTable table _ _ _ (rows_of-All (header_row t) _) (html_tables-IsTable ts results h)

keep-All : (hs : List Text) → All (λ h. 1 ≤ length h) (keep (λ s. not (is_empty s)) hs)
keep-All [] = tt
keep-All ([] ∷ hs) = keep-All hs
keep-All ((x ∷ h) ∷ hs) = (omega arith, keep-All hs)

jqx_grids-IsTable : (gs : List GridElement) → All IsTable (jqx_grids gs)
unfolding jqx_grids IsShaped grid_headers
jqx_grids-IsTable [] = tt
jqx_grids-IsTable (g ∷ gs) =
    push-IsTable jqxgrid _ _ _
      (keep-All (map trim g.header_cells), (grid_rows_lem (length (grid_headers g)) g.grid_cells).1)
      (jqx_grids-IsTable gs)

-- A row's text is skipped, or its cells are kept where they are as many as the count.
div_rows_step :
    (P : List (List Text) → Type 0) (count count' : ℕ) (s : Text) (rows : List Text)
    → (if eqb count 0 then length (div_cells (trim s)) else count) ≡ count'
    → P (div_rows count rows)
    → (2 ≤ length (div_cells (trim s)) → P (div_rows count' rows))
    → (2 ≤ length (div_cells (trim s))
        → length (div_cells (trim s)) ≡ count'
        → P (div_cells (trim s) ∷ div_rows count' rows))
    → P (div_rows count (s ∷ rows))
unfolding div_rows
div_rows_step P count count' s rows counted skipped other taken =
    let cells = div_cells (trim s) in
    rw counted (
      if_either P (is_empty (trim s)) (λ _. skipped)
        (λ _.
          if_either P (not (leb 2 (length cells))) (λ _. skipped)
            (λ two.
              if_either P (eqb (length cells) count') (λ e. taken (ground arith) (ground arith))
                (λ _. other (ground arith)))))

div_rows-IsWide : (n : ℕ) (rows : List Text) → 1 ≤ n → All (IsWide n) (div_rows n rows)
unfolding div_rows IsWide
div_rows-IsWide n [] h = tt
div_rows-IsWide n (s ∷ rows) h =
    let rest = div_rows-IsWide n rows h in
    div_rows_step (All (IsWide n)) n n s rows (ground arith) rest (λ _. rest)
      (λ two e. ((two, e), rest))

-- The first row that is kept decides.
div_rows-All : (rows : List Text) → (n : ℕ) × All (IsWide n) (div_rows 0 rows)
unfolding div_rows IsWide
div_rows-All [] = (0, tt)
div_rows-All (s ∷ rows) =
    let n = length (div_cells (trim s)) in
    let rest = λ (two : 2 ≤ n). div_rows-IsWide n rows (omega (arith, two)) in
    div_rows_step (λ kept. (n : ℕ) × All (IsWide n) kept) 0 n s rows refl (div_rows-All rows)
      (λ two. (n, rest two)) (λ two e. (n, ((two, e), rest two)))

All-IsWide : (n m : ℕ) (rows : List (List Text)) → m ≡ n → All (IsWide n) rows → All (IsWide m) rows
All-IsWide n m rows e h = rw e h

div_table-IsTable :
    (n : ℕ) (rows : List (List Text)) (results : List ScrapedTable)
    → All (IsWide n) rows
    → All IsTable results
    → All IsTable (div_table rows results)
unfolding div_table IsTable IsShaped IsWide
div_table-IsTable n [] results h hs = hs
div_table-IsTable n (headers ∷ []) results h hs = hs
div_table-IsTable n (headers ∷ row ∷ rows) results (wide, h) hs =
    ((omega arith, ((wide.0, refl), All-IsWide n (length headers) (row ∷ rows) wide.1 h)), hs)

div_grids-IsTable : (cs : List (List Text)) → All IsTable (div_grids cs)
unfolding div_grids
div_grids-IsTable [] = tt
div_grids-IsTable (c ∷ cs) =
    let (n, wide) = div_rows-All c in
    if_either (All IsTable) (ltb (length c) 2) (λ _. div_grids-IsTable cs)
      (λ _. div_table-IsTable n (div_rows 0 c) (div_grids cs) wide (div_grids-IsTable cs))

or_div_grids-IsTable :
    (results : List ScrapedTable) (cs : List (List Text))
    → All IsTable results
    → All IsTable (or_div_grids results cs)
unfolding or_div_grids
or_div_grids-IsTable [] cs h = div_grids-IsTable cs
or_div_grids-IsTable (t ∷ results) cs h = h

-- Whatever a document holds, each table that the script returns has the shape of its kind.
pub scrape_script-IsTable :
    (selector : Text) (d : Document) → All IsTable (scrape_script selector d)
unfolding scrape_script
scrape_script-IsTable selector d =
    or_div_grids-IsTable _ _ (html_tables-IsTable _ _ (jqx_grids-IsTable d.grids))
