-- ===== src/Player/Scripts/Tables/Tests.antt =====
-- A table that is scraped.
use alex_claw.Prelude.{◌≡◌, refl, none, [], ◌∷◌, map}
use alex_claw.Text.{text_eq, codes, strip_where, drop_while}
use alex_claw.Js.{trim}
use alex_claw.Player.Scripts.Tables.{
  Document, ScrapedTable, scrape_script, html_tables, header_row, row_cells, rows_of, is_node, push,
  or_div_grids, jqx_grids,
}

-- A table with a header row and two others, one without cells; nothing else.
abbrev priced : Document
priced = record {
  tables = λ s.
      record {
        head = none;
        all_rows =
            record { node = 1; cells = codes "Item " ∷ codes "Price" ∷ [] }
            ∷ record { node = 2; cells = codes "Tea" ∷ codes " 3" ∷ [] }
            ∷ record { node = 3; cells = [] }
            ∷ [];
        body_rows = [];
      }
      ∷ [];
  grids = [];
  containers = λ s. [];
}

priced_rows :
    map ScrapedTable.rows (scrape_script (codes "table") priced)
    ≡ ((codes "Tea" ∷ codes "3" ∷ []) ∷ []) ∷ []
unfolding scrape_script html_tables header_row row_cells rows_of is_node push or_div_grids jqx_grids
    trim strip_where drop_while text_eq
priced_rows = refl
