-- ===== src/Player/Scripts/Grid/Tests.antt =====
-- A grid that is read.
use alex_claw.Prelude.{
  ℕ, ◌≡◌, ◌≢◌, refl, true, none, some, List, [], ◌∷◌, map, length, contains, if◌then◌else◌,
}
use alex_claw.Text.{Text, text_eq, codes, starts_with}
use alex_claw.Player.Scripts.Grid.{
  Widget, Row, extract, extract_grid_script, read_widget, extract_rows, chosen, all_keys, is_data,
  pick, pick_from, set, field, or_null,
}
use alex_claw.Player.Scripts.Grid.Shape.{extract_grid_script_lem}

-- Two rows, the second without a price.
abbrev stock : Widget ℕ 0
stock = record {
  jquery = true;
  raised = none;
  found = true;
  is_grid = true;
  rows =
      ((codes "uid", 7) ∷ (codes "item", 1) ∷ (codes "price", 30) ∷ [])
      ∷ ((codes "item", 2) ∷ [])
      ∷ [];
  columns = none;
}

abbrev stock_keys : List Text
stock_keys = codes "item" ∷ codes "price" ∷ []

abbrev stock_rows : List (Row ℕ 0)
stock_rows =
    ((codes "item", 1) ∷ (codes "price", 30) ∷ [])
    ∷ ((codes "item", 2) ∷ (codes "price", 0) ∷ [])
    ∷ []

stock_extracted : extract_grid_script ℕ 0 (codes "#g") none stock ≡ extract stock_keys stock_rows 2
unfolding extract_grid_script read_widget extract_rows chosen all_keys is_data pick pick_from set
    field or_null starts_with text_eq
stock_extracted = refl

extract_grid_script_lem_example :
    (stock.rows ≢ [])
    × (stock_rows ≡ map (pick ℕ 0 stock_keys) stock.rows)
    × (2 ≡ length stock.rows)
    × ((row : Row ℕ 0) (k : Text)
        → field ℕ 0 k (pick ℕ 0 stock_keys row)
          ≡ (if contains stock_keys k then some (or_null ℕ 0 (field ℕ 0 k row)) else none))
extract_grid_script_lem_example =
    extract_grid_script_lem ℕ 0 (codes "#g") none stock stock_keys stock_rows 2 stock_extracted
