-- ===== src/Player/Scripts/Grid/Shape.antt =====
-- What the player gets of a grid.
use alex_claw.Prelude.{
  ℕ, suc, ◌≡◌, ◌≢◌, refl, ap, ◌∙◌, Bool, true, false, not, Option, none, some, List, [], ◌∷◌, map,
  length, contains, arith, if◌then◌else◌, ◌==◌, ==_iff,
}
use alex_claw.Text.{Text, text_eq}
use alex_claw.Player.Scripts.Grid.{
  Row, Column, Widget, Extract, failure, extract, field, or_null, set, pick_from, pick, all_keys,
  extract_rows, chosen, read_widget, extract_grid_script,
}

module _ (V : Type 0) (null : V) where
  field-set :
      (k j : Text) (v : V) (row : Row V null)
      → field V null j (set V null k v row) ≡ (if k == j then some v else field V null j row)
  unfolding field set
  field-set k j v [] = refl
  field-set k j v ((i, w) ∷ row) =
      ground (arith, ==_iff k j, ==_iff i k, ==_iff i j, field-set k j v row)

  -- What was set for a key stays, since it is only set to the same again.
  field-pick_from :
      (row : Row V null) (keys : List Text) (obj : Row V null) (k : Text)
      → field V null k (pick_from V null row keys obj) ≡ (
          if contains keys k
          then some (or_null V null (field V null k row))
          else field V null k obj)
  unfolding pick_from
  field-pick_from row [] obj k = refl
  field-pick_from row (j ∷ keys) obj k = ground (
    arith,
    field-pick_from row keys (set V null j (or_null V null (field V null j row)) obj) k,
    field-set j k (or_null V null (field V null j row)) obj,
    ==_iff k j,
    ==_iff j k,
  )

  pub field-pick :
      (row : Row V null) (keys : List Text) (k : Text)
      → field V null k (pick V null keys row)
        ≡ (if contains keys k then some (or_null V null (field V null k row)) else none)
  unfolding pick field
  field-pick row keys k = field-pick_from row keys [] k

  pub length-map :
      (f : Row V null → Row V null) (rows : List (Row V null)) → length (map f rows) ≡ length rows
  length-map f [] = refl
  length-map f (row ∷ rows) = ap suc (length-map f rows)

  read_rows :
      (columns : Option (List Text)) (own : Option (List (Column V null)))
      (rows out : List (Row V null)) (headers : List Text) (total : ℕ)
      → extract_rows V null columns own rows ≡ extract headers out total
      → (out ≡ map (pick V null headers) rows) × (total ≡ length out) × (rows ≢ [])
  unfolding extract_rows
  read_rows columns own [] out headers total e = absurd (ground arith)
  read_rows columns own (first ∷ rows) out headers total e =
      let keys = chosen V null columns (all_keys V null own first) in
      ground (arith, length-map (pick V null keys) rows, length-map (pick V null headers) rows)

  -- A script that gives rows has passed its test.
  passed :
      (test : Bool) (why : Text) (rest : Extract V null) (headers : List Text)
      (rows : List (Row V null)) (total : ℕ)
      → (if test then failure why else rest) ≡ extract headers rows total
      → rest ≡ extract headers rows total
  passed true why rest headers rows total e = absurd (ground (arith, e))
  passed false why rest headers rows total e = e

  widget_rows :
      (selector : Text) (columns : Option (List Text)) (w : Widget V null) (raised : Option Text)
      (headers : List Text) (rows : List (Row V null)) (total : ℕ)
      → read_widget V null selector columns w raised ≡ extract headers rows total
      → extract_rows V null columns w.columns w.rows ≡ extract headers rows total
  unfolding read_widget
  widget_rows selector columns w none headers rows total e =
      passed (not w.is_grid) _ _ headers rows total (passed (not w.found) _ _ headers rows total e)
  widget_rows selector columns w (some message) headers rows total e = absurd (ground (arith, e))

  -- When the script of a grid returns rows: the grid has rows; each of them is returned, in their
  -- order and with their number; and a row that is returned has, for the keys of the headers and no
  -- other, the value of the grid's row, or null where that has none.
  pub extract_grid_script_lem :
      (selector : Text) (columns : Option (List Text)) (w : Widget V null) (headers : List Text)
      (rows : List (Row V null)) (total : ℕ)
      → extract_grid_script V null selector columns w ≡ extract headers rows total
      → (w.rows ≢ [])
        × (rows ≡ map (pick V null headers) w.rows)
        × (total ≡ length w.rows)
        × ((row : Row V null) (k : Text)
            → field V null k (pick V null headers row)
              ≡ (if contains headers k then some (or_null V null (field V null k row)) else none))
  unfolding extract_grid_script
  extract_grid_script_lem selector columns w headers rows total e =
      let read =
        widget_rows selector columns w w.raised headers rows total
          (passed (not w.jquery) _ _ headers rows total e) in
      let (same, counted, some_rows) = read_rows columns w.columns w.rows rows headers total read in
      (
        some_rows,
        same,
        counted ∙ ap length same ∙ length-map (pick V null headers) w.rows,
        λ row k. field-pick row headers k,
      )
