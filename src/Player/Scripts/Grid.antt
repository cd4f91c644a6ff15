-- ===== src/Player/Scripts/Grid.antt =====
-- The script of `_extract_grid`: the rows of a jqxGrid, read through the widget's own interface.
mod Tests
pub mod Frames
pub mod Shape
use alex_claw.Prelude.{
  ℕ, Bool, true, false, ◌&&◌, ◌||◌, not, Option, none, some, List, [], ◌∷◌, ◌++◌, map, length,
  if◌then◌else◌, is_empty, keep, ◌==◌,
}
use alex_claw.Text.{Text, text_eq, codes, starts_with}

-- `V` are the values of a page that are not `undefined`.
module _ (V : Type 0) (null : V) where
  -- A row as the widget holds it.
  abbrev pub Row : Type 0
  Row = List (Text × V)

  -- `datafield` and `text` of a column; one that is missing is empty, and no column misses both.
  pub record Column : Type 0 where
    pub datafield : Text
    pub text : Text

  -- What the page says of the selector: `raised` is an exception that jQuery or the widget throws at
  -- the script, `columns` are none where asking for them raises.
  pub record Widget : Type 0 where
    pub jquery : Bool
    pub raised : Option Text
    pub found : Bool
    pub is_grid : Bool
    pub rows : List Row
    pub columns : Option (List Column)

  pub data Extract : Type 0 where
    failure : Text → Extract
    extract : (headers : List Text) (rows : List Row) (total : ℕ) → Extract

  -- `row[k]`
  pub field : Text → Row → Option V
  field k [] = none
  field k ((j, v) ∷ row) = if j == k then some v else field k row

  -- `row[k] !== undefined ? row[k] : null`
  pub or_null : Option V → V
  or_null none = null
  or_null (some v) = v

  -- `obj[k] = v`
  pub set : Text → V → Row → Row
  set k v [] = (k, v) ∷ []
  set k v ((j, w) ∷ row) = if j == k then (k, v) ∷ row else (j, w) ∷ set k v row

  -- The loop over the keys.
  pub pick_from : Row → List Text → Row → Row
  pick_from row [] obj = obj
  pick_from row (k ∷ keys) obj = pick_from row keys (set k (or_null (field k row)) obj)

  pub pick : List Text → Row → Row
  pick keys row = pick_from row keys []

  -- Whether a key of a row is not the widget's own.
  is_data : Text → Bool
  is_data k =
      not (starts_with k (codes "_"))
      && not (starts_with k (codes "$"))
      && not (k == codes "uid")
      && not (k == codes "boundindex")
      && not (k == codes "uniqueid")
      && not (k == codes "visibleindex")

  column_key : Column → Text
  column_key c = if is_empty c.datafield then c.text else c.datafield

  pub all_keys : Option (List Column) → Row → List Text
  all_keys none first = keep is_data (map (λ e. e.0) first)
  all_keys (some columns) first = map column_key columns

  chosen : Option (List Text) → List Text → List Text
  chosen none all = all
  chosen (some columns) all = columns

  extract_rows : Option (List Text) → Option (List Column) → List Row → Extract
  extract_rows columns own [] = failure (codes "No rows in grid")
  extract_rows columns own (first ∷ rows) =
      let keys = chosen columns (all_keys own first) in
      extract keys (map (pick keys) (first ∷ rows)) (length (first ∷ rows))

  read_widget : Text → Option (List Text) → Widget → Option Text → Extract
  read_widget selector columns w (some message) = failure message
  read_widget selector columns w none =
      if not w.found
      then failure (codes "Grid not found: " ++ selector)
      else if not w.is_grid
      then failure (codes "Not a jqxGrid: " ++ selector)
      else extract_rows columns w.columns w.rows

  -- The script of a selector, and of the columns that are asked for.
  pub extract_grid_script : Text → Option (List Text) → Widget → Extract
  extract_grid_script selector columns w =
      if not w.jquery
      then failure (codes "jQuery not available on this page")
      else read_widget selector columns w w.raised
