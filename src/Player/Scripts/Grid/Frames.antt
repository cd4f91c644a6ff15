-- ===== src/Player/Scripts/Grid/Frames.antt =====
-- Where the player looks into the frames for a grid.
use alex_claw.Prelude.{◌≡◌, refl, true, false, not, ◌||◌, Option, none, List, [], ◌∷◌, ◌++◌, arith}
use alex_claw.Text.{Text, text_eq, codes, has_text, starts_with}
use alex_claw.Player.Page.{Page}
use alex_claw.Js.{Json, null}
use alex_claw.Player.Steps.{error_of, elsewhere}
use alex_claw.Player.Scripts.Grid.{
  Row, Column, Widget, extract_rows, read_widget, extract_grid_script,
}

module _ (dir : Text) (page : Page) where
  here-extract_rows :
      (columns : Option (List Text)) (own : Option (List (Column Json null)))
      (rows : List (Row Json null))
      → elsewhere dir page (error_of (extract_rows Json null columns own rows)) ≡ false
  unfolding extract_rows error_of elsewhere has_text starts_with
  here-extract_rows columns own [] = refl
  here-extract_rows columns own (row ∷ rows) = refl

  here-not_grid :
      (selector : Text)
      → has_text selector (codes "not available") ≡ false
      → has_text selector (codes "not found") ≡ false
      → elsewhere dir page (codes "Not a jqxGrid: " ++ selector) ≡ false
  unfolding elsewhere has_text starts_with
  here-not_grid selector h k = ground (arith, h, k)

  there-not_found :
      (selector : Text) → elsewhere dir page (codes "Grid not found: " ++ selector) ≡ true
  unfolding elsewhere has_text starts_with
  there-not_found selector = ground arith

  there-no_jquery : elsewhere dir page (codes "jQuery not available on this page") ≡ true
  unfolding elsewhere has_text starts_with
  there-no_jquery = refl

  -- When nothing is thrown, and the selector does not itself read like one of the two errors: the player
  -- looks into the frames exactly when the page has no jQuery or no such grid.
  pub elsewhere-error_of :
      (selector : Text) (columns : Option (List Text)) (w : Widget Json null)
      → has_text selector (codes "not available") ≡ false
      → has_text selector (codes "not found") ≡ false
      → w.raised ≡ none
      → elsewhere dir page (error_of (extract_grid_script Json null selector columns w))
        ≡ (not w.jquery || not w.found)
  unfolding extract_grid_script read_widget error_of
  elsewhere-error_of selector columns w h k calm = ground (
    arith,
    there-no_jquery,
    there-not_found selector,
    here-not_grid selector h k,
    here-extract_rows columns w.columns w.rows,
  )
