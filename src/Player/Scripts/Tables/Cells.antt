-- ===== src/Player/Scripts/Tables/Cells.antt =====
-- The rows that `_scrape` makes of a grid's cells.
use mathlib.Core.List.{reverse-cons, append_assoc}
use alex_claw.Prelude.{
  ℕ, ◌≤◌, ◌<◌, ◌≡◌, ◌⊎◌, refl, ◌∙◌, Bool, ◌&&◌, List, [], ◌∷◌, ◌++◌, length, reverse, arith,
  if◌then◌else◌, if_either, inr, ltb, leb, length-append,
}
use alex_claw.Text.{Text, text_eq}
use alex_claw.Js.{trim}
use alex_claw.Player.Scripts.Tables.{Cell, grid_rows}

-- Rows of `n` cells each, but for the last one, which may have fewer; without headers, one row.
pub IsFilled : ℕ → List (List Text) → Type 0
IsFilled n [] = Unit
IsFilled n (r ∷ []) = (1 ≤ length r) × ((n ≡ 0) ⊎ (length r ≤ n))
IsFilled n (r ∷ s ∷ rows) = (length r ≡ n) × (1 ≤ n) × IsFilled n (s ∷ rows)

pub concat : List (List Text) → List Text
concat [] = []
concat (r ∷ rows) = r ++ concat rows

-- The texts of the cells that are in no header.
pub data_cells : List Cell → List Text
data_cells [] = []
data_cells (c ∷ cs) = if c.in_header then data_cells cs else trim c.text ∷ data_cells cs

length-reverse : (s : List Text) → length (reverse s) ≡ length s
length-reverse [] = refl
length-reverse (x ∷ s) =
    rw reverse-cons (length-append (reverse s) (x ∷ []) ∙ ground (arith, length-reverse s))

reverse_onto :
    (x : Text) (row rest : List Text) → reverse (x ∷ row) ++ rest ≡ reverse row ++ (x ∷ rest)
reverse_onto x row rest = rw reverse-cons (append_assoc (reverse row) (x ∷ []) rest)

concat-grid_rows :
    (n : ℕ) (row : List Text) (cs : List Cell)
    → concat (grid_rows n row cs) ≡ reverse row ++ data_cells cs
unfolding grid_rows data_cells concat
concat-grid_rows n [] [] = refl
concat-grid_rows n (x ∷ row) [] = refl
concat-grid_rows n row (c ∷ cs) = ground (
  arith,
  concat-grid_rows n row cs,
  concat-grid_rows n [] cs,
  concat-grid_rows n (trim c.text ∷ row) cs,
  reverse_onto (trim c.text) row (data_cells cs),
)

-- A row that is closed, before the rows that are behind it.
IsFilled-cons :
    (n : ℕ) (r : List Text) (rows : List (List Text))
    → 1 ≤ n
    → length r ≡ n
    → IsFilled n rows
    → IsFilled n (r ∷ rows)
unfolding IsFilled
IsFilled-cons n r [] some_cells e h = (omega arith, inr (omega arith))
IsFilled-cons n r (s ∷ rows) some_cells e h = (e, some_cells, h)

-- Whether the current row is to be closed.
abbrev is_full : ℕ → List Text → Bool
is_full n row = ltb 0 n && leb n (length row)

grid_rows-IsFilled :
    (n : ℕ) (row : List Text) (cs : List Cell)
    → ((n ≡ 0) ⊎ (length row < n))
    → IsFilled n (grid_rows n row cs)
unfolding grid_rows IsFilled
grid_rows-IsFilled n [] [] h = tt
grid_rows-IsFilled n (x ∷ row) [] h = ground (arith, length-reverse (x ∷ row))
grid_rows-IsFilled n row (c ∷ cs) h =
    let longer = trim c.text ∷ row in
    if_either (IsFilled n) c.in_header (λ _. grid_rows-IsFilled n row cs h)
      (λ _.
        if_either (IsFilled n) (is_full n longer)
          (λ full.
            IsFilled-cons n (reverse longer) (grid_rows n [] cs) (ground arith)
              (length-reverse longer ∙ ground arith) (grid_rows-IsFilled n [] cs (ground arith)))
          (λ short. grid_rows-IsFilled n longer cs (ground arith)))

-- The rows of a grid hold the texts of its cells that are in no header, in their order; they have as
-- many cells as there are headers, but for the last one.
pub grid_rows_lem :
    (n : ℕ) (cs : List Cell)
    → (concat (grid_rows n [] cs) ≡ data_cells cs) × IsFilled n (grid_rows n [] cs)
grid_rows_lem n cs = (concat-grid_rows n [] cs, grid_rows-IsFilled n [] cs (ground arith))
