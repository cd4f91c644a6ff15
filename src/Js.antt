-- ===== src/Js.antt =====
-- What the scripts in the page use of JavaScript's strings. A string is a text; blanks are ASCII's.
pub mod Laws
use alex_claw.Prelude.{
  ℕ, Bool, true, false, Option, none, some, List, [], ◌∷◌, reverse, take, drop, if◌then◌else◌,
  is_empty, not,
}
use alex_claw.Text.{Text, is_blank, strip_where}

-- A value of JSON; a number as it is printed, an array or an object as `JSON.stringify` prints it.
pub data Json : Type 0 where
  null : Json
  flag : Bool → Json
  number text nested : Text → Json

-- `s.trim()`
unfoldable pub trim : Text → Text
trim s = strip_where is_blank s

-- `s.split(re)` for a class of characters, once or more: behind a run of separators (`true`), or in a
-- part that is held in reverse. Unlike Python's `s.split()` it leaves an empty part at either end.
unfoldable pub split_from : (ℕ → Bool) → Bool → Text → Text → List Text
split_from p true cur [] = [] ∷ []
split_from p false cur [] = reverse cur ∷ []
split_from p true cur (x ∷ s) =
    let gap = split_from p true [] s in
    let begun = split_from p false (x ∷ []) s in if p x then gap else begun
split_from p false cur (x ∷ s) =
    let closed = reverse cur ∷ split_from p true [] s in
    let longer = split_from p false (x ∷ cur) s in if p x then closed else longer

unfoldable pub split_runs : (ℕ → Bool) → Text → List Text
unfolding split_from
split_runs p s = split_from p false [] s

-- `s.substring(0, n)`
abbrev pub prefix : ℕ → Text → Text
prefix n s = take n s

-- `s || ''`
abbrev pub or_empty : Option Text → Text
or_empty none = []
or_empty (some s) = s
