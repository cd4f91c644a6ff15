-- ===== src/Text.antt =====
-- What the program uses of Python's `str` and `bytes`: a text is the list of its code points, or of
-- its bytes. Letter case and blanks are those of ASCII.
pub mod Number
pub mod Laws
use Prim.Native.Char.{code}
use alex_claw.Prelude.{
  Eq, nat_eq, list_eq, ℕ, zero, suc, ◌+◌, ◌-◌, ◌*◌, ◌/◌, ◌%◌, String, Bool, true, false, ◌&&◌, ◌||◌,
  Option, none, some, List, [], ◌∷◌, ◌++◌, map, reverse, ltb, leb, eqb, if◌then◌else◌, all, any,
  is_empty,
}

abbrev pub Text : Type 0
Text = List ℕ

instance unfoldable pub text_eq : Eq Text
unfolding list_eq
text_eq = list_eq

-- A literal of the source.
abbrev pub codes : String → Text
codes String.[] = []
codes (String.◌∷◌ c s) = code c ∷ codes s

-- `s.partition(c)`: the texts before and after the first `c`, and whether there is one.
pub record Parts : Type 0 where
  pub before : Text
  pub found : Bool
  pub after : Text

unfoldable pub partition : ℕ → Text → Parts
partition c [] = record { before = []; found = false; after = [] }
partition c (x ∷ s) =
    let rest = partition c s in
    if eqb x c
    then record { before = []; found = true; after = s }
    else record rest { before = x ∷ rest.before }

-- `s.rpartition(c)`: split at the last `c`; without one, all of `s` is `after`.
unfoldable pub rpartition : ℕ → Text → Parts
rpartition c [] = record { before = []; found = false; after = [] }
rpartition c (x ∷ s) =
    let rest = rpartition c s in
    if rest.found
    then record rest { before = x ∷ rest.before }
    else if eqb x c
    then record { before = []; found = true; after = s }
    else record { before = []; found = false; after = x ∷ s }

-- The pieces between the occurrences of `c`; `cur` holds the open piece, reversed.
split_from : ℕ → Text → Text → List Text
split_from c cur [] = reverse cur ∷ []
split_from c cur (x ∷ s) =
    let closed = reverse cur ∷ split_from c [] s in
    let longer = split_from c (x ∷ cur) s in if eqb x c then closed else longer

-- `s.split(c)` for one character `c`.
unfoldable pub split_on : ℕ → Text → List Text
unfolding split_from
split_on c s = split_from c [] s

-- `s.startswith(p)`
unfoldable pub starts_with : Text → Text → Bool
starts_with s [] = true
starts_with [] (y ∷ p) = false
starts_with (x ∷ s) (y ∷ p) = eqb x y && starts_with s p

-- `p in s` for a text `p`
unfoldable pub has_text : Text → Text → Bool
unfolding starts_with
has_text [] p = is_empty p
has_text (x ∷ s) p = starts_with (x ∷ s) p || has_text s p

-- `c in s` for a character `c`
abbrev pub has_char : Text → ℕ → Bool
has_char s c = any (λ x. eqb x c) s

abbrev pub in_range : ℕ → ℕ → ℕ → Bool
in_range lo hi c = leb lo c && leb c hi

abbrev pub lower_char : ℕ → ℕ
lower_char c = if in_range b'A' b'Z' c then c + 32 else c

-- `s.lower()`
unfoldable pub lower : Text → Text
lower s = map lower_char s

unfoldable pub drop_while : (ℕ → Bool) → Text → Text
drop_while p [] = []
drop_while p (x ∷ s) = let rest = drop_while p s in if p x then rest else x ∷ s

unfoldable pub strip_where : (ℕ → Bool) → Text → Text
unfolding drop_while
strip_where p s = reverse (drop_while p (reverse (drop_while p s)))

-- The blanks of `bytes.strip()`.
abbrev pub is_blank : ℕ → Bool
is_blank c = in_range 9 13 c || eqb c 32

-- The blanks of `str.strip()` and `str.split()`, which have the four separators too.
abbrev pub is_space : ℕ → Bool
is_space c = is_blank c || in_range 28 31 c

-- `s.split()`: the runs between blanks, none of them empty.
unfoldable pub words_from : Text → Text → List Text
words_from [] [] = []
words_from (y ∷ cur) [] = reverse (y ∷ cur) ∷ []
words_from [] (x ∷ s) = words_from (if is_space x then [] else x ∷ []) s
words_from (y ∷ cur) (x ∷ s) =
    let closed = reverse (y ∷ cur) ∷ words_from [] s in
    let longer = words_from (x ∷ y ∷ cur) s in if is_space x then closed else longer

unfoldable pub words : Text → List Text
unfolding words_from
words s = words_from [] s

-- `sep.join(parts)`
unfoldable pub join : Text → List Text → Text
join sep [] = []
join sep (s ∷ []) = s
join sep (s ∷ t ∷ parts) = s ++ (sep ++ join sep (t ∷ parts))
