-- ===== src/Text/Number.antt =====
-- Numbers in text: Python's `str(n)`, `str.isdigit`, and `int` on `str` and on `bytes`.
pub mod Laws
use alex_claw.Prelude.{
  ℕ, zero, suc, ◌+◌, ◌-◌, ◌*◌, ◌/◌, ◌%◌, Bool, true, false, ◌&&◌, ◌||◌, not, Option, none, some, [],
  ◌∷◌, ltb, eqb, if◌then◌else◌, all, keep, length, is_empty,
}
use alex_claw.Text.{Text, in_range, is_blank, strip_where}

pub data ℤ : Type 0 where
  pos : ℕ → ℤ
  negsuc : ℕ → ℤ

abbrev pub is_ascii_digit : ℕ → Bool
is_ascii_digit c = in_range b'0' b'9' c

-- `c.isdigit()` below 256: the superscripts 1, 2 and 3 are digits too.
abbrev pub is_digit_char : ℕ → Bool
is_digit_char c = is_ascii_digit c || in_range 178 179 c || eqb c 185

abbrev pub is_digit : Text → Bool
is_digit s = not (is_empty s) && all is_digit_char s

-- The value of a run of decimal digits.
unfoldable pub value : ℕ → Text → ℕ
value n [] = n
value n (c ∷ s) = value (n * 10 + (c - 48)) s

-- `int` refuses a text of more digits than this.
abbrev pub max_digits : ℕ
max_digits = 4300

-- `int(s)` on a text whose characters are digits; `none` is the `ValueError`.
unfoldable pub int_of_digits : Text → Option ℕ
unfolding value
int_of_digits s =
    if is_empty s || not (all is_ascii_digit s) || ltb max_digits (length s)
    then none
    else some (value 0 s)

-- Digits with single underscores between them.
grouped : ℕ → Bool → Text → Option ℕ
grouped n after_digit [] = if after_digit then some n else none
grouped n after_digit (c ∷ s) =
    let digit = grouped (n * 10 + (c - 48)) true s in
    let gap = grouped n false s in
    if is_ascii_digit c then digit else if eqb c b'_' && after_digit then gap else none

abbrev negate : ℕ → ℤ
negate zero = pos zero
negate (suc n) = negsuc n

to_pos : Option ℕ → Option ℤ
to_pos none = none
to_pos (some n) = some (pos n)

to_neg : Option ℕ → Option ℤ
to_neg none = none
to_neg (some n) = some (negate n)

signed : Text → Option ℤ
unfolding grouped to_pos to_neg
signed [] = none
signed (c ∷ s) =
    if eqb c b'-'
    then to_neg (grouped 0 false s)
    else to_pos (grouped 0 false (if eqb c b'+' then s else c ∷ s))

-- `int(b)` on bytes: blanks around it, a sign, and single underscores are allowed.
unfoldable pub int_of_bytes : Text → Option ℤ
unfolding signed strip_where
int_of_bytes s =
    if ltb max_digits (length (keep is_ascii_digit s))
    then none
    else signed (strip_where is_blank s)

-- `str(n)`: the fuel bounds the number of digits, and `n + 1` of it is enough.
print_from : ℕ → ℕ → Text → Text
print_from zero n acc = acc
print_from (suc fuel) n acc =
    let longer = print_from fuel (n / 10) ((48 + n % 10) ∷ acc) in
    if ltb n 10 then (48 + n) ∷ acc else longer

unfoldable pub decimal : ℕ → Text
unfolding print_from
decimal n = print_from (suc n) n []
