-- ===== src/Ip.antt =====
-- Python's `ipaddress`: addresses as numbers, their textual forms, and networks.
use alex_claw.Prelude.{
  ℕ, ◌+◌, ◌-◌, ◌*◌, ◌/◌, ◌%◌, ◌^◌, Bool, true, false, ◌&&◌, ◌||◌, not, Option, none, some, List, [],
  ◌∷◌, ltb, eqb, if◌then◌else◌, all, length, is_empty, reverse,
}
use alex_claw.Text.{Text, in_range, has_char, split_on, partition}
use alex_claw.Text.Number.{is_ascii_digit, value}

pub data Address : Type 0 where
  v4 : ℕ → Address
  v6 : ℕ → Address

abbrev pub quad : ℕ → ℕ → ℕ → ℕ → ℕ
quad a b c d = ((a * 256 + b) * 256 + c) * 256 + d

-- One decimal octet: no leading zero, at most three digits, at most 255.
octet : Text → Option ℕ
octet s =
    if is_empty s || not (all is_ascii_digit s) || ltb 3 (length s)
    then none
    else if ltb 1 (length s) && starts_zero s
    then none
    else if ltb 255 (value 0 s)
    then none
    else some (value 0 s)
  where
    starts_zero : Text → Bool
    starts_zero [] = false
    starts_zero (c ∷ _) = eqb c b'0'

quad_of : Option ℕ → Option ℕ → Option ℕ → Option ℕ → Option ℕ
quad_of (some a) (some b) (some c) (some d) = some (quad a b c d)
quad_of _ _ _ _ = none

v4_of_parts : List Text → Option ℕ
v4_of_parts (a ∷ b ∷ c ∷ d ∷ []) = quad_of (octet a) (octet b) (octet c) (octet d)
v4_of_parts _ = none

unfoldable pub parse_v4 : Text → Option ℕ
unfolding v4_of_parts quad_of octet value split_on
parse_v4 s = v4_of_parts (split_on b'.' s)

hex_digit : ℕ → Option ℕ
hex_digit c =
    if is_ascii_digit c
    then some (c - 48)
    else if in_range b'a' b'f' c
    then some (c - 87)
    else if in_range b'A' b'F' c
    then some (c - 55)
    else none

hex_value : ℕ → Text → Option ℕ
hex_value n [] = some n
hex_value n (c ∷ s) = elim (hex_digit c) [ none ↦ none | some d ↦ hex_value (n * 16 + d) s ]

-- The fields between the colons; `none` is an empty one.
abbrev Fields : Type 0
Fields = List (Option ℕ)

cons_field : Option ℕ → Option Fields → Option Fields
cons_field (some h) (some fs) = some (some h ∷ fs)
cons_field _ _ = none

cons_gap : Option Fields → Option Fields
cons_gap none = none
cons_gap (some fs) = some (none ∷ fs)

-- A dotted last part stands for two fields.
v4_fields : Option ℕ → Option Fields
v4_fields none = none
v4_fields (some n) = some (some (n / 65536) ∷ some (n % 65536) ∷ [])

fields : List Text → Option Fields
fields [] = some []
fields (s ∷ []) =
    if has_char s b'.'
    then v4_fields (parse_v4 s)
    else if is_empty s
    then some (none ∷ [])
    else if ltb 4 (length s)
    then none
    else cons_field (hex_value 0 s) (some [])
fields (s ∷ t ∷ rest) =
    let more = fields (t ∷ rest) in
    if is_empty s
    then cons_gap more
    else if ltb 4 (length s)
    then none
    else cons_field (hex_value 0 s) more

-- The fields up to the first inner gap, and those after it.
record Halves : Type 0 where
  high : List ℕ
  gap : Bool
  low : List ℕ

-- Fields with no gap among them, but for an empty last one under `::`.
low_half : Fields → Option (List ℕ)
low_half [] = some []
low_half (none ∷ _) = none
low_half (some h ∷ fs) = elim (low_half fs) [ none ↦ none | some l ↦ some (h ∷ l) ]

-- After the gap: `::` at the end leaves one empty field.
after_gap : Fields → Option (List ℕ)
after_gap (none ∷ []) = some []
after_gap fs = low_half fs

split_gap : List ℕ → Fields → Option Halves
split_gap high [] = some (record { high = reverse high; gap = false; low = [] })
split_gap high (some h ∷ fs) = split_gap (h ∷ high) fs
split_gap high (none ∷ []) = none
split_gap high (none ∷ f ∷ fs) = elim (after_gap (f ∷ fs)) [
  | none ↦ none
  | some low ↦ some (record { high = reverse high; gap = true; low = low })
]

-- An empty first field must be followed by the gap.
halves : Fields → Option Halves
halves (none ∷ none ∷ f ∷ fs) = split_gap [] (none ∷ f ∷ fs)
halves (none ∷ _) = none
halves fs = split_gap [] fs

number_of : ℕ → List ℕ → ℕ
number_of n [] = n
number_of n (h ∷ hs) = number_of (n * 65536 + h) hs

join_halves : Halves → Option ℕ
join_halves p =
    let given = length p.high + length p.low in
    if p.gap
    then (if ltb 7 given
        then none
        else some (number_of (number_of 0 p.high * 65536 ^ (8 - given)) p.low))
    else if eqb given 8
    then some (number_of 0 p.high)
    else none

v6_of_fields : Option Fields → Option ℕ
v6_of_fields none = none
v6_of_fields (some fs) =
    if ltb (length fs) 3 || ltb 9 (length fs)
    then none
    else elim (halves fs) [ none ↦ none | some p ↦ join_halves p ]

-- `%zone` is split off: it must not be empty or hold another `%`.
unfoldable pub parse_v6 : Text → Option ℕ
unfolding v6_of_fields fields v4_fields cons_gap cons_field hex_value hex_digit parse_v4 halves
    split_gap after_gap low_half join_halves number_of partition split_on
parse_v6 s =
    let zone = partition b'%' s in
    if zone.found && (is_empty zone.after || has_char zone.after b'%')
    then none
    else v6_of_fields (fields (split_on b':' zone.before))

v6_address : Option ℕ → Option Address
v6_address none = none
v6_address (some n) = some (v6 n)

-- `ipaddress.ip_address(s)`; `none` is the `ValueError`.
unfoldable pub ip_address : Text → Option Address
unfolding v6_address parse_v4 parse_v6
ip_address s = elim (parse_v4 s) [ some n ↦ some (v4 n) | none ↦ v6_address (parse_v6 s) ]

-- `addr.ipv4_mapped` of a version 6 address.
unfoldable pub ipv4_mapped : ℕ → Option ℕ
ipv4_mapped n = if eqb (n / 2 ^ 32) 0xffff then some (n % 2 ^ 32) else none

-- A network: the address with its low `host_bits` bits 0.
pub record Network : Type 0 where
  pub base : ℕ
  pub host_bits : ℕ

-- `addr & netmask == network_address`
abbrev pub in_network : ℕ → Network → Bool
in_network n net = eqb (n / 2 ^ net.host_bits * 2 ^ net.host_bits) net.base
