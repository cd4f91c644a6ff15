-- ===== src/Text/Number/Laws.antt =====
-- Printing a number and reading it back.
use native.Mathlib.Nat.{pow-suc}
use alex_claw.Prelude.{
  ℕ, zero, suc, ◌+◌, ◌*◌, ◌/◌, ◌%◌, ◌^◌, ◌<◌, ◌≤◌, ◌≡◌, ◌≢◌, refl, ap, ◌∙◌, true, false, some, [],
  ◌∷◌, ltb, arith, all, All, length, is_empty, Bool-cases, inl, inr,
}
use alex_claw.Text.{Text}
use alex_claw.Text.Number.{
  is_ascii_digit, is_digit, is_digit_char, value, print_from, decimal, int_of_digits,
}

value-print_from :
    (fuel n : ℕ) (acc : Text) → n < fuel → value 0 (print_from fuel n acc) ≡ value n acc
unfolding print_from value
value-print_from zero n acc h = elim h [ ]
value-print_from (suc fuel) n acc h = elim (Bool-cases (ltb n 10)) [
  | inl small ↦ rw small (ap (λ k. value k acc) (omega arith))
  | inr big ↦
      rw big (value-print_from fuel (n / 10) _ (ground arith) ∙ ap (λ k. value k acc) (omega arith))
]

pub value-decimal : (n : ℕ) → value 0 (decimal n) ≡ n
unfolding decimal value
value-decimal n = value-print_from (suc n) n [] (omega arith)

abbrev pub IsDigits : Text → Type 0
IsDigits = All (λ c. (b'0' ≤ c) × (c ≤ b'9'))

IsDigits-print_from :
    (fuel n : ℕ) (acc : Text) → n < fuel → IsDigits acc → IsDigits (print_from fuel n acc)
unfolding print_from
IsDigits-print_from zero n acc h k = elim h [ ]
IsDigits-print_from (suc fuel) n acc h k = elim (Bool-cases (ltb n 10)) [
  | inl small ↦ rw small (ground arith, k)
  | inr big ↦ rw big (IsDigits-print_from fuel (n / 10) _ (ground arith) (omega arith, k))
]

pub IsDigits-decimal : (n : ℕ) → IsDigits (decimal n)
unfolding decimal
IsDigits-decimal n = IsDigits-print_from (suc n) n [] (omega arith) tt

length-print_from :
    (fuel n k : ℕ) (acc : Text)
    → n < 10 ^ suc k
    → length (print_from fuel n acc) ≤ suc k + length acc
unfolding print_from
length-print_from zero n k acc h = omega arith
length-print_from (suc fuel) n zero acc h = ground arith
length-print_from (suc fuel) n (suc k) acc h =
    let e : 10 ^ suc (suc k) ≡ 10 ^ suc k * 10 = pow-suc 10 (suc k) in
    let rest = length-print_from fuel (n / 10) k ((48 + n % 10) ∷ acc) in
    elim (Bool-cases (ltb n 10)) [
      | inl small ↦ rw small (omega arith)
      | inr big ↦ rw big (omega (arith, e, rest (omega (arith, e))))
    ]

digits_all : (s : Text) → IsDigits s → all is_ascii_digit s ≡ true
digits_all [] h = refl
digits_all (c ∷ s) (q, h) = ground (arith, digits_all s h)

print_from-ne-nil : (fuel n c : ℕ) (acc : Text) → print_from fuel n (c ∷ acc) ≢ []
unfolding print_from
print_from-ne-nil zero n c acc = cc
print_from-ne-nil (suc fuel) n c acc =
    ground (arith, print_from-ne-nil fuel (n / 10) (48 + n % 10) (c ∷ acc))

decimal_nonempty : (n : ℕ) → is_empty (decimal n) ≡ false
unfolding decimal print_from
decimal_nonempty n = ground (arith, print_from-ne-nil n (n / 10) (48 + n % 10) [])

-- `int` reads back what `str` prints, for a number of at most 4300 digits.
pub int_of_digits-decimal : (n : ℕ) → length (decimal n) ≤ 4300 → int_of_digits (decimal n) ≡ some n
unfolding int_of_digits
int_of_digits-decimal n h =
    rw (decimal_nonempty n, digits_all _ (IsDigits-decimal n), value-decimal n) (ground arith)

pub length-decimal : (n k : ℕ) → n < 10 ^ suc k → length (decimal n) ≤ suc k
unfolding decimal
length-decimal n k h = omega (arith, length-print_from (suc n) n k [] h)

digit_chars : (s : Text) → IsDigits s → all is_digit_char s ≡ true
digit_chars [] h = refl
digit_chars (c ∷ s) (q, h) = ground (arith, digit_chars s h)

pub is_digit-decimal : (n : ℕ) → is_digit (decimal n) ≡ true
is_digit-decimal n = rw (decimal_nonempty n, digit_chars _ (IsDigits-decimal n)) refl
