-- ===== src/Egress/Wire/Authority.antt =====
-- The target of a CONNECT: what `_split_authority` accepts.
use alex_claw.Prelude.{
  ℕ, ◌<◌, ◌≤◌, ◌≡◌, ◌≢◌, refl, false, some, [], ◌∷◌, ◌++◌, is_empty, All-map, arith,
}
use alex_claw.Text.{Text, strip_where}
use alex_claw.Text.Laws.{Lacks, Avoids, rpartition-append, strip_where_avoiding, strip_where_ends}
use alex_claw.Text.Number.{decimal, int_of_digits}
use alex_claw.Text.Number.Laws.{
  IsDigits-decimal, int_of_digits-decimal, length-decimal, is_digit-decimal,
}
use alex_claw.Egress.Run.{ok}
use alex_claw.Egress.Wire.{split_authority, is_bracket}

-- A host that is not empty and has no bracket.
abbrev pub IsPlainHost : Text → Type 0
IsPlainHost host = (host ≢ []) × Avoids is_bracket host

decimal-Lacks_colon : (p : ℕ) → Lacks b':' (decimal p)
decimal-Lacks_colon p =
    All-map (λ c. (b'0' ≤ c) × (c ≤ b'9')) (λ c. c ≢ b':') (λ c h e. omega arith) (decimal p)
      (IsDigits-decimal p)

nonempty : (s : Text) → s ≢ [] → is_empty s ≡ false
nonempty [] h = absurd (h refl)
nonempty (c ∷ s) h = refl

int_of_port : (p : ℕ) → p < 65536 → int_of_digits (decimal p) ≡ some p
int_of_port p h = int_of_digits-decimal p (omega (arith, length-decimal p 4 (omega arith)))

split_authority_stripped :
    (before host : Text) (p : ℕ)
    → strip_where is_bracket before ≡ host
    → host ≢ []
    → 0 < p
    → p < 65536
    → split_authority (before ++ b':' ∷ decimal p) ≡ ok (some (host, p))
unfolding split_authority
split_authority_stripped before host p s n low high =
    rw
      (
        rpartition-append b':' before (decimal p) (decimal-Lacks_colon p),
        s,
        nonempty host n,
        is_digit-decimal p,
        int_of_port p high,
      )
      (ground arith)

split_authority_plain :
    (host : Text) (p : ℕ)
    → IsPlainHost host
    → 0 < p
    → p < 65536
    → split_authority (host ++ b':' ∷ decimal p) ≡ ok (some (host, p))
split_authority_plain host p (n, h) =
    split_authority_stripped host host p (strip_where_avoiding is_bracket host h) n

split_authority_bracketed :
    (host : Text) (p : ℕ)
    → IsPlainHost host
    → 0 < p
    → p < 65536
    → split_authority ((b'[' ∷ (host ++ b']' ∷ [])) ++ b':' ∷ decimal p) ≡ ok (some (host, p))
split_authority_bracketed host p (n, h) =
    split_authority_stripped (b'[' ∷ (host ++ b']' ∷ [])) host p
      (strip_where_ends is_bracket b'[' b']' host refl refl n h) n

-- "host:port" and "[host]:port" are both split into the host, without brackets, and the port, for a
-- host that is not empty and has no bracket and a port from 1 to 65535.
pub split_authority-decimal :
    (host : Text) (p : ℕ)
    → IsPlainHost host
    → 0 < p
    → p < 65536
    → (split_authority (host ++ b':' ∷ decimal p) ≡ ok (some (host, p)))
      × (split_authority ((b'[' ∷ (host ++ b']' ∷ [])) ++ b':' ∷ decimal p) ≡ ok (some (host, p)))
split_authority-decimal host p plain low high =
    (split_authority_plain host p plain low high, split_authority_bracketed host p plain low high)

-- An accepted target has a host, and a port from 1 to 65535.
pub split_authority_bounds :
    (s host : Text) (p : ℕ)
    → split_authority s ≡ ok (some (host, p))
    → (host ≢ []) × (0 < p) × (p < 65536)
unfolding split_authority
split_authority_bounds s host p h = ground arith
