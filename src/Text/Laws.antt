-- ===== src/Text/Laws.antt =====
-- Splitting and stripping texts.
use mathlib.Core.List.{reverse-cons, reverse-reverse, reverse-append}
use alex_claw.Prelude.{
  ℕ, ◌≡◌, ◌≢◌, refl, Bool, true, false, [], ◌∷◌, ◌++◌, reverse, All, All-append, arith,
}
use alex_claw.Text.{Text, partition, rpartition, drop_while, strip_where}

-- `c` is not in the text.
abbrev pub Lacks : ℕ → Text → Type 0
Lacks c = All (λ x. x ≢ c)

-- No character of the text satisfies `p`.
abbrev pub Avoids : (ℕ → Bool) → Text → Type 0
Avoids p = All (λ x. p x ≡ false)

pub All-reverse {ℓ} : (P : ℕ → Type ℓ) (s : Text) → All P s → All P (reverse s)
All-reverse P [] h = tt
All-reverse P (x ∷ s) (q, h) =
    rw reverse-cons (All-append P (reverse s) (x ∷ []) (All-reverse P s h) (q, tt))

pub partition_lacking :
    (c : ℕ) (s : Text)
    → Lacks c s
    → partition c s ≡ record { before = s; found = false; after = [] }
unfolding partition
partition_lacking c [] h = refl
partition_lacking c (x ∷ s) (q, h) = rw (partition_lacking c s h) (ground arith)

pub partition-append :
    (c : ℕ) (s t : Text)
    → Lacks c s
    → partition c (s ++ c ∷ t) ≡ record { before = s; found = true; after = t }
unfolding partition
partition-append c [] t h = ground arith
partition-append c (x ∷ s) t (q, h) = rw (partition-append c s t h) (ground arith)

pub rpartition_lacking :
    (c : ℕ) (s : Text)
    → Lacks c s
    → rpartition c s ≡ record { before = []; found = false; after = s }
unfolding rpartition
rpartition_lacking c [] h = refl
rpartition_lacking c (x ∷ s) (q, h) = rw (rpartition_lacking c s h) (ground arith)

-- The last `c` is the one with none behind it.
pub rpartition-append :
    (c : ℕ) (s t : Text)
    → Lacks c t
    → rpartition c (s ++ c ∷ t) ≡ record { before = s; found = true; after = t }
unfolding rpartition
rpartition-append c [] t h = rw (rpartition_lacking c t h) (ground arith)
rpartition-append c (x ∷ s) t h = rw (rpartition-append c s t h) refl

pub drop_while_avoiding : (p : ℕ → Bool) (s : Text) → Avoids p s → drop_while p s ≡ s
unfolding drop_while
drop_while_avoiding p [] h = refl
drop_while_avoiding p (x ∷ s) (q, h) = rw q refl

-- Nothing is stripped from a text with no such characters.
pub strip_where_avoiding : (p : ℕ → Bool) (s : Text) → Avoids p s → strip_where p s ≡ s
unfolding strip_where
strip_where_avoiding p s h =
    rw (drop_while_avoiding p s h, drop_while_avoiding p (reverse s) (All-reverse _ s h))
      (reverse-reverse s)

reverse-concat : (s : Text) (b : ℕ) → reverse (s ++ b ∷ []) ≡ b ∷ reverse s
reverse-concat s b = reverse-append s (b ∷ [])

drop_while_first :
    (p : ℕ → Bool) (s t : Text) → s ≢ [] → Avoids p s → drop_while p (s ++ t) ≡ s ++ t
unfolding drop_while
drop_while_first p [] t n h = absurd (n refl)
drop_while_first p (x ∷ s) t n (q, h) = rw q refl

-- One such character at each end is stripped.
pub strip_where_ends :
    (p : ℕ → Bool) (a b : ℕ) (s : Text)
    → p a ≡ true
    → p b ≡ true
    → s ≢ []
    → Avoids p s
    → strip_where p (a ∷ (s ++ b ∷ [])) ≡ s
unfolding strip_where drop_while
strip_where_ends p a b s ha hb n h =
    rw (strip_first, drop_while_first p s (b ∷ []) n h, reverse-concat s b, strip_last)
      (reverse-reverse s)
  where
    strip_first : drop_while p (a ∷ (s ++ b ∷ [])) ≡ drop_while p (s ++ b ∷ [])
    strip_first = rw ha refl

    strip_last : drop_while p (b ∷ reverse s) ≡ reverse s
    strip_last = rw hb (drop_while_avoiding p (reverse s) (All-reverse _ s h))
