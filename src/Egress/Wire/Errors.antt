-- ===== src/Egress/Wire/Errors.antt =====
-- What reading a request can raise.
use alex_claw.Prelude.{◌≡◌, List, [], ◌∷◌, arith}
use alex_claw.Text.{Text}
use alex_claw.Text.Number.{ℤ}
use alex_claw.Egress.Run.{Exception, Result, raised}
use alex_claw.Egress.Run.Laws.{IsMild}
use alex_claw.Egress.Wire.{read_head, read_exactly, split_authority, content_length}

-- The exceptions that the result may be are mild.
abbrev pub Mildly : {A : Type 0} → Result A → Type 0
Mildly r = (x : Exception) → r ≡ raised x → IsMild x

pub read_head-Mildly : (s : Text) → Mildly (read_head s)
unfolding read_head
read_head-Mildly s = λ x e. ground arith

pub read_exactly-Mildly : (s : Text) (n : ℤ) → Mildly (read_exactly s n)
unfolding read_exactly
read_exactly-Mildly s n = λ x e. ground arith

pub split_authority-Mildly : (s : Text) → Mildly (split_authority s)
unfolding split_authority
split_authority-Mildly s = λ x e. ground arith

pub content_length-Mildly : (hs : List Text) → Mildly (content_length hs)
unfolding content_length
content_length-Mildly [] = λ x e. ground arith
content_length-Mildly (h ∷ hs) = λ x e. let rest = content_length-Mildly hs x in ground arith
