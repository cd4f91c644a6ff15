-- ===== src/Egress/Wire/Heads.antt =====
-- Heads that the proxy writes, as their reader sees them.
use mathlib.Core.List.{reverse-cons, append-nil, append_assoc}
use alex_claw.Prelude.{
  ℕ, ◌≤◌, ◌≡◌, ◌≢◌, refl, false, Option, none, some, List, [], ◌∷◌, ◌++◌, reverse, length, All,
  arith, ap, ◌∙◌, sym,
}
use alex_claw.Text.{Text, join}
use alex_claw.Text.Laws.{Lacks}
use alex_claw.Egress.Run.{ok}
use alex_claw.Egress.Wire.{
  crlf, max_head, starts_end, cons_head, cut_head, read_cut, read_head, lines, lines_from, head_of,
}

regroup : (cur : Text) (c : ℕ) (s : Text) → reverse (c ∷ cur) ++ s ≡ reverse cur ++ c ∷ s
regroup cur c s = rw reverse-cons (append_assoc (reverse cur) (c ∷ []) s)

-- A line that is not empty and has no carriage return.
abbrev pub IsLine : Text → Type 0
IsLine s = (s ≢ []) × Lacks 13 s

lines_from_last : (cur s : Text) → Lacks 13 s → lines_from cur s ≡ (reverse cur ++ s) ∷ []
unfolding lines_from
lines_from_last cur [] h = ap (λ t. t ∷ []) (sym (append-nil (reverse cur)))
lines_from_last cur (x ∷ []) h = ap (λ t. t ∷ []) (sym (append-nil _) ∙ regroup cur x [])
lines_from_last cur (x ∷ y ∷ s) (q, h) =
    ground (arith, lines_from_last (x ∷ cur) (y ∷ s) h, regroup cur x (y ∷ s))

lines_from_line :
    (cur s t : Text)
    → Lacks 13 s
    → lines_from cur (s ++ (crlf ++ t)) ≡ (reverse cur ++ s) ∷ lines_from [] t
unfolding lines_from
lines_from_line cur [] t h = ap (λ l. l ∷ lines_from [] t) (sym (append-nil (reverse cur)))
lines_from_line cur (x ∷ []) t (q, h) =
    ground
      (arith, lines_from_line (x ∷ cur) [] t h, append-nil (reverse (x ∷ cur)), regroup cur x [])
lines_from_line cur (x ∷ y ∷ s) t (q, h) =
    ground (arith, lines_from_line (x ∷ cur) (y ∷ s) t h, regroup cur x (y ∷ s))

lines-join : (ls : List Text) → ls ≢ [] → All IsLine ls → lines (join crlf ls) ≡ ls
unfolding lines join
lines-join [] n h = absurd (n refl)
lines-join (s ∷ []) n (q, h) = lines_from_last [] s q.1
lines-join (s ∷ t ∷ ls) n (q, h) =
    lines_from_line [] s (join crlf (t ∷ ls)) q.1
    ∙ ap (λ l. s ∷ l) (lines-join (t ∷ ls) (λ e. cc) h)

starts_end_lacking : (x : ℕ) (s : Text) → x ≢ 13 → starts_end (x ∷ s) ≡ false
starts_end_lacking x [] h = refl
starts_end_lacking x (a ∷ []) h = refl
starts_end_lacking x (a ∷ b ∷ []) h = refl
starts_end_lacking x (a ∷ b ∷ c ∷ s) h = ground arith

-- A head, put behind a text.
abbrev behind : Text → Option (Text × Text) → Option (Text × Text)
behind s none = none
behind s (some (h, r)) = some (s ++ h, r)

cons_head-behind :
    (x : ℕ) (s : Text) (o : Option (Text × Text)) → cons_head x (behind s o) ≡ behind (x ∷ s) o
cons_head-behind x s none = refl
cons_head-behind x s (some (h, r)) = refl

behind_nothing : (o : Option (Text × Text)) → o ≡ behind [] o
behind_nothing none = refl
behind_nothing (some (h, r)) = refl

cut_head_skip : (s t : Text) → Lacks 13 s → cut_head (s ++ t) ≡ behind s (cut_head t)
unfolding cut_head
cut_head_skip [] t h = behind_nothing (cut_head t)
cut_head_skip (x ∷ s) t (q, h) =
    rw (starts_end_lacking x (s ++ t) q, cut_head_skip s t h) (cons_head-behind x s (cut_head t))

starts_end_mid : (x : ℕ) (t : Text) → x ≢ 13 → starts_end (13 ∷ 10 ∷ x ∷ t) ≡ false
starts_end_mid x [] h = refl
starts_end_mid x (d ∷ t) h = ground arith

cut_head_between :
    (x : ℕ) (t : Text) → x ≢ 13 → cut_head (crlf ++ x ∷ t) ≡ behind crlf (cut_head (x ∷ t))
unfolding cut_head
cut_head_between x t h =
    rw (starts_end_mid x t h, starts_end_lacking 10 (x ∷ t) (λ e. omega arith))
      (ap (cons_head 13) (
          ap (cons_head 10) (behind_nothing (cut_head (x ∷ t)))
          ∙ cons_head-behind 10 [] (cut_head (x ∷ t)))
        ∙ cons_head-behind 13 (10 ∷ []) (cut_head (x ∷ t)))

join-starts : (x : ℕ) (s : Text) (ls : List Text) → (j : Text) × (join crlf ((x ∷ s) ∷ ls) ≡ x ∷ j)
unfolding join
join-starts x s [] = (s, refl)
join-starts x s (t ∷ ls) = (s ++ (crlf ++ join crlf (t ∷ ls)), refl)

cut_head_separator :
    (s : Text) (ls : List Text) (end : Text)
    → IsLine s
    → cut_head (crlf ++ (join crlf (s ∷ ls) ++ end))
      ≡ behind crlf (cut_head (join crlf (s ∷ ls) ++ end))
cut_head_separator [] ls end (n, h) = absurd (n refl)
cut_head_separator (x ∷ s) ls end (n, (q, h)) =
    let (j, e) = join-starts x s ls in rw e (cut_head_between x (j ++ end) q)

cut_head_blank : (rest : Text) → cut_head (crlf ++ (crlf ++ rest)) ≡ some ([], rest)
unfolding cut_head
cut_head_blank rest = refl

cut_head-join :
    (ls : List Text) (rest : Text)
    → ls ≢ []
    → All IsLine ls
    → cut_head (join crlf ls ++ (crlf ++ (crlf ++ rest))) ≡ some (join crlf ls, rest)
unfolding join
cut_head-join [] rest n h = absurd (n refl)
cut_head-join (s ∷ []) rest n ((m, q), h) =
    cut_head_skip s _ q
    ∙ ap (behind s) (cut_head_blank rest)
    ∙ ap (λ t. some (t, rest)) (append-nil s)
cut_head-join (s ∷ t ∷ ls) rest n ((m, q), (k, h)) =
    ap cut_head (append_assoc s (crlf ++ join crlf (t ∷ ls)) (crlf ++ (crlf ++ rest)))
    ∙ cut_head_skip s _ q
    ∙ ap (behind s) (
        cut_head_separator t ls (crlf ++ (crlf ++ rest)) k
        ∙ ap (behind crlf) (cut_head-join (t ∷ ls) rest (λ e. cc) (k, h)))

-- A head of lines that are not empty and have no carriage return, not longer than the limit: its
-- reader finds its end, leaves what comes behind it, and splits it into the same lines.
pub read_head-head_of :
    (ls : List Text) (rest : Text)
    → ls ≢ []
    → All IsLine ls
    → length (join crlf ls) ≤ max_head
    → (read_head (head_of ls ++ rest) ≡ ok (join crlf ls, rest)) × (lines (join crlf ls) ≡ ls)
unfolding read_head head_of read_cut
read_head-head_of ls rest n h short = (
  ap (λ t. read_cut (head_of ls ++ rest) (cut_head t))
        (append_assoc (join crlf ls) (crlf ++ crlf) rest)
      ∙ ap (read_cut (head_of ls ++ rest)) (cut_head-join ls rest n h)
      ∙ ground arith,
  lines-join ls n h,
)
