-- ===== src/Recorder/Results.antt =====
-- The results of a recording.
use mathlib.Core.List.{Perm}
use mathlib.Core.List.Perm
use alex_claw.Prelude.{
  ℕ, ◌+◌, ◌≡◌, refl, true, false, List, [], ◌∷◌, length, arith, if◌then◌else◌, ◌==◌, ==_iff,
  Bool-cases, inl, inr,
}
use alex_claw.Text.{Text, text_eq}
use alex_claw.Recorder.{CapturedAction, Recorder}
use alex_claw.Recorder.Stop.{
  text_less, insert, sort, count_in, summarise, build_results, async_stop,
}

insert-perm : (a : CapturedAction) (l : List CapturedAction) → Perm (insert a l) (a ∷ l)
unfolding insert
insert-perm a [] = Perm.refl (a ∷ [])
insert-perm a (b ∷ l) = elim (Bool-cases (text_less b.timestamp a.timestamp)) [
  | inl later ↦ rw later (Perm.trans (Perm.cons b (insert-perm a l)) (Perm.swap a b l))
  | inr here ↦ rw here (Perm.refl (a ∷ b ∷ l))
]

sort-perm : (l : List CapturedAction) → Perm (sort l) l
unfolding sort
sort-perm [] = Perm.refl []
sort-perm (a ∷ l) = Perm.trans (insert-perm a (sort l)) (Perm.cons a (sort-perm l))

text_less_asym : (a b : Text) → text_less a b ≡ true → text_less b a ≡ false
unfolding text_less
text_less_asym [] [] h = refl
text_less_asym [] (y ∷ b) h = refl
text_less_asym (x ∷ a) [] h = cc
text_less_asym (x ∷ a) (y ∷ b) h = ground (arith, text_less_asym a b)

-- No action stands before an earlier one.
abbrev pub IsSorted : List CapturedAction → Type 0
IsSorted [] = Unit
IsSorted (a ∷ []) = Unit
IsSorted (a ∷ b ∷ l) = (text_less b.timestamp a.timestamp ≡ false) × IsSorted (b ∷ l)

insert-IsSorted :
    (a : CapturedAction) (l : List CapturedAction) → IsSorted l → IsSorted (insert a l)
unfolding insert
insert-IsSorted a [] h = tt
insert-IsSorted a (b ∷ []) h = ground (arith, text_less_asym b.timestamp a.timestamp)
insert-IsSorted a (b ∷ c ∷ l) (q, h) =
    ground (arith, text_less_asym b.timestamp a.timestamp, insert-IsSorted a (c ∷ l) h)

sort-IsSorted : (l : List CapturedAction) → IsSorted (sort l)
unfolding sort
sort-IsSorted [] = tt
sort-IsSorted (a ∷ l) = insert-IsSorted a (sort l) (sort-IsSorted l)

-- How many of the actions are of this kind.
abbrev pub count_kind : Text → List CapturedAction → ℕ
count_kind k [] = 0
count_kind k (a ∷ l) = (if a.action_type == k then 1 else 0) + count_kind k l

-- The number under a key of the summary, 0 without one.
abbrev pub number_of : Text → List (Text × ℕ) → ℕ
number_of k [] = 0
number_of k ((j, n) ∷ d) = if j == k then n else number_of k d

number_of-count_in :
    (k j : Text) (d : List (Text × ℕ))
    → number_of k (count_in j d) ≡ (if j == k then 1 else 0) + number_of k d
unfolding count_in
number_of-count_in k j [] = ground arith
number_of-count_in k j ((i, n) ∷ d) =
    ground (arith, ==_iff i j, ==_iff i k, ==_iff j k, number_of-count_in k j d)

number_of-summarise :
    (k : Text) (d : List (Text × ℕ)) (l : List CapturedAction)
    → number_of k (summarise d l) ≡ number_of k d + count_kind k l
unfolding summarise
number_of-summarise k d [] = omega arith
number_of-summarise k d (a ∷ l) = omega (
  arith,
  number_of-summarise k (count_in a.action_type d) l,
  number_of-count_in k a.action_type d,
)

-- Stopping returns the captured actions in the order of their timestamps, none lost and none added,
-- and the summary counts each kind of action as often as it was captured.
pub async_stop_lem :
    (r : Recorder)
    → Perm (async_stop r).actions r.captured
      × IsSorted (async_stop r).actions
      × ((async_stop r).summary.captured_actions ≡ length (async_stop r).actions)
      × ((k : Text)
          → number_of k (async_stop r).summary.action_summary ≡ count_kind k (async_stop r).actions)
unfolding async_stop build_results
async_stop_lem r = (
  sort-perm r.captured,
  sort-IsSorted r.captured,
  refl,
  λ k. omega (arith, number_of-summarise k [] (sort r.captured)),
)
