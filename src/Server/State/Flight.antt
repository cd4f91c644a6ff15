-- ===== src/Server/State/Flight.antt =====
-- Lists of plays in flight: what an update of each of them, or the removal of one, keeps.
use mathlib.Core.List.{Memᴰ}
use mathlib.Core.Path.{subst}
use alex_claw.Prelude.{
  ℕ, suc, ◌<◌, ◌≡◌, ◌≢◌, refl, ap, sym, ◌∙◌, true, ◌&&◌, some, List, [], ◌∷◌, map, All, All-map,
  eqb, eqb_iff, arith, if◌then◌else◌, Bool-cases, inl, inr,
}
use alex_claw.Text.{Text}
use alex_claw.Server.State.{Play, is_live, end_play, mark_cancelled, find_done, without}

abbrev pub IsDone : Play → Type 0
IsDone p = p.done ≡ true

-- No two plays have the same task.
abbrev pub Apart : List Play → Type 0
Apart [] = Unit
Apart (p ∷ ps) = All (λ q. q.task ≢ p.task) ps × Apart ps

-- An update that keeps a play's task and id, and that it is done.
pub record IsTame (f : Play → Play) : Type 0 where
  pub same_task : (p : Play) → (f p).task ≡ p.task
  pub same_id : (p : Play) → (f p).play_id ≡ p.play_id
  pub still_done : (p : Play) → IsDone p → IsDone (f p)

pub end_play-IsTame : (t : ℕ) → IsTame (end_play t)
end_play-IsTame t = record {
  same_task = λ p. ground arith;
  same_id = λ p. ground arith;
  still_done = λ p h. ground arith;
}

abbrev pub mark : ℕ → Play → Play
mark t p = if is_live t p then record p { cancelling = true } else p

pub mark-IsTame : (t : ℕ) → IsTame (mark t)
mark-IsTame t = record {
  same_task = λ p. ground arith;
  same_id = λ p. ground arith;
  still_done = λ p h. ground arith;
}

pub mark_cancelled-map : (t : ℕ) (ps : List Play) → mark_cancelled (some t) ps ≡ map (mark t) ps
unfolding mark_cancelled
mark_cancelled-map t [] = refl
mark_cancelled-map t (p ∷ ps) = ap (λ l. mark t p ∷ l) (mark_cancelled-map t ps)

module _ (f : Play → Play) (tame : IsTame f) where
  pub map-IsDone : (ps : List Play) → All IsDone ps → All IsDone (map f ps)
  map-IsDone [] h = tt
  map-IsDone (p ∷ ps) (d, h) = (tame.still_done p d, map-IsDone ps h)

  pub map-tasks :
      (P : ℕ → Type 0) (ps : List Play) → All (λ p. P p.task) ps → All (λ p. P p.task) (map f ps)
  map-tasks P [] h = tt
  map-tasks P (p ∷ ps) (d, h) = (subst P (sym (tame.same_task p)) d, map-tasks P ps h)

  pub map-ids :
      (P : Text → Type 0) (ps : List Play)
      → All (λ p. P p.play_id) ps
      → All (λ p. P p.play_id) (map f ps)
  map-ids P [] h = tt
  map-ids P (p ∷ ps) (d, h) = (subst P (sym (tame.same_id p)) d, map-ids P ps h)

  pub map-Apart : (ps : List Play) → Apart ps → Apart (map f ps)
  map-Apart [] h = tt
  map-Apart (p ∷ ps) (d, h) =
      (rw (tame.same_task p) (map-tasks (λ t. t ≢ p.task) ps d), map-Apart ps h)

pub map-Memᴰ : (f : Play → Play) (q : Play) (ps : List Play) → Memᴰ q ps → Memᴰ (f q) (map f ps)
map-Memᴰ f q [] m = elim m [ ]
map-Memᴰ f q (p ∷ ps) (Memᴰ.head e) = Memᴰ.head (ap f e)
map-Memᴰ f q (p ∷ ps) (Memᴰ.tail m) = Memᴰ.tail (map-Memᴰ f q ps m)

pub All-Memᴰ : (P : Play → Type 0) (q : Play) (ps : List Play) → All P ps → Memᴰ q ps → P q
All-Memᴰ P q [] h m = elim m [ ]
All-Memᴰ P q (p ∷ ps) (d, h) (Memᴰ.head e) = subst P (sym e) d
All-Memᴰ P q (p ∷ ps) (d, h) (Memᴰ.tail m) = All-Memᴰ P q ps h m

pub same_task-Memᴰ :
    (q r : Play) (ps : List Play) → Apart ps → Memᴰ q ps → Memᴰ r ps → q.task ≡ r.task → q ≡ r
same_task-Memᴰ q r [] h m k e = elim m [ ]
same_task-Memᴰ q r (p ∷ ps) (d, h) (Memᴰ.head x) (Memᴰ.head y) e = x ∙ sym y
same_task-Memᴰ q r (p ∷ ps) (d, h) (Memᴰ.head x) (Memᴰ.tail k) e =
    absurd (All-Memᴰ (λ s. s.task ≢ p.task) r ps d k (sym e ∙ ap Play.task x))
same_task-Memᴰ q r (p ∷ ps) (d, h) (Memᴰ.tail m) (Memᴰ.head y) e =
    absurd (All-Memᴰ (λ s. s.task ≢ p.task) q ps d m (e ∙ ap Play.task y))
same_task-Memᴰ q r (p ∷ ps) (d, h) (Memᴰ.tail m) (Memᴰ.tail k) e = same_task-Memᴰ q r ps h m k e

pub without-All : (P : Play → Type 0) (t : ℕ) (ps : List Play) → All P ps → All P (without t ps)
without-All P t [] h = tt
without-All P t (p ∷ ps) (d, h) = elim (Bool-cases (eqb p.task t)) [
  | inl gone ↦ rw gone (without-All P t ps h)
  | inr kept ↦ rw kept (d, without-All P t ps h)
]

pub without-Apart : (t : ℕ) (ps : List Play) → Apart ps → Apart (without t ps)
without-Apart t [] h = tt
without-Apart t (p ∷ ps) (d, h) = elim (Bool-cases (eqb p.task t)) [
  | inl gone ↦ rw gone (without-Apart t ps h)
  | inr kept ↦ rw kept (without-All (λ q. q.task ≢ p.task) t ps d, without-Apart t ps h)
]

pub without-Memᴰ :
    (q : Play) (t : ℕ) (ps : List Play) → q.task ≢ t → Memᴰ q ps → Memᴰ q (without t ps)
without-Memᴰ q t [] n m = elim m [ ]
without-Memᴰ q t (p ∷ ps) n (Memᴰ.head e) = elim (Bool-cases (eqb p.task t)) [
  | inl gone ↦ absurd (n (ap Play.task e ∙ (eqb_iff p.task t).0 gone))
  | inr kept ↦ rw kept (Memᴰ.head e)
]
without-Memᴰ q t (p ∷ ps) n (Memᴰ.tail m) = elim (Bool-cases (eqb p.task t)) [
  | inl gone ↦ rw gone (without-Memᴰ q t ps n m)
  | inr kept ↦ rw kept (Memᴰ.tail (without-Memᴰ q t ps n m))
]

-- The play that is found is one of the list, of this task, and done.
pub find_done_lem :
    (t : ℕ) (ps : List Play) (r : Play)
    → find_done t ps ≡ some r
    → Memᴰ r ps × (r.task ≡ t) × IsDone r
unfolding find_done
find_done_lem t [] r h = absurd (ground arith)
find_done_lem t (p ∷ ps) r h = elim (Bool-cases (eqb p.task t && p.done)) [
  | inl found ↦ let e : p ≡ r = ground arith in (Memᴰ.head (sym e), ground arith, ground arith)
  | inr other ↦
      let (m, same, done) = find_done_lem t ps r (ground arith) in (Memᴰ.tail m, same, done)
]

-- The tasks of these plays are different numbers below `n`.
pub record IsNumbered (n : ℕ) (ps : List Play) : Type 0 where
  pub apart : Apart ps
  pub below : All (λ q. q.task < n) ps

pub map-IsNumbered :
    (f : Play → Play) (tame : IsTame f) (n : ℕ) (ps : List Play)
    → IsNumbered n ps
    → IsNumbered n (map f ps)
map-IsNumbered f tame n ps h = record {
  apart = map-Apart f tame ps h.apart;
  below = map-tasks f tame (λ t. t < n) ps h.below;
}

pub without-IsNumbered : (t n : ℕ) (ps : List Play) → IsNumbered n ps → IsNumbered n (without t ps)
without-IsNumbered t n ps h = record {
  apart = without-Apart t ps h.apart;
  below = without-All (λ q. q.task < n) t ps h.below;
}

-- A play with the next number.
pub IsNumbered-cons :
    (p : Play) (ps : List Play) → IsNumbered p.task ps → IsNumbered (suc p.task) (p ∷ ps)
IsNumbered-cons p ps h = record {
  apart = (
    All-map (λ q. q.task < p.task) (λ q. q.task ≢ p.task) (λ q l. omega arith) ps h.below,
    h.apart,
  );
  below = (
    omega arith,
    All-map (λ q. q.task < p.task) (λ q. q.task < suc p.task) (λ q l. omega arith) ps h.below,
  );
}
