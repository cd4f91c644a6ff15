-- ===== src/Desktop/Session/Ends.antt =====
-- What every session of the desktop recorder does before it ends.
use alex_claw.Prelude.{
  ℕ, zero, suc, ◌+◌, ◌≤◌, ◌<◌, ◌≡◌, ◌≢◌, ◌↔◌, ◌⊎◌, ◌∙◌, ap, refl, Bool, true, false, [], ◌∷◌, ◌++◌,
  any, keep, arith, inl, inr, ltb, Bool-cases,
}
use alex_claw.Desktop.Session.{
  tries_port, sleeps, Attempt, answers, refuses, breaks_attempt, breaks_sleep, Course, Event,
  terminates, removes_profile, saves, closing, behind_enter, reading, observing, waiting, run,
}

abbrev pub is_saves : Event → Bool
is_saves saves = true
is_saves _ = false

abbrev pub is_removal : Event → Bool
is_removal removes_profile = true
is_removal _ = false

abbrev pub is_termination : Event → Bool
is_termination terminates = true
is_termination _ = false

-- What is done once Chrome answers: the end is that of `closing`.
observed :
    (c : Course)
    → (any is_saves ((observing c).0 ++ closing c) ≡ true)
      × (keep is_removal ((observing c).0 ++ closing c) ≡ removes_profile ∷ [])
      × (keep is_termination ((observing c).0 ++ closing c) ≡ terminates ∷ [])
unfolding observing reading behind_enter closing
observed c = ground arith

-- All attempts from the first to before the last are refused, and slept over.
abbrev Refused : Course → ℕ → ℕ → Type 0
Refused c i k = (j : ℕ) → i ≤ j → j < k → c.attempts j ≡ refuses

-- An attempt at which the wait for Chrome is over in this way.
abbrev Over : (Attempt → Bool) → Course → ℕ → ℕ → Type 0
Over ends c i left =
    (k : ℕ) × (i ≤ k) × (k < i + left) × Refused c i k × (ends (c.attempts k) ≡ true)

abbrev pub is_answer : Attempt → Bool
is_answer answers = true
is_answer _ = false

abbrev pub is_break : Attempt → Bool
is_break breaks_attempt = true
is_break breaks_sleep = true
is_break _ = false

-- The port answers at one of the thirty attempts, and nothing interrupts an attempt before.
abbrev pub Answered : Course → Type 0
Answered c = Over is_answer c 0 30

-- The session is interrupted while it waits for Chrome.
abbrev pub Interrupted : Course → Type 0
Interrupted c = Over is_break c 0 30

-- At its first attempt, or at none before the next ones.
Over-here :
    (ends : Attempt → Bool) (c : Course) (left i : ℕ)
    → ends (c.attempts i) ≡ true
    → Over ends c i (suc left)
Over-here ends c left i e = (i, omega arith, omega arith, λ j low high. absurd (omega arith), e)

Refused-step : (c : Course) (i k : ℕ) → c.attempts i ≡ refuses → Refused c (suc i) k → Refused c i k
Refused-step c i k e h j low high = elim (Bool-cases (ltb i j)) [
  | inl later ↦ h j (ground arith) high
  | inr same ↦ (let here : j ≡ i = ground arith in ap c.attempts here ∙ e)
]

Over-later :
    (ends : Attempt → Bool) (c : Course) (left i : ℕ)
    → c.attempts i ≡ refuses
    → Over ends c (suc i) left
    → Over ends c i (suc left)
Over-later ends c left i e (k, low, high, before, at) =
    (k, omega arith, omega arith, Refused-step c i k e before, at)

-- An attempt that is not refused is the last one.
Over-first :
    (ends : Attempt → Bool) (c : Course) (left i : ℕ)
    → c.attempts i ≢ refuses
    → Over ends c i (suc left)
    → ends (c.attempts i) ≡ true
Over-first ends c left i other (k, low, high, before, at) = elim (Bool-cases (ltb i k)) [
  | inl later ↦ absurd (other (before i (omega arith) (ground arith)))
  | inr same ↦ (let here : i ≡ k = ground arith in ap (λ j. ends (c.attempts j)) here ∙ at)
]

Over-other :
    (ends : Attempt → Bool) (c : Course) (left i : ℕ)
    → c.attempts i ≢ refuses
    → ends (c.attempts i) ≡ false
    → ¬ Over ends c i (suc left)
Over-other ends c left i other dull o = let at = Over-first ends c left i other o in absurd (cc)

Over-rest :
    (ends : Attempt → Bool) (c : Course) (left i : ℕ)
    → ends refuses ≡ false
    → c.attempts i ≡ refuses
    → Over ends c i (suc left)
    → Over ends c (suc i) left
Over-rest ends c left i dull e (k, low, high, before, at) = elim (Bool-cases (ltb i k)) [
  | inl later ↦ (k, ground arith, omega arith, λ j le lt. before j (omega arith) lt, at)
  | inr same ↦
      (let here : i ≡ k = ground arith in
        absurd (cc (dull, e, at, ap (λ j. ends (c.attempts j)) here)))
]

no_attempts : (ends : Attempt → Bool) (c : Course) (i : ℕ) → ¬ Over ends c i zero
no_attempts ends c i (k, low, high, before, at) = absurd (omega arith)

-- What a session comes to, from one of its attempts on.
record Outcome (c : Course) (left i : ℕ) : Type 0 where
  saved : (any is_saves (waiting c left i).0 ≡ true) ↔ Over is_answer c i left
  lost :
      (Over is_break c i left
        × (keep is_termination (waiting c left i).0 ≡ [])
        × (keep is_removal (waiting c left i).0 ≡ []))
      ⊎ (¬ Over is_break c i left
          × (keep is_termination (waiting c left i).0 ≡ terminates ∷ [])
          × (keep is_removal (waiting c left i).0 ≡ removes_profile ∷ []))

waiting_refused :
    (c : Course) (left i : ℕ)
    → c.attempts i ≡ refuses
    → waiting c (suc left) i
      ≡ (tries_port ∷ sleeps ∷ (waiting c left (suc i)).0, (waiting c left (suc i)).1)
unfolding waiting
waiting_refused c left i e = rw (e, waiting) refl

waiting_answered :
    (c : Course) (left i : ℕ)
    → c.attempts i ≡ answers
    → waiting c (suc left) i ≡ (tries_port ∷ ((observing c).0 ++ closing c), (observing c).1)
unfolding waiting
waiting_answered c left i e = rw (e, waiting) refl

gone_on :
    (c : Course) (left i : ℕ)
    → c.attempts i ≡ refuses
    → Outcome c left (suc i)
    → Outcome c (suc left) i
gone_on c left i e h = record {
  saved = rw (waiting_refused c left i e) (
    λ p. Over-later is_answer c left i e (h.saved.0 p),
    λ o. h.saved.1 (Over-rest is_answer c left i refl e o),
  );
  lost = rw (waiting_refused c left i e) (elim h.lost [
    | inl (o, ended, removed) ↦ inl (Over-later is_break c left i e o, ended, removed)
    | inr (never, ended, removed) ↦
        inr (λ o. never (Over-rest is_break c left i refl e o), ended, removed)
  ]);
}

reached : (c : Course) (left i : ℕ) → c.attempts i ≡ answers → Outcome c (suc left) i
reached c left i e =
    let (saved, removed, ended) = observed c in
    record {
      saved =
          rw (waiting_answered c left i e)
            (λ h. Over-here is_answer c left i (ap is_answer e), λ o. saved);
      lost =
          rw (waiting_answered c left i e)
            (inr (λ o. Over-other is_break c left i (cc) (ap is_break e) o, ended, removed));
    }

-- An interruption leaves no more than the attempts.
broken :
    (c : Course) (left i : ℕ)
    → is_break (c.attempts i) ≡ true
    → (any is_saves (waiting c (suc left) i).0 ≡ false)
      × (keep is_termination (waiting c (suc left) i).0 ≡ [])
      × (keep is_removal (waiting c (suc left) i).0 ≡ [])
unfolding waiting
broken c left i e = ground arith

cut_short :
    (c : Course) (left i : ℕ)
    → c.attempts i ≢ refuses
    → is_answer (c.attempts i) ≡ false
    → is_break (c.attempts i) ≡ true
    → Outcome c (suc left) i
cut_short c left i other dull e =
    let (unsaved, ended, removed) = broken c left i e in
    record {
      saved = (λ h. absurd (cc), λ o. absurd (Over-other is_answer c left i other dull o));
      lost = inl (Over-here is_break c left i e, ended, removed);
    }

come_from :
    (c : Course) (left i : ℕ) (a : Attempt)
    → c.attempts i ≡ a
    → Outcome c left (suc i)
    → Outcome c (suc left) i
come_from c left i refuses e h = gone_on c left i e h
come_from c left i answers e h = reached c left i e
come_from c left i breaks_attempt e h = cut_short c left i (cc) (ap is_answer e) (ap is_break e)
come_from c left i breaks_sleep e h = cut_short c left i (cc) (ap is_answer e) (ap is_break e)

come_to : (c : Course) (left i : ℕ) → Outcome c left i
unfolding waiting
come_to c zero i = record {
  saved = (λ h. absurd (ground arith), λ o. absurd (no_attempts is_answer c i o));
  lost = inr (no_attempts is_break c i, refl, refl);
}
come_to c (suc left) i = come_from c left i (c.attempts i) refl (come_to c left (suc i))

-- A session of the desktop recorder saves its recording exactly when the port of Chrome answers at
-- one of the thirty attempts, those before being refused and slept over. And either it is
-- interrupted in one of the attempts or the sleep behind it, and then Chrome is never told to end
-- and its profile is not removed; or it is not, and then Chrome is told to end once, and its
-- profile is removed once. The clean-up itself is not interrupted here.
pub run_saves_iff :
    (c : Course)
    → let events = (run c).0 in
      ((any is_saves events ≡ true) ↔ Answered c)
      × ((Interrupted c × (keep is_termination events ≡ []) × (keep is_removal events ≡ []))
          ⊎ (¬ Interrupted c
              × (keep is_termination events ≡ terminates ∷ [])
              × (keep is_removal events ≡ removes_profile ∷ [])))
unfolding run
run_saves_iff c = let h = come_to c 30 0 in (h.saved, h.lost)
