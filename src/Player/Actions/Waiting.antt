-- ===== src/Player/Actions/Waiting.antt =====
-- How long `_element` waits.
use alex_claw.Prelude.{
  if◌then◌else◌, ℕ, zero, suc, ◌+◌, ◌*◌, ◌/◌, ◌≤◌, ◌≡◌, ◌⊎◌, inl, inr, refl, [], ◌∷◌, ◌++◌, arith,
  leb,
}
use alex_claw.Text.{Text, codes}
use alex_claw.Player.Page.{
  Page, State, Action, gets, raise, queries, sleeps, ask, perform, pure, ◌>>=◌,
}
use alex_claw.Player.Actions.{runtime_error, find_element, element}

-- The event loop's clock never goes back, and `asyncio.sleep(0.25)` returns no earlier than a quarter
-- of a second later: of the two awaits of a round of the loop, one is such a sleep.
pub record IsClock (page : Page) : Type 0 where
  pub forward : (t : ℕ) → page.time t ≤ page.time (suc t)
  pub sleeps_on : (t : ℕ) → page.time t + 250 ≤ page.time (suc (suc t))

module _ (page : Page) (clock : IsClock page) (selector : Text) (deadline : ℕ) where
  -- The loop reaches its deadline within these rounds.
  abbrev Enough : ℕ → State → Type 0
  Enough fuel s = deadline ≤ page.time (suc s.clock) + 250 * fuel

  next_round : State → State
  next_round s = record s {
    clock = suc (suc s.clock);
    log = (s.log ++ (s.clock, queries selector) ∷ []) ++ (suc s.clock, sleeps 250) ∷ [];
  }

  -- A round of the loop, with what comes after its sleep.
  abbrev one_round : Action Unit → Action Unit
  one_round later = ask page (queries selector) page.present >>= λ found.
      if found
      then pure tt
      else (gets (λ s. page.time s.clock) >>= λ now.
          if leb deadline now
          then raise (runtime_error (codes "selector " ++ (selector ++ codes " not found")))
          else (perform page (sleeps 250) >>= λ _. later))

  one_round_same :
      (k l : Action Unit) (s : State)
      → (deadline ≤ page.time (suc s.clock)) ⊎ (k (next_round s) ≡ l (next_round s))
      → one_round k s ≡ one_round l s
  unfolding ask perform ◌>>=◌ next_round
  one_round_same k l s h = ground arith

  find_element_fuel :
      (f g : ℕ) (s : State)
      → Enough f s
      → Enough g s
      → find_element page (suc f) selector deadline s
        ≡ find_element page (suc g) selector deadline s
  unfolding find_element next_round
  find_element_fuel zero zero s h k = refl
  find_element_fuel zero (suc g) s h k = one_round_same _ _ s (inl (omega arith))
  find_element_fuel (suc f) zero s h k = one_round_same _ _ s (inl (omega arith))
  find_element_fuel (suc f) (suc g) s h k = one_round_same _ _ s (
      inr (
        find_element_fuel f g (next_round s) (omega (arith, clock.sleeps_on (suc s.clock)))
          (omega (arith, clock.sleeps_on (suc s.clock)))))

-- When the clock goes forward and a sleep takes its time, the fuel of the loop is enough: with any
-- more of it, a look-up does the same and ends the same way. It ends within the rounds of 250 ms
-- that its timeout holds, and two.
pub element_fuel :
    (page : Page) (selector : Text) (ms more : ℕ) (s : State)
    → IsClock page
    → element page selector ms s
      ≡ find_element page (suc (suc (ms / 250)) + more) selector (page.time s.clock + ms) s
unfolding element ◌>>=◌
element_fuel page selector ms more s clock =
    let e : suc (suc (ms / 250)) + more ≡ suc (suc (ms / 250) + more) = omega arith in
    rw e (
      find_element_fuel page clock selector (page.time s.clock + ms) (suc (ms / 250))
        (suc (ms / 250) + more) s (omega (arith, clock.forward s.clock))
        (omega (arith, clock.forward s.clock)))
