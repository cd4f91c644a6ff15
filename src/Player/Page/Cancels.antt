-- ===== src/Player/Page/Cancels.antt =====
-- Where an action stands when it is cancelled.
use alex_claw.Prelude.{
  ℕ, suc, ◌≤◌, ◌<◌, ◌≡◌, refl, ap, ◌∙◌, Bool, true, false, Option, none, some, leb, Bool-cases, inl,
  inr, arith,
}
use alex_claw.Player.Page.{
  Error, Page, State, Result, ok, raised, cancelled, Action, modify, catch, perform, ending, ◌>>=◌,
}
use alex_claw.Player.Page.Closed.{Closed}

module _ (page : Page) where
  -- None of the awaits from `a` to before `b` is cancelled.
  abbrev pub Clear : ℕ → ℕ → Type 0
  Clear a b = (i : ℕ) → a ≤ i → i < b → page.cancels i ≡ false

  -- What began at the time `a` and ended at `b`: with the first await that is cancelled, if it is
  -- cancelled, and else without one.
  abbrev pub Course : {A : Type 0} → ℕ → Result A → ℕ → Type 0
  Course a (ok x) b = (a ≤ b) × Clear a b
  Course a (raised e) b = (a ≤ b) × Clear a b
  Course a cancelled b = (t : ℕ) × (b ≡ suc t) × (a ≤ t) × Clear a t × (page.cancels t ≡ true)

  pub record Heeds {A : Type 0} (m : Action A) : Type 0 where
    pub course : (s : State) → Course s.clock (m s).0 (m s).1.clock

  at_once : (a : ℕ) → (a ≤ a) × Clear a a
  at_once a = (omega arith, λ i h k. absurd (omega arith))

  Clear-join : (a b c : ℕ) → Clear a b → Clear b c → Clear a c
  Clear-join a b c h k i le lt = elim (Bool-cases (leb b i)) [
    | inl above ↦ k i (ground arith) lt
    | inr below ↦ h i le (ground arith)
  ]

  only : (c : ℕ) → page.cancels c ≡ false → Clear c (suc c)
  only c e i le lt = let same : i ≡ c = omega arith in ap page.cancels same ∙ e

  -- What goes on from `b`.
  pub follow :
      {A : Type 0} (a b c : ℕ) (r : Result A) → a ≤ b → Clear a b → Course b r c → Course a r c
  follow a b c (ok x) le h (le', k) = (omega arith, Clear-join a b c h k)
  follow a b c (raised e) le h (le', k) = (omega arith, Clear-join a b c h k)
  follow a b c cancelled le h (t, e, le', k, hit) = (t, e, omega arith, Clear-join a b t h k, hit)

  awaited :
      (c : ℕ) (b : Bool) (o : Option Error)
      → page.cancels c ≡ b
      → Course c (ending page b o) (suc c)
  unfolding ending
  awaited c true o e = (c, refl, (at_once c).0, (at_once c).1, e)
  awaited c false none e = (omega arith, only c e)
  awaited c false (some x) e = (omega arith, only c e)

  rescued :
      {A : Type 0} (a : ℕ) (r : Result A) (s : State) (handler : Error → Action A)
      → Course a r s.clock
      → ((e : Error) → Heeds (handler e))
      → Course a (catch (λ _. (r, s)) handler s).0 (catch (λ _. (r, s)) handler s).1.clock
  unfolding catch
  rescued a (ok x) s handler h k = h
  rescued a (raised e) s handler (le, h) k = follow a s.clock _ _ le h ((k e).course s)
  rescued a cancelled s handler h k = h

  continued :
      {A B : Type 0} (a : ℕ) (r : Result A) (s : State) (f : A → Action B)
      → Course a r s.clock
      → ((x : A) → Heeds (f x))
      → Course a (((λ _. (r, s)) >>= f) s).0 (((λ _. (r, s)) >>= f) s).1.clock
  unfolding ◌>>=◌
  continued a (ok x) s f (le, h) k = follow a s.clock _ _ le h ((k x).course s)
  continued a (raised e) s f h k = h
  continued a cancelled s f h k = h

  pub Heeds-modify : (f : State → State) → ((s : State) → (f s).clock ≡ s.clock) → Heeds (modify f)
  unfolding modify
  Heeds-modify f e = record { course = λ s. rw (e s) (at_once s.clock) }

  pub Heeds-Closed : Closed page (λ A m. Heeds {A = A} m)
  unfolding catch ◌>>=◌ perform
  Heeds-Closed = record {
    on_pure = λ x. record { course = λ s. at_once s.clock };
    on_raise = λ e. record { course = λ s. at_once s.clock };
    on_gets = λ f. record { course = λ s. at_once s.clock };
    on_catch = λ m handler h k. record {
      course = λ s. rescued s.clock (m s).0 (m s).1 handler (h.course s) k;
    };
    on_bind =
        λ m f h k. record { course = λ s. continued s.clock (m s).0 (m s).1 f (h.course s) k };
    on_perform = λ c. record {
      course = λ s. awaited s.clock (page.cancels s.clock) (page.raises s.clock c) refl;
    };
    on_modify = λ f same timed. Heeds-modify f timed;
  }
