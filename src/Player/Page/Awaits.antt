-- ===== src/Player/Page/Awaits.antt =====
-- How many awaits an action may take, one rule for each way to build it.
use alex_claw.Prelude.{ℕ, ◌+◌, ◌≤◌, Bool, true, false, arith, if◌then◌else◌}
use alex_claw.Player.Page.{
  Error, Page, Call, State, Result, ok, raised, cancelled, Action, pure, raise, gets, catch,
  perform, ask, ◌>>=◌,
}

-- `m` takes at most `n` awaits.
pub record Awaits {A : Type 0} (n : ℕ) (m : Action A) : Type 0 where
  pub bound : (s : State) → (m s).1.clock ≤ s.clock + n

module _ {A : Type 0} where
  pub Awaits-pure : (a : A) → Awaits 0 (pure a)
  Awaits-pure a = record { bound = λ s. omega arith }

  pub Awaits-raise : (e : Error) → Awaits 0 (raise {A = A} e)
  Awaits-raise e = record { bound = λ s. omega arith }

  pub Awaits-gets : (f : State → A) → Awaits 0 (gets f)
  Awaits-gets f = record { bound = λ s. omega arith }

  pub Awaits-if :
      (b : Bool) (n : ℕ) (m k : Action A) → Awaits n m → Awaits n k → Awaits n (if b then m else k)
  Awaits-if true n m k h g = h
  Awaits-if false n m k h g = g

  pub Awaits-less : (i n : ℕ) (m : Action A) → i ≤ n → Awaits i m → Awaits n m
  Awaits-less i n m le h = record { bound = λ s. omega (arith, h.bound s) }

  rescued :
      (i n : ℕ) (r : Result A) (s : State) (handler : Error → Action A)
      → s.clock ≤ n
      → ((e : Error) → Awaits i (handler e))
      → (catch (λ _. (r, s)) handler s).1.clock ≤ n + i
  unfolding catch
  rescued i n (ok a) s handler h k = omega arith
  rescued i n (raised e) s handler h k = omega (arith, (k e).bound s)
  rescued i n cancelled s handler h k = omega arith

  pub Awaits-catch :
      (n i : ℕ) (m : Action A) (handler : Error → Action A)
      → Awaits n m
      → ((e : Error) → Awaits i (handler e))
      → Awaits (n + i) (catch m handler)
  unfolding catch
  Awaits-catch n i m handler h k = record {
    bound = λ s. omega (arith, rescued i (s.clock + n) (m s).0 (m s).1 handler (h.bound s) k);
  }

module _ {A B : Type 0} where
  continued :
      (i n : ℕ) (r : Result A) (s : State) (f : A → Action B)
      → s.clock ≤ n
      → ((a : A) → Awaits i (f a))
      → (((λ _. (r, s)) >>= f) s).1.clock ≤ n + i
  unfolding ◌>>=◌
  continued i n (ok a) s f h k = omega (arith, (k a).bound s)
  continued i n (raised e) s f h k = omega arith
  continued i n cancelled s f h k = omega arith

  pub Awaits-bind :
      (n i : ℕ) (m : Action A) (f : A → Action B)
      → Awaits n m
      → ((a : A) → Awaits i (f a))
      → Awaits (n + i) (m >>= f)
  unfolding ◌>>=◌
  Awaits-bind n i m f h k = record {
    bound = λ s. omega (arith, continued i (s.clock + n) (m s).0 (m s).1 f (h.bound s) k);
  }

module _ (page : Page) where
  pub Awaits-perform : (c : Call) → Awaits 1 (perform page c)
  unfolding perform
  Awaits-perform c = record { bound = λ s. omega arith }

  pub Awaits-ask : {A : Type 0} (c : Call) (answer : ℕ → A) → Awaits 1 (ask page c answer)
  unfolding ask
  Awaits-ask c answer =
      Awaits-bind 0 1 _ _ (Awaits-gets _)
        (λ t. Awaits-bind 1 0 _ _ (Awaits-perform c) (λ _. Awaits-pure (answer t)))
