-- ===== src/Player/Page/Log.antt =====
-- What an action asks of the page, one rule for each way to build it.
use alex_claw.Prelude.{ℕ, ◌≡◌, Bool, true, false, [], ◌∷◌, All, All-append, if◌then◌else◌}
use alex_claw.Player.Page.{
  Error, Page, Call, State, Result, ok, raised, cancelled, Action, pure, raise, gets, modify, catch,
  perform, ask, ◌>>=◌,
}

-- If every call logged so far satisfies `P`, so does every call logged after `m`.
pub record Logs {A : Type 0} (P : ℕ × Call → Type 0) (m : Action A) : Type 0 where
  pub at : (s : State) → All P s.log → All P (m s).1.log

module _ {A : Type 0} {P : ℕ × Call → Type 0} where
  pub Logs-pure : (a : A) → Logs P (pure a)
  Logs-pure a = record { at = λ s h. h }

  pub Logs-raise : (e : Error) → Logs P (raise {A = A} e)
  Logs-raise e = record { at = λ s h. h }

  pub Logs-gets : (f : State → A) → Logs P (gets f)
  Logs-gets f = record { at = λ s h. h }

  pub Logs-if : (b : Bool) (m n : Action A) → Logs P m → Logs P n → Logs P (if b then m else n)
  Logs-if true m n h k = h
  Logs-if false m n h k = k

  rescue_log :
      (r : Result A) (s : State) (handler : Error → Action A)
      → ((e : Error) → Logs P (handler e))
      → All P s.log
      → All P (catch (λ _. (r, s)) handler s).1.log
  unfolding catch
  rescue_log (ok a) s handler k h = h
  rescue_log (raised e) s handler k h = (k e).at s h
  rescue_log cancelled s handler k h = h

  pub Logs-catch :
      (m : Action A) (handler : Error → Action A)
      → Logs P m
      → ((e : Error) → Logs P (handler e))
      → Logs P (catch m handler)
  unfolding catch
  Logs-catch m handler h k = record { at = λ s g. rescue_log (m s).0 (m s).1 handler k (h.at s g) }

module _ {P : ℕ × Call → Type 0} where
  -- An update of the state that leaves the log alone.
  pub Logs-modify : (f : State → State) → ((s : State) → (f s).log ≡ s.log) → Logs P (modify f)
  unfolding modify
  Logs-modify f e = record { at = λ s h. rw (e s) h }

module _ {A B : Type 0} {P : ℕ × Call → Type 0} where
  continue_log :
      (r : Result A) (s : State) (f : A → Action B)
      → ((a : A) → Logs P (f a))
      → All P s.log
      → All P (((λ _. (r, s)) >>= f) s).1.log
  unfolding ◌>>=◌
  continue_log (ok a) s f k h = (k a).at s h
  continue_log (raised e) s f k h = h
  continue_log cancelled s f k h = h

  pub Logs-bind :
      (m : Action A) (f : A → Action B) → Logs P m → ((a : A) → Logs P (f a)) → Logs P (m >>= f)
  unfolding ◌>>=◌
  Logs-bind m f h k = record { at = λ s g. continue_log (m s).0 (m s).1 f k (h.at s g) }

  pub Logs-pure_bind : (a : A) (f : A → Action B) → Logs P (f a) → Logs P (pure a >>= f)
  unfolding ◌>>=◌
  Logs-pure_bind a f k = record { at = λ s h. k.at s h }

  -- What is read of the state is known in what follows.
  pub Logs-gets_bind :
      (f : State → A) (k : A → Action B) → ((s : State) → Logs P (k (f s))) → Logs P (gets f >>= k)
  unfolding ◌>>=◌
  Logs-gets_bind f k h = record { at = λ s g. (h s).at s g }

module _ {P : ℕ × Call → Type 0} (page : Page) where
  pub Logs-perform : (c : Call) → ((t : ℕ) → P (t, c)) → Logs P (perform page c)
  unfolding perform
  Logs-perform c p = record { at = λ s h. All-append P s.log ((s.clock, c) ∷ []) h (p s.clock, tt) }

  pub Logs-ask :
      {A : Type 0} (c : Call) (answer : ℕ → A) → ((t : ℕ) → P (t, c)) → Logs P (ask page c answer)
  unfolding ask
  Logs-ask c answer p =
      Logs-bind _ _ (Logs-gets _) (λ t. Logs-bind _ _ (Logs-perform c p) (λ _. Logs-pure _))

-- One call from one state, and what follows it.
pub perform_then :
    {B : Type 0} (P : ℕ × Call → Type 0) (page : Page) (c : Call) (rest : Action B) (s : State)
    → P (s.clock, c)
    → All P s.log
    → Logs P rest
    → All P ((perform page c >>= λ _. rest) s).1.log
unfolding perform ◌>>=◌
perform_then P page c rest s p h k =
    continue_log (perform page c s).0 (perform page c s).1 (λ _. rest) (λ _. k)
      (All-append P s.log ((s.clock, c) ∷ []) h (p, tt))
