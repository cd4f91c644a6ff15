-- ===== src/Egress/Run/Laws.antt =====
-- What a coroutine does to the network, one rule for each way to build it.
use alex_claw.Prelude.{◌≡◌, refl, Bool, true, false, List, [], ◌∷◌, All, All-append, if◌then◌else◌}
use alex_claw.Egress.Run.{
  Exception, connection_error, value_error, incomplete_read, limit_overrun, Result, ok, raised,
  Event, Run, pure, lift, attempt, emit, ◌>>=◌, finally,
}

-- Every event of `m` satisfies `P`.
pub record Emits {A : Type 0} (P : Event → Type 0) (m : Run A) : Type 0 where
  pub holds : All P m.trace

module _ {P : Event → Type 0} where
  pub Emits-emit : (e : Event) → P e → Emits P (emit e)
  Emits-emit e h = record { holds = (h, tt) }

module _ {A : Type 0} {P : Event → Type 0} where
  pub Emits-pure : (a : A) → Emits P (pure a)
  Emits-pure a = record { holds = tt }

  pub Emits-lift : (r : Result A) → Emits P (lift r)
  Emits-lift r = record { holds = tt }

  pub Emits-attempt : (m : Run A) → Emits P m → Emits P (attempt m)
  Emits-attempt m h = record { holds = h.holds }

  pub Emits-finally : (m : Run A) (last : Event) → Emits P m → P last → Emits P (finally m last)
  unfolding finally
  Emits-finally m last h p = record { holds = All-append P m.trace (last ∷ []) h.holds (p, tt) }

  pub Emits-if :
      (b : Bool) (m n : Run A)
      → (b ≡ true → Emits P m)
      → (b ≡ false → Emits P n)
      → Emits P (if b then m else n)
  Emits-if true m n h k = h refl
  Emits-if false m n h k = k refl

module _ {A B : Type 0} {P : Event → Type 0} where
  Emits-continue :
      (r : Result A) (t : List Event) (f : A → Run B)
      → All P t
      → ((a : A) → r ≡ ok a → Emits P (f a))
      → All P (record { outcome = r; trace = t } >>= f).trace
  unfolding ◌>>=◌
  Emits-continue (ok a) t f h k = All-append P t (f a).trace h (k a refl).holds
  Emits-continue (raised x) t f h k = h

  -- The rest of the block may use what the first part returned.
  pub Emits-bind_ok :
      (m : Run A) (f : A → Run B)
      → Emits P m
      → ((a : A) → m.outcome ≡ ok a → Emits P (f a))
      → Emits P (m >>= f)
  Emits-bind_ok m f h k = record { holds = Emits-continue m.outcome m.trace f h.holds k }

  pub Emits-bind :
      (m : Run A) (f : A → Run B) → Emits P m → ((a : A) → Emits P (f a)) → Emits P (m >>= f)
  Emits-bind m f h k = Emits-bind_ok m f h (λ a _. k a)

pub ruleset emits_rules =
    (Emits-emit, Emits-pure, Emits-lift, Emits-attempt, Emits-finally, Emits-if, Emits-bind)

-- Every exception that `m` may end with satisfies `P`.
pub record Raises {A : Type 0} (P : Exception → Type 0) (m : Run A) : Type 0 where
  pub holds : (x : Exception) → m.outcome ≡ raised x → P x

-- The exceptions of a request that cannot be read, and of a connection that is lost.
abbrev pub IsMild : Exception → Type 0
IsMild connection_error = Unit
IsMild value_error = Unit
IsMild incomplete_read = Unit
IsMild limit_overrun = Unit
IsMild _ = ⊥

module _ {A : Type 0} {P : Exception → Type 0} where
  pub Raises-pure : (a : A) → Raises P (pure a)
  Raises-pure a = record { holds = λ x e. absurd (cc) }

  pub Raises-lift : (r : Result A) → ((x : Exception) → r ≡ raised x → P x) → Raises P (lift r)
  Raises-lift r h = record { holds = h }

  pub Raises-raised : (x : Exception) → P x → Raises P (lift {A = A} (raised x))
  Raises-raised x p = record { holds = λ y e. let same : y ≡ x = cc in rw same p }

  pub Raises-finally : (m : Run A) (last : Event) → Raises P m → Raises P (finally m last)
  unfolding finally
  Raises-finally m last h = record { holds = h.holds }

  pub Raises-if :
      (b : Bool) (m n : Run A)
      → (b ≡ true → Raises P m)
      → Raises P n
      → Raises P (if b then m else n)
  Raises-if true m n h k = h refl
  Raises-if false m n h k = k

pub Raises-emit : {P : Exception → Type 0} (e : Event) → Raises P (emit e)
Raises-emit e = record { holds = λ x h. absurd (cc) }

module _ {A B : Type 0} {P : Exception → Type 0} where
  Raises-continue :
      (r : Result A) (t : List Event) (f : A → Run B)
      → ((x : Exception) → r ≡ raised x → P x)
      → ((a : A) → Raises P (f a))
      → (x : Exception) → (record { outcome = r; trace = t } >>= f).outcome ≡ raised x
      → P x
  unfolding ◌>>=◌
  Raises-continue (ok a) t f h k = (k a).holds
  Raises-continue (raised y) t f h k = λ x e. h x (cc)

  pub Raises-bind :
      (m : Run A) (f : A → Run B) → Raises P m → ((a : A) → Raises P (f a)) → Raises P (m >>= f)
  Raises-bind m f h k = record { holds = Raises-continue m.outcome m.trace f h.holds k }

  -- What follows an attempt knows what the attempt may have raised.
  pub Raises-attempt_bind :
      (Q : Exception → Type 0) (m : Run A) (f : Result A → Run B)
      → Raises Q m
      → ((r : Result A) → ((x : Exception) → r ≡ raised x → Q x) → Raises P (f r))
      → Raises P (attempt m >>= f)
  unfolding ◌>>=◌
  Raises-attempt_bind Q m f h k = record { holds = (k m.outcome h.holds).holds }
