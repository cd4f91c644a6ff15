-- ===== src/Player/Page/Scrapes.antt =====
-- What an action adds to the scraped data, one rule for each way to build it.
use alex_claw.Prelude.{ℕ, ◌≡◌, Bool, true, false, List, ◌++◌, All, All-append, if◌then◌else◌}
use alex_claw.Player.Page.Closed.{Closed}
use alex_claw.Player.Page.{
  Error, Page, Call, Scraped, State, Result, ok, raised, cancelled, Action, pure, raise, gets,
  modify, catch, perform, ask, ◌>>=◌,
}

-- If everything scraped so far satisfies `G`, so does everything that is scraped after `m`.
pub record Scrapes {A : Type 0} (G : Scraped → Type 0) (m : Action A) : Type 0 where
  pub after : (s : State) → All G s.scraped → All G (m s).1.scraped

abbrev pub Gives : {A : Type 0} → (A → Type 0) → Result A → Type 0
Gives Q (ok a) = Q a
Gives Q (raised e) = Unit
Gives Q cancelled = Unit

pub Gives-ok : {A : Type 0} (Q : A → Type 0) (r : Result A) (a : A) → r ≡ ok a → Gives Q r → Q a
Gives-ok Q r a e h = rw e at h

-- What `m` answers, if it answers, satisfies `Q`.
pub record Answers {A : Type 0} (Q : A → Type 0) (m : Action A) : Type 0 where
  pub answer : (s : State) → Gives Q (m s).0

module _ {A : Type 0} {G : Scraped → Type 0} where
  pub Scrapes-pure : (a : A) → Scrapes G (pure a)
  Scrapes-pure a = record { after = λ s h. h }

  pub Scrapes-raise : (e : Error) → Scrapes G (raise {A = A} e)
  Scrapes-raise e = record { after = λ s h. h }

  pub Scrapes-gets : (f : State → A) → Scrapes G (gets f)
  Scrapes-gets f = record { after = λ s h. h }

  pub Scrapes-if :
      (b : Bool) (m n : Action A) → Scrapes G m → Scrapes G n → Scrapes G (if b then m else n)
  Scrapes-if true m n h k = h
  Scrapes-if false m n h k = k

  rescued :
      (r : Result A) (s : State) (handler : Error → Action A)
      → ((e : Error) → Scrapes G (handler e))
      → All G s.scraped
      → All G (catch (λ _. (r, s)) handler s).1.scraped
  unfolding catch
  rescued (ok a) s handler k h = h
  rescued (raised e) s handler k h = (k e).after s h
  rescued cancelled s handler k h = h

  pub Scrapes-catch :
      (m : Action A) (handler : Error → Action A)
      → Scrapes G m
      → ((e : Error) → Scrapes G (handler e))
      → Scrapes G (catch m handler)
  unfolding catch
  Scrapes-catch m handler h k = record {
    after = λ s g. rescued (m s).0 (m s).1 handler k (h.after s g);
  }

module _ {A B : Type 0} {G : Scraped → Type 0} where
  continued :
      (Q : A → Type 0) (r : Result A) (s : State) (f : A → Action B)
      → Gives Q r
      → ((a : A) → Q a → Scrapes G (f a))
      → All G s.scraped
      → All G (((λ _. (r, s)) >>= f) s).1.scraped
  unfolding ◌>>=◌
  continued Q (ok a) s f q k h = (k a q).after s h
  continued Q (raised e) s f q k h = h
  continued Q cancelled s f q k h = h

  -- What is answered is known in what follows.
  pub Scrapes-bind_answer :
      (Q : A → Type 0) (m : Action A) (f : A → Action B)
      → Scrapes G m
      → Answers Q m
      → ((a : A) → Q a → Scrapes G (f a))
      → Scrapes G (m >>= f)
  unfolding ◌>>=◌
  Scrapes-bind_answer Q m f h q k = record {
    after = λ s g. continued Q (m s).0 (m s).1 f (q.answer s) k (h.after s g);
  }

anything : {A : Type 0} (r : Result A) → Gives (λ _. Unit) r
anything (ok a) = tt
anything (raised e) = tt
anything cancelled = tt

module _ {A B : Type 0} {G : Scraped → Type 0} where
  pub Scrapes-bind :
      (m : Action A) (f : A → Action B)
      → Scrapes G m
      → ((a : A) → Scrapes G (f a))
      → Scrapes G (m >>= f)
  Scrapes-bind m f h k =
      Scrapes-bind_answer (λ _. Unit) m f h (record { answer = λ s. anything (m s).0 }) (λ a _. k a)

module _ {G : Scraped → Type 0} where
  -- An update of the state that leaves the scraped data alone.
  pub Scrapes-modify :
      (f : State → State) → ((s : State) → (f s).scraped ≡ s.scraped) → Scrapes G (modify f)
  unfolding modify
  Scrapes-modify f e = record { after = λ s h. rw (e s) h }

  pub Scrapes-add :
      (data' : List Scraped)
      → All G data'
      → Scrapes G (modify (λ s. record s { scraped = s.scraped ++ data' }))
  unfolding modify
  Scrapes-add data' h = record { after = λ s g. All-append G s.scraped data' g h }

module _ {G : Scraped → Type 0} (page : Page) where
  pub Scrapes-perform : (c : Call) → Scrapes G (perform page c)
  unfolding perform
  Scrapes-perform c = record { after = λ s h. h }

  pub Scrapes-ask : {A : Type 0} (c : Call) (answer : ℕ → A) → Scrapes G (ask page c answer)
  unfolding ask
  Scrapes-ask c answer =
      Scrapes-bind _ _ (Scrapes-gets _)
        (λ t. Scrapes-bind _ _ (Scrapes-perform c) (λ _. Scrapes-pure _))

pub Scrapes-Closed : (page : Page) (G : Scraped → Type 0) → Closed page (λ A m. Scrapes {A = A} G m)
Scrapes-Closed page G = record {
  on_pure = Scrapes-pure;
  on_raise = Scrapes-raise;
  on_gets = Scrapes-gets;
  on_catch = Scrapes-catch;
  on_bind = Scrapes-bind;
  on_perform = Scrapes-perform page;
  on_modify = λ f same timed. Scrapes-modify f same;
}

-- Answers: an await, an exception that is caught, and a sequence.
module _ {A : Type 0} (Q : A → Type 0) where
  pub Answers-pure : (a : A) → Q a → Answers Q (pure a)
  Answers-pure a q = record { answer = λ s. q }

  handled :
      (r : Result A) (s : State) (handler : Error → Action A)
      → Gives Q r
      → ((e : Error) → Answers Q (handler e))
      → Gives Q (catch (λ _. (r, s)) handler s).0
  unfolding catch
  handled (ok a) s handler h k = h
  handled (raised e) s handler h k = (k e).answer s
  handled cancelled s handler h k = tt

  pub Answers-catch :
      (m : Action A) (handler : Error → Action A)
      → Answers Q m
      → ((e : Error) → Answers Q (handler e))
      → Answers Q (catch m handler)
  unfolding catch
  Answers-catch m handler h k = record {
    answer = λ s. handled (m s).0 (m s).1 handler (h.answer s) k;
  }

  followed :
      {B : Type 0} (P : B → Type 0) (r : Result B) (s : State) (f : B → Action A)
      → Gives P r
      → ((b : B) → P b → Answers Q (f b))
      → Gives Q (((λ _. (r, s)) >>= f) s).0
  unfolding ◌>>=◌
  followed P (ok b) s f p h = (h b p).answer s
  followed P (raised e) s f p h = tt
  followed P cancelled s f p h = tt

  pub Answers-bind :
      {B : Type 0} (P : B → Type 0) (m : Action B) (f : B → Action A)
      → Answers P m
      → ((b : B) → P b → Answers Q (f b))
      → Answers Q (m >>= f)
  unfolding ◌>>=◌
  Answers-bind P m f p h = record { answer = λ s. followed P (m s).0 (m s).1 f (p.answer s) h }

  pub Answers-if :
      (b : Bool) (m n : Action A) → Answers Q m → Answers Q n → Answers Q (if b then m else n)
  Answers-if true m n h k = h
  Answers-if false m n h k = k

pub Answers-ask :
    {A : Type 0} (Q : A → Type 0) (page : Page) (c : Call) (f : ℕ → A)
    → ((t : ℕ) → Q (f t))
    → Answers Q (ask page c f)
unfolding ask
Answers-ask Q page c f q =
    Answers-bind Q (λ _. Unit) _ _ (record { answer = λ s. tt })
      (λ t _.
        Answers-bind Q (λ _. Unit) _ _ (record { answer = λ s. anything (perform page c s).0 })
          (λ _ _. Answers-pure Q (f t) (q t)))
