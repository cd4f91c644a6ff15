-- ===== src/Player/Actions/Secrecy.antt =====
-- What the outcome of a fill may tell about the value.
use alex_claw.Prelude.{◌≡◌, refl, ℕ, suc, Bool, true, false, Option, none, some, [], ◌∷◌, ◌++◌}
use alex_claw.Text.{Text, codes}
use alex_claw.Player.Page.{
  Error, Page, types, sleeps, State, Result, ok, raised, cancelled, Action, continue, raise, catch,
  perform, ending, ◌>>=◌,
}
use alex_claw.Player.Actions.{failed, on_origin, element, type_into, fill}

-- Both calls return, or both raise an exception of one type; the messages may be anything.
abbrev pub IsLike : Option Error → Option Error → Type 0
IsLike none none = Unit
IsLike (some e) (some f) = e.type_name ≡ f.type_name
IsLike _ _ = ⊥

-- Two outcomes that differ in the message of an exception at most.
abbrev IsAlike : {A : Type 0} → Result A → Result A → Type 0
IsAlike (ok a) (ok b) = a ≡ b
IsAlike (raised e) (raised f) = e.type_name ≡ f.type_name
IsAlike cancelled cancelled = Unit
IsAlike _ _ = ⊥

IsAlike-refl : {A : Type 0} (r : Result A) → IsAlike r r
IsAlike-refl (ok a) = refl
IsAlike-refl (raised e) = refl
IsAlike-refl cancelled = tt

module _ {A B : Type 0} where
  -- What is alike from every answer and state is alike behind an action.
  bind-IsAlike :
      (m : Action A) (f g : A → Action B) (s : State)
      → ((a : A) (t : State) → IsAlike (f a t).0 (g a t).0)
      → IsAlike ((m >>= f) s).0 ((m >>= g) s).0
  unfolding ◌>>=◌
  bind-IsAlike m f g s h = go (m s).0 (m s).1
    where
      go : (r : Result A) (t : State) → IsAlike (continue r f t).0 (continue r g t).0
      go (ok a) t = h a t
      go (raised e) t = refl
      go cancelled t = tt

  bind-outcome :
      (m : Action A) (f g : A → Action B) (s : State)
      → ((a : A) (t : State) → (f a t).0 ≡ (g a t).0)
      → ((m >>= f) s).0 ≡ ((m >>= g) s).0
  unfolding ◌>>=◌
  bind-outcome m f g s h = go (m s).0 (m s).1
    where
      go : (r : Result A) (t : State) → (continue r f t).0 ≡ (continue r g t).0
      go (ok a) t = h a t
      go (raised e) t = refl
      go cancelled t = refl

module _ (page : Page) (v w : Text) where
  -- Typing the one text fails with the same type of exception as typing the other.
  abbrev pub Blind : Type 0
  Blind = (t : ℕ) → IsLike (page.raises t (types v)) (page.raises t (types w))

  -- The keystrokes and the wait behind them.
  typed-IsAlike :
      (s : State)
      → Blind
      → IsAlike
          ((perform page (types v) >>= λ _. perform page (sleeps 500)) s).0
          ((perform page (types w) >>= λ _. perform page (sleeps 500)) s).0
  unfolding perform ending ◌>>=◌
  typed-IsAlike s blind =
      go (page.cancels s.clock) (page.raises s.clock (types v)) (page.raises s.clock (types w))
        (record s { clock = suc s.clock; log = s.log ++ (s.clock, types v) ∷ [] })
        (record s { clock = suc s.clock; log = s.log ++ (s.clock, types w) ∷ [] }) refl
        (blind s.clock)
    where
      go :
          (b : Bool) (o p : Option Error) (t u : State)
          → t.clock ≡ u.clock
          → IsLike o p
          → IsAlike
              (continue (ending page b o) (λ _. perform page (sleeps 500)) t).0
              (continue (ending page b p) (λ _. perform page (sleeps 500)) u).0
      go true o p t u e h = tt
      go false none none t u e h = rw e (IsAlike-refl _)
      go false none (some y) t u e h = absurd h
      go false (some x) none t u e h = absurd h
      go false (some x) (some y) t u e h = h

  type_into-IsAlike :
      (selector : Text) (o : Option Text) (s : State)
      → Blind
      → IsAlike (type_into page selector v o s).0 (type_into page selector w o s).0
  unfolding type_into
  type_into-IsAlike selector o s blind = bind-IsAlike _ _ _ s (λ _ t. bind-IsAlike _ _ _ t (λ _ t.
      bind-IsAlike _ _ _ t
        (λ _ t. bind-IsAlike (on_origin page selector o) _ _ t (λ _ t. typed-IsAlike t blind))))

  rescued :
      (selector : Text) (r q : Result Unit) (s t : State)
      → IsAlike r q
      → (catch (λ _. (r, s)) (λ e. raise (failed (codes "fill") selector e)) s).0
        ≡ (catch (λ _. (q, t)) (λ e. raise (failed (codes "fill") selector e)) t).0
  unfolding catch failed
  rescued selector (ok a) (ok b) s t h = refl
  rescued selector (raised e) (raised f) s t h = rw h refl
  rescued selector cancelled cancelled s t h = refl
  rescued selector (ok a) (raised f) s t h = absurd h
  rescued selector (ok a) cancelled s t h = absurd h
  rescued selector (raised e) (ok b) s t h = absurd h
  rescued selector (raised e) cancelled s t h = absurd h
  rescued selector cancelled (ok b) s t h = absurd h
  rescued selector cancelled (raised f) s t h = absurd h

  caught-outcome :
      (selector : Text) (o : Option Text) (s : State)
      → Blind
      → (catch (type_into page selector v o) (λ e. raise (failed (codes "fill") selector e)) s).0
        ≡ (catch (type_into page selector w o) (λ e. raise (failed (codes "fill") selector e)) s).0
  unfolding catch
  caught-outcome selector o s blind =
      rescued selector (type_into page selector v o s).0 (type_into page selector w o s).0
        (type_into page selector v o s).1 (type_into page selector w o s).1
        (type_into-IsAlike selector o s blind)

  -- When typing one text fails with the same type of exception as typing another, whatever the
  -- messages tell of them: whether a fill that is no date succeeds, and the error that the report
  -- carries when it fails, are the same for both values.
  pub fill-outcome :
      (selector : Text) (ms : ℕ) (o : Option Text) (s : State)
      → Blind
      → (fill page selector v false ms o s).0 ≡ (fill page selector w false ms o s).0
  unfolding fill ◌>>=◌
  fill-outcome selector ms o s blind = bind-outcome (on_origin page selector o) _ _ s (λ _ t.
      bind-outcome (element page selector ms) _ _ t (λ _ u. caught-outcome selector o u blind))
