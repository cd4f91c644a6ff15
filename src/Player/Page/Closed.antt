-- ===== src/Player/Page/Closed.antt =====
-- Predicates on actions that hold of whatever is built of actions of which they hold.
use alex_claw.Prelude.{◌≡◌}
use alex_claw.Player.Page.{
  Error, Page, Call, State, Action, pure, raise, gets, modify, catch, perform, ◌>>=◌,
}

pub record Closed (page : Page) (K : (A : Type 0) → Action A → Type 0) : Type 1 where
  pub on_pure : {A : Type 0} (a : A) → K _ (pure a)
  pub on_raise : {A : Type 0} (e : Error) → K _ (raise {A = A} e)
  pub on_gets : {A : Type 0} (f : State → A) → K _ (gets f)
  pub on_catch :
      {A : Type 0} (m : Action A) (handler : Error → Action A)
      → K _ m
      → ((e : Error) → K _ (handler e))
      → K _ (catch m handler)
  pub on_bind :
      {A B : Type 0} (m : Action A) (f : A → Action B)
      → K _ m
      → ((a : A) → K _ (f a))
      → K _ (m >>= f)
  pub on_perform : (c : Call) → K _ (perform page c)
  -- an update that scrapes nothing and takes no time
  pub on_modify :
      (f : State → State)
      → ((s : State) → (f s).scraped ≡ s.scraped)
      → ((s : State) → (f s).clock ≡ s.clock)
      → K _ (modify f)
