-- ===== src/Player/Actions/Walk.antt =====
-- What is closed holds of the actions on elements.
use alex_claw.Prelude.{true, if◌then◌else◌, ℕ, zero, suc, Bool, false, leb, Option, none, some}
use alex_claw.Text.{Text}
use alex_claw.Player.Page.{
  Loaded, responded, no_response, Page, Error, Call, State, queries, sleeps, Action, pure, raise,
  gets, catch, perform, ask, ◌>>=◌,
}
use alex_claw.Player.Page.Closed.{Closed}
use alex_claw.Player.Actions.{
  wait_for_ready, check_refused, navigate, same_origin, on_origin, find_element, element,
  resolve_date, format_date_value, type_into, fill, click_once, click_loop, click_within, click,
  select_into, select, check,
}

module _ (page : Page) (K : (A : Type 0) → Action A → Type 0) (closed : Closed page K) where
  module _ {A : Type 0} where
    pub K-pure : (a : A) → K _ (pure a)
    K-pure = closed.on_pure

    pub K-raise : (e : Error) → K _ (raise {A = A} e)
    K-raise = closed.on_raise

    pub K-gets : (f : State → A) → K _ (gets f)
    K-gets = closed.on_gets

    pub K-if : (b : Bool) (m n : Action A) → K _ m → K _ n → K _ (if b then m else n)
    K-if true m n h k = h
    K-if false m n h k = k

    pub K-catch :
        (m : Action A) (handler : Error → Action A)
        → K _ m
        → ((e : Error) → K _ (handler e))
        → K _ (catch m handler)
    K-catch = closed.on_catch

    pub K-bind :
        {B : Type 0} (m : Action A) (f : A → Action B)
        → K _ m
        → ((a : A) → K _ (f a))
        → K _ (m >>= f)
    K-bind = closed.on_bind

  pub K-perform : (c : Call) → K _ (perform page c)
  K-perform = closed.on_perform

  pub K-ask : {A : Type 0} (c : Call) (answer : ℕ → A) → K _ (ask page c answer)
  unfolding ask
  K-ask c answer = K-bind _ _ (K-gets _) (λ t. K-bind _ _ (K-perform c) (λ _. K-pure _))

  ruleset closed_rules = (K-pure, K-raise, K-gets, K-if, K-catch, K-bind, K-perform, K-ask)

  K-wait_for_ready : (ms : ℕ) → K _ (wait_for_ready page ms)
  unfolding wait_for_ready
  K-wait_for_ready ms = search closed_rules

  K-check_refused : (url : Text) (l : Loaded) → K _ (check_refused page url l)
  unfolding check_refused
  K-check_refused url (responded header) = search closed_rules
  K-check_refused url no_response = search closed_rules

  pub K-navigate : (url : Text) → K _ (navigate page url)
  unfolding navigate
  K-navigate url = search (closed_rules, K-wait_for_ready, K-check_refused)

  K-same_origin : (a b : Option Text) (selector : Text) → K _ (same_origin page a b selector)
  unfolding same_origin
  K-same_origin (some a) (some b) selector = search closed_rules
  K-same_origin (some a) none selector = search closed_rules
  K-same_origin none b selector = search closed_rules

  K-on_origin : (selector : Text) (o : Option Text) → K _ (on_origin page selector o)
  unfolding on_origin
  K-on_origin selector none = search closed_rules
  K-on_origin selector (some o) = search (closed_rules, K-same_origin)

  K-find_element :
      (fuel : ℕ) (selector : Text) (deadline : ℕ) → K _ (find_element page fuel selector deadline)
  unfolding find_element
  K-find_element zero selector deadline = search closed_rules
  K-find_element (suc fuel) selector deadline =
      K-bind _ _ (K-ask (queries selector) page.present) (λ found. K-if found _ _ (K-pure tt) (
        K-bind _ _ (K-gets _) (λ now.
          K-if (leb deadline now) _ _ (K-raise _)
            (K-bind _ _ (K-perform (sleeps 250)) (λ _. K-find_element fuel selector deadline)))))

  K-element : (selector : Text) (ms : ℕ) → K _ (element page selector ms)
  unfolding element
  K-element selector ms = search (closed_rules, K-find_element)

  K-click_once : (selector : Text) → K _ (click_once page selector)
  unfolding click_once
  K-click_once selector = search closed_rules depth 8

  K-click_loop : (n : ℕ) (selector shown : Text) → K _ (click_loop page n selector shown)
  unfolding click_loop
  K-click_loop zero selector shown = search closed_rules
  K-click_loop (suc n) selector shown =
      K-bind _ _ (K-catch _ _ (K-click_once selector) (λ _. K-pure false)) (λ clicked.
        K-if clicked _ _ (K-pure tt)
          (K-bind _ _ (K-perform (sleeps 1000)) (λ _. K-click_loop n selector shown)))

  pub K-click_within :
      (selector : Text) (ms : ℕ) (shown : Text) → K _ (click_within page selector ms shown)
  unfolding click_within
  K-click_within selector ms shown = K-click_loop _ selector shown

  pub K-click : (selector : Text) (ms : ℕ) → K _ (click page selector ms)
  unfolding click
  K-click selector ms = K-click_within selector ms _

  K-select_into : (selector value : Text) → K _ (select_into page selector value)
  unfolding select_into
  K-select_into selector value = search closed_rules

  pub K-select : (selector value : Text) (ms : ℕ) → K _ (select page selector value ms)
  unfolding select
  K-select selector value ms = search (closed_rules, K-select_into, K-element)

  pub K-check : (selector : Text) (b : Bool) (ms : ℕ) → K _ (check page selector b ms)
  unfolding check
  K-check selector b ms = search (closed_rules, K-element)

  K-resolve_date : (value : Text) → K _ (resolve_date page value)
  unfolding resolve_date
  K-resolve_date value = search closed_rules

  K-format_date_value : (value field : Text) → K _ (format_date_value page value field)
  unfolding format_date_value
  K-format_date_value value field = search (closed_rules, K-resolve_date)

  K-type_into : (selector value : Text) (o : Option Text) → K _ (type_into page selector value o)
  unfolding type_into
  K-type_into selector value o = search (closed_rules, K-on_origin) depth 12

  pub K-fill :
      (selector value : Text) (date : Bool) (ms : ℕ) (o : Option Text)
      → K _ (fill page selector value date ms o)
  unfolding fill
  K-fill selector value date ms o =
      search ((closed_rules), K-on_origin, K-format_date_value, K-element, K-type_into) depth 12
