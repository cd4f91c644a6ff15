-- ===== src/Player/Actions.antt =====
-- The actions of a step: `_navigate`, `_fill`, `_click`, `_select`, `_check`, `_element`.
mod Tests
pub mod Typing
pub mod Secrecy
pub mod Waiting
pub mod Walk
pub mod Clicking
use alex_claw.Prelude.{
  ℕ, zero, suc, ◌+◌, ◌/◌, ◌%◌, eqb, Bool, true, false, ◌&&◌, not, Option, none, some, [], ◌∷◌, ◌++◌,
  if◌then◌else◌, leb, ◌==◌,
}
use alex_claw.Text.{Text, text_eq, codes, has_text, has_char, lower}
use alex_claw.Text.Number.{decimal}
use alex_claw.Player.Page.{
  Error, Loaded, responded, no_response, Page, goes, queries, clicks, evaluates, presses, types,
  selects, sets_checked, sleeps, Action, pure, raise, gets, catch, perform, ask, ◌>>=◌, ◌>>◌,
}
use alex_claw.Player.Origin.{origin_of}

abbrev pub runtime_error : Text → Error
runtime_error message = record { type_name = codes "RuntimeError"; message = message }

abbrev value_error : Error
value_error = record { type_name = codes "ValueError"; message = [] }

-- `f"{what} {selector} failed: {type(e).__name__}"`
pub failed : Text → Text → Error → Error
failed what selector e =
    runtime_error (what ++ (32 ∷ (selector ++ (codes " failed: " ++ e.type_name))))

-- `str(ms / 1000)`: a float, at least one digit behind the point and no zero at the end.
seconds : ℕ → Text
seconds ms =
    let tenths = 48 + ms / 100 % 10 in
    let hundredths = 48 + ms / 10 % 10 in
    decimal (ms / 1000)
    ++ b'.'
      ∷ tenths
      ∷ (if eqb (ms % 10) 0
          then if eqb (ms / 10 % 10) 0 then [] else hundredths ∷ []
          else hundredths ∷ (48 + ms % 10) ∷ [])

module _ (page : Page) where
  -- `_wait_for_ready`: an element that stays is no error.
  pub wait_for_ready : ℕ → Action Unit
  wait_for_ready ms = do
    perform page (sleeps ms)
    catch (perform page (queries (codes "[class*=\"loading\"], [class*=\"spinner\"]")))
        (λ _. pure tt)

  -- The `except` clause of `_navigate`.
  navigation_error : Text → Error → Error
  navigation_error url e =
      if has_text e.message (codes "ERR_TUNNEL_CONNECTION_FAILED")
      then runtime_error (codes "egress refused or unreachable: " ++ url)
      else e

  check_refused : Text → Loaded → Action Unit
  check_refused url no_response = pure tt
  check_refused url (responded header) =
      if header == codes "refused"
      then raise (runtime_error (codes "egress refused: " ++ url))
      else pure tt

  -- `_navigate`
  pub navigate : Text → Action Unit
  navigate url = do
    loaded ← catch (ask page (goes url) page.loaded) (λ e. raise (navigation_error url e))
    check_refused url loaded
    wait_for_ready 3000

  unfoldable pub same_origin : Option Text → Option Text → Text → Action Unit
  same_origin (some here) (some bound) selector =
      if here == bound
      then pure tt
      else raise (
          runtime_error (
            codes "fill " ++ (selector ++ codes " refused: the page is not on the login's origin")))
  same_origin _ _ selector = raise value_error

  -- `_on_origin`; `page.url` is read without an await.
  unfoldable pub on_origin : Text → Option Text → Action Unit
  unfolding same_origin origin_of
  on_origin selector none = pure tt
  on_origin selector (some origin) = do
    here ← gets (λ s. page.url s.clock)
    same_origin (origin_of here) (origin_of origin) selector

  -- The loop of `_element`, with as much fuel as it may make rounds.
  pub find_element : ℕ → Text → ℕ → Action Unit
  find_element zero selector deadline = raise (runtime_error (codes "out of fuel"))
  find_element (suc fuel) selector deadline = do
    found ← ask page (queries selector) page.present
    if found then pure tt else do
      now ← gets (λ s. page.time s.clock)
      if leb deadline now
          then raise (runtime_error (codes "selector " ++ (selector ++ codes " not found")))
          else do perform page (sleeps 250); find_element fuel selector deadline

  -- `_element`: each round sleeps for a quarter of a second.
  pub element : Text → ℕ → Action Unit
  element selector timeout_ms = do
    now ← gets (λ s. page.time s.clock)
    find_element (suc (suc (timeout_ms / 250))) selector (now + timeout_ms)

  -- `_resolve_date`
  resolve_date : Text → Action Text
  resolve_date value = do
    t ← gets (λ s. s.clock)
    if value == codes "yesterday"
        then pure (page.yesterday t)
        else if value == codes "today"
        then pure (page.today t)
        else pure value

  -- `_format_date_value`
  pub format_date_value : Text → Text → Action Text
  format_date_value value field = do
    base ← resolve_date value
    if has_char base 32 && has_char base b':'
        then pure base
        else if has_text (lower field) (codes "from")
        then pure (base ++ codes " 00:00")
        else if has_text (lower field) (codes "to")
        then pure (base ++ codes " 23:59")
        else pure base

  -- The `try` of `_fill`. All the keystrokes are one call: what happens between two of them, as they are
  -- typed with a delay, is not modelled.
  pub type_into : Text → Text → Option Text → Action Unit
  type_into selector value origin = do
    perform page (clicks selector)
    perform page (sleeps 300)
    perform page (presses (codes "Control+a"))
    on_origin selector origin
    perform page (types value)
    perform page (sleeps 500)

  -- `_fill`
  unfoldable pub fill : Text → Text → Bool → ℕ → Option Text → Action Unit
  fill selector value date timeout_ms origin = do
    on_origin selector origin
    typed ← if date then format_date_value value selector else pure value
    element selector timeout_ms
    catch (type_into selector typed origin) (λ e. raise (failed (codes "fill") selector e))

  -- One attempt of `_click`; `true` when the element was clicked.
  click_once : Text → Action Bool
  click_once selector = do
    found ← ask page (queries selector) page.present
    if not found then pure false else do
      visible ← ask page (queries selector) page.visible
      if not visible then pure false else do perform page (clicks selector); pure true

  pub click_loop : ℕ → Text → Text → Action Unit
  click_loop zero selector shown = raise (
      runtime_error
        (codes "Could not click: " ++ (selector ++ (codes " after " ++ (shown ++ codes "s")))))
  click_loop (suc attempts) selector shown = do
    clicked ← catch (click_once selector) (λ _. pure false)
    if clicked then pure tt else do perform page (sleeps 1000); click_loop attempts selector shown

  -- `_click`: `max(1, int(timeout))` attempts; `shown` is the timeout as the error prints it.
  pub click_within : Text → ℕ → Text → Action Unit
  click_within selector timeout_ms shown =
      click_loop (if leb 1 (timeout_ms / 1000) then timeout_ms / 1000 else 1) selector shown

  -- `_click` with a timeout of `timeout_ms / 1000` seconds.
  pub click : Text → ℕ → Action Unit
  click selector timeout_ms = click_within selector timeout_ms (seconds timeout_ms)

  -- The `try` of `_select`: a radio button is clicked.
  select_into : Text → Text → Action Unit
  select_into selector value = do
    tag ← ask page (evaluates selector) page.tag
    if tag == codes "SELECT"
        then perform page (selects selector value)
        else perform page (clicks selector)
    perform page (sleeps 300)

  -- `_select`
  pub select : Text → Text → ℕ → Action Unit
  select selector value timeout_ms = do
    element selector timeout_ms
    catch (select_into selector value) (λ e. raise (failed (codes "select") selector e))

  -- `_check`
  pub check : Text → Bool → ℕ → Action Unit
  check selector checked timeout_ms = do
    element selector timeout_ms
    catch (do perform page (sets_checked selector checked); perform page (sleeps 300))
        (λ e. raise (failed (codes "check") selector e))
