-- ===== src/Contract.antt =====
-- web-automator/app/recipe.py: the steps of a recipe, and the checks on its URLs and origins. The
-- reading of JSON into these classes is pydantic's and is not modelled; what their fields demand of a
-- value is.
mod Tests
pub mod Urls
use alex_claw.Prelude.{
  ℕ, Bool, true, false, ◌&&◌, ◌||◌, not, Option, none, some, List, [], ◌∷◌, if◌then◌else◌, is_empty,
  all, leb, ltb, eqb, length, ◌==◌,
}
use alex_claw.Text.{Text, text_eq, codes, has_char, in_range}
use alex_claw.Url.{SplitResult, urlsplit, hostname}

-- The constructors are the step classes, with the action's fields and then `timeout_ms`.
pub data Step : Type 0 where
  navigate : (url : Text) (timeout_ms : Option ℕ) → Step
  click : (selector : Text) (timeout_ms : Option ℕ) → Step
  fill : (selector value : Text) (date : Bool) (origin : Option Text) (timeout_ms : Option ℕ) → Step
  select : (selector value : Text) (timeout_ms : Option ℕ) → Step
  check : (selector : Text) (checked : Bool) (timeout_ms : Option ℕ) → Step
  wait : (milliseconds : ℕ) (timeout_ms : Option ℕ) → Step
  keyboard : (key : Text) (timeout_ms : Option ℕ) → Step
  download : (selector : Text) (timeout_ms : Option ℕ) → Step
  scrape : (selector : Option Text) (timeout_ms : Option ℕ) → Step
  scrape_text : (selector : Option Text) (timeout_ms : Option ℕ) → Step
  extract_grid : (selector : Text) (timeout_ms : Option ℕ) → Step
  screenshot : (name : Option Text) (full_page : Option Bool) (timeout_ms : Option ℕ) → Step

pub record Recipe : Type 0 where
  pub url : Text
  pub steps : List Step

unfoldable pub is_host : Option Text → Bool
is_host none = false
is_host (some h) = not (is_empty h)

unfoldable pub has_http_host : SplitResult → Bool
has_http_host u = (u.scheme == codes "http" || u.scheme == codes "https") && is_host (hostname u)

unfoldable pub checked_url : Option SplitResult → Bool
checked_url none = false
checked_url (some u) = has_http_host u

-- `_http_url`: `false` is the `ValueError`.
unfoldable pub http_url : Text → Bool
http_url s = checked_url (urlsplit s)

unfoldable pub bare_origin : Option SplitResult → Bool
bare_origin none = false
bare_origin (some u) = not (
    not (is_empty u.path)
    || not (is_empty u.query)
    || not (is_empty u.fragment)
    || has_char u.netloc b'@')

-- `_origin`
unfoldable pub origin : Text → Bool
origin s = bare_origin (urlsplit s) && http_url s

-- `Field(ge=1, le=120_000)` of a timeout that is given.
abbrev timeout_ok : Option ℕ → Bool
timeout_ok none = true
timeout_ok (some ms) = leb 1 ms && leb ms 120000

abbrev origin_ok : Option Text → Bool
origin_ok none = true
origin_ok (some o) = origin o

abbrev pub selector_ok : Option Text → Bool
selector_ok none = true
selector_ok (some s) = not (is_empty s)

-- `[a-z0-9_-]`
abbrev pub is_name_char : ℕ → Bool
is_name_char c = in_range b'a' b'z' c || in_range b'0' b'9' c || eqb c b'_' || eqb c b'-'

-- `^[a-z0-9_-]{1,40}$`
unfoldable pub name_ok : Option Text → Bool
name_ok none = true
name_ok (some s) = all is_name_char s && leb 1 (length s) && leb (length s) 40

-- What the fields of the step classes demand of a step. Seconds are counted in thousandths here.
unfoldable pub step_ok : Step → Bool
step_ok (navigate url t) = http_url url && timeout_ok t
step_ok (click selector t) = not (is_empty selector) && timeout_ok t
step_ok (fill selector value date o t) = not (is_empty selector) && origin_ok o && timeout_ok t
step_ok (select selector value t) = not (is_empty selector) && timeout_ok t
step_ok (check selector checked t) = not (is_empty selector) && timeout_ok t
step_ok (wait ms t) = ltb 0 ms && leb ms 60000 && timeout_ok t
step_ok (keyboard key t) = not (is_empty key) && timeout_ok t
step_ok (download selector t) = not (is_empty selector) && timeout_ok t
step_ok (scrape selector t) = selector_ok selector && timeout_ok t
step_ok (scrape_text selector t) = selector_ok selector && timeout_ok t
step_ok (extract_grid selector t) = not (is_empty selector) && timeout_ok t
step_ok (screenshot name full t) = name_ok name && timeout_ok t

-- What `Recipe` demands.
unfoldable pub recipe_ok : Recipe → Bool
recipe_ok r = http_url r.url && all step_ok r.steps
