-- ===== src/Recorder/Script.antt =====
-- `Recorder._DOM_RECORDER_JS`, the script that the recorder puts into a page: which messages it sends.
-- An element is what the script reads of it; its events, and the page's clock, are not ours.
mod Tests
pub mod Logins
pub mod Replay
use alex_claw.Prelude.{
  ℕ, suc, Bool, true, false, ◌&&◌, ◌||◌, not, Option, none, some, List, [], ◌∷◌, ◌++◌, take,
  if◌then◌else◌, any, contains, is_empty, ◌==◌,
}
use alex_claw.Text.{Text, text_eq, codes, lower, is_blank, join}
use alex_claw.Js.{trim, split_runs, prefix, or_empty}
use alex_claw.Recorder.{DomAction, credential_autocomplete}

-- `class_name` is none where it is no string; `text` is `innerText`.
pub record Element : Type 0 where
  pub tag_name : Text
  pub id : Text
  pub name : Text
  pub type : Option Text
  pub class_name : Option Text
  pub autocomplete : Option Text
  pub value : Text
  pub checked : Bool
  pub text : Option Text

abbrev pub is_input : Element → Bool
is_input el = el.tag_name == codes "INPUT"

abbrev pub is_type : Element → Text → Bool
is_type el t = or_empty el.type == t

-- `isCheckbox`, which holds of a radio button too.
abbrev pub is_checkbox : Element → Bool
is_checkbox el = is_type el (codes "checkbox") || is_type el (codes "radio")

abbrev pub is_radio : Element → Bool
is_radio el = is_type el (codes "radio")

abbrev pub is_select : Element → Bool
is_select el = el.tag_name == codes "SELECT"

-- The first two classes, or nothing.
pub classes : Option Text → Text
classes none = []
classes (some c) = join (codes ".") (take 2 (split_runs is_blank (trim c)))

pub by_class : Text → Text → Text
by_class tag cls = if is_empty cls then tag else tag ++ (codes "." ++ cls)

-- `bestSelector`
pub best_selector : Element → Text
best_selector el =
    if not (is_empty el.id)
    then codes "#" ++ el.id
    else if is_input el && is_checkbox el && not (is_empty el.name)
    then codes "input[name=\"" ++ (el.name ++ (codes "\"][value=\"" ++ (el.value ++ codes "\"]")))
    else if not (is_empty el.name)
    then lower el.tag_name ++ (codes "[name=\"" ++ (el.name ++ codes "\"]"))
    else if not (is_empty (or_empty el.type)) && is_input el
    then codes "input[type=\"" ++ (or_empty el.type ++ codes "\"]")
    else by_class (lower el.tag_name) (classes el.class_name)

-- `credential` of the `change` listener.
pub is_credential : Element → Bool
is_credential el =
    lower (or_empty el.type) == codes "password"
    || any (contains credential_autocomplete)
        (split_runs is_blank (lower (or_empty el.autocomplete)))

pub change_type : Element → Text
change_type el =
    if is_radio el
    then codes "select"
    else if is_select el
    then codes "select"
    else if is_checkbox el
    then codes "check"
    else codes "fill"

pub change_word : Element → Text
change_word el =
    if is_checkbox el
    then (if el.checked then codes "Check " else codes "Uncheck ")
    else if is_select el
    then codes "Select "
    else codes "Fill "

abbrev pub is_field : Element → Bool
is_field el = is_input el || el.tag_name == codes "TEXTAREA" || is_select el

-- The `change` listener: its message, which the recorder reads without the key `secret`.
pub on_change : Text → Element → Option DomAction
on_change time el =
    if not (is_field el)
    then none
    else some record {
      timestamp = some time;
      action_type = some (change_type el);
      description = some (change_word el ++ best_selector el);
      selector = some (best_selector el);
      value = if is_credential el then none else some el.value;
      checked = if is_checkbox el then some el.checked else none;
      input_type = some (lower (or_empty el.type));
      autocomplete = some (lower (or_empty el.autocomplete));
    }

-- The types of an input that is typed into: a click on one is no action.
abbrev typed_types : List Text
typed_types =
    codes "text"
    ∷ codes "email"
    ∷ codes "password"
    ∷ codes "tel"
    ∷ codes "number"
    ∷ codes "search"
    ∷ codes "url"
    ∷ []

-- `el.innerText ? el.innerText.substring(0, 50).trim() : null`
click_value : Option Text → Option Text
click_value none = none
click_value (some []) = none
click_value (some (c ∷ s)) = some (trim (prefix 50 (c ∷ s)))

click_label : Option Text → Text
click_label none = []
click_label (some []) = []
click_label (some (c ∷ s)) = codes " \"" ++ (trim (prefix 30 (c ∷ s)) ++ codes "\"")

-- The `click` listener on the closest element that can be clicked, if there is one.
pub on_click : Text → Option Element → Option DomAction
on_click time none = none
on_click time (some el) =
    if is_input el && contains typed_types (or_empty el.type)
    then none
    else some record {
      timestamp = some time;
      action_type = some (codes "click");
      description = some (codes "Click " ++ (best_selector el ++ click_label el.text));
      selector = some (best_selector el);
      value = click_value el.text;
      checked = none;
      input_type = none;
      autocomplete = none;
    }

-- The `submit` listener: whether the focused element is made to fire its change.
pub blurs : Option Element → Bool
blurs none = false
blurs (some focused) = is_input focused || focused.tag_name == codes "TEXTAREA"

-- A page's window: whether the script has run, and how often its listeners are attached.
pub record Window : Type 0 where
  pub recording : Bool
  pub listeners : ℕ

pub install : Window → Window
install w = if w.recording then w else record { recording = true; listeners = suc w.listeners }
