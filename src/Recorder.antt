-- ===== src/Recorder.antt =====
-- web-automator/app/recorder.py: what the recorder keeps of the page's actions, and its results. The
-- log is not modelled.
mod Tests
pub mod Stop
pub mod Start
pub mod Script
pub mod Marks
pub mod Secrets
pub mod Results
use alex_claw.Prelude.{
  ℕ, suc, ◌+◌, Bool, true, false, ◌&&◌, ◌||◌, Option, none, some, List, [], ◌∷◌, ◌++◌, map,
  if◌then◌else◌, any, contains, is_empty, length, ltb, eqb, ◌==◌,
}
use mathlib.Core.Option
use alex_claw.Path.{path_join}
use alex_claw.Text.{Text, text_eq, codes, lower, words}

-- A DOM action: the object that the page sends, `none` being a missing key. The page's script sends
-- no `null` for the first three; for the others it is read as a missing key is.
pub record DomAction : Type 0 where
  pub timestamp : Option Text
  pub action_type : Option Text
  pub description : Option Text
  pub selector : Option Text
  pub value : Option Text
  pub checked : Option Bool
  pub input_type : Option Text
  pub autocomplete : Option Text

-- `CapturedAction`, whose `url`, `post_data` and `headers` the recorder leaves at None.
pub record CapturedAction : Type 0 where
  pub timestamp : Text
  pub action_type : Text
  pub description : Text
  pub selector : Option Text
  pub value : Option Text
  pub checked : Option Bool
  pub secret : Option Bool

abbrev pub or_text : Option Text → Text → Text
or_text none d = d
or_text (some s) d = s

abbrev pub credential_autocomplete : List Text
credential_autocomplete =
    codes "current-password" ∷ codes "new-password" ∷ codes "one-time-code" ∷ []

-- `is_credential_field`
pub is_credential_field : Option Text → Option Text → Bool
is_credential_field input_type autocomplete =
    lower (or_text input_type []) == codes "password"
    || any (contains credential_autocomplete) (words (lower (or_text autocomplete [])))

pub is_secret : DomAction → Bool
is_secret a =
    or_text a.action_type (codes "interaction") == codes "fill"
    && is_credential_field a.input_type a.autocomplete

-- `captured_action`; `now` stands in for a missing timestamp.
pub captured_action : Text → DomAction → CapturedAction
captured_action now a = record {
  timestamp = or_text a.timestamp now;
  action_type = or_text a.action_type (codes "interaction");
  description = or_text a.description [];
  selector = a.selector;
  value = if is_secret a then none else a.value;
  checked =
      if or_text a.action_type (codes "interaction") == codes "check" then a.checked else none;
  secret = if is_secret a then some true else none;
}

-- `recipe.ACTIONS`
abbrev pub actions : List Text
actions =
    codes "navigate"
    ∷ codes "click"
    ∷ codes "fill"
    ∷ codes "select"
    ∷ codes "check"
    ∷ codes "wait"
    ∷ codes "keyboard"
    ∷ codes "download"
    ∷ codes "scrape"
    ∷ codes "scrape_text"
    ∷ codes "extract_grid"
    ∷ codes "screenshot"
    ∷ []

pub record DownloadedFile : Type 0 where
  pub timestamp : Text
  pub filename : Text
  pub url : Text
  pub saved_to : Text
  pub trigger_action : Option Text

-- The state of a recording; `captured` is its `actions`.
pub record Recorder : Type 0 where
  pub session_id : Text
  pub base_url : Text
  pub output_dir : Text
  pub interesting_patterns : List Text
  pub captured : List CapturedAction
  pub downloads : List DownloadedFile
  pub request_count : ℕ
  pub ignored_count : ℕ
  pub last_action : Option CapturedAction

abbrev default_patterns : List Text
default_patterns =
    codes "download"
    ∷ codes "export"
    ∷ codes "filter"
    ∷ codes "button"
    ∷ codes "login"
    ∷ codes "menu"
    ∷ codes "submit"
    ∷ codes "search"
    ∷ []

-- `Recorder.__init__`; no patterns or an empty list of them stand for the default ones.
pub new_recorder : Text → Text → List Text → Text → Recorder
new_recorder session_id base_url patterns output_dir = record {
  session_id = session_id;
  base_url = base_url;
  output_dir = output_dir;
  interesting_patterns = if is_empty patterns then default_patterns else patterns;
  captured = [];
  downloads = [];
  request_count = 0;
  ignored_count = 0;
  last_action = none;
}

abbrev pub is_replayable : Option Text → Bool
is_replayable none = false
is_replayable (some t) = contains actions t

-- `_on_dom_action`; `none` is a message that does not parse.
pub on_dom_action : Text → Option DomAction → Recorder → Recorder
on_dom_action now none r = r
on_dom_action now (some a) r =
    if is_replayable a.action_type
    then record r { captured = r.captured ++ captured_action now a ∷ [] }
    else r

-- A recording's messages, each with the time at which it came in.
pub record_all : List (Text × Option DomAction) → Recorder → Recorder
record_all [] r = r
record_all ((now, m) ∷ ms) r = record_all ms (on_dom_action now m r)

-- `_collect_dom_actions`: what the page answers, `none` when there is no page or it raises.
collect_dom_actions : Text → Option (List DomAction) → List CapturedAction
collect_dom_actions now none = []
collect_dom_actions now (some raw) = map (captured_action now) raw

-- `_flush_dom_actions`: no test of the actions' kind is made here.
pub flush_dom_actions : Text → Option (List DomAction) → Recorder → Recorder
flush_dom_actions now raw r = record r { captured = r.captured ++ collect_dom_actions now raw }

-- `_on_request`; `raw` is what the page answers if it is asked.
pub on_request : Text → Text → Bool → Option (List DomAction) → Recorder → Recorder
on_request now resource_type is_navigation raw r =
    let counted = record r { request_count = suc r.request_count } in
    if resource_type == codes "document" && is_navigation
    then flush_dom_actions now raw counted
    else counted

-- `_on_download`, once the file is saved.
pub on_download : Text → Text → Text → Recorder → Recorder
on_download now filename url r = record r {
  downloads =
      r.downloads
      ++ record {
        timestamp = now;
        filename = filename;
        url = url;
        saved_to = path_join r.output_dir filename;
        trigger_action = Option.map CapturedAction.description r.last_action;
      }
        ∷ [];
}
