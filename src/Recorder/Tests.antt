-- ===== src/Recorder/Tests.antt =====
-- A recording of a login.
use mathlib.Core.List.{Perm}
use alex_claw.Prelude.{◌≡◌, refl, Option, none, some, List, [], ◌∷◌, map, length}
use alex_claw.Text.{Text, text_eq, codes, lower, words}
use alex_claw.Recorder.{
  DomAction, CapturedAction, Recorder, new_recorder, captured_action, is_secret,
  is_credential_field, on_dom_action, record_all,
}
use alex_claw.Recorder.Stop.{async_stop}
use alex_claw.Recorder.Secrets.{redacted, record_all-redacted}
use alex_claw.Recorder.Results.{IsSorted, count_kind, number_of, async_stop_lem}

abbrev typed : Text → Text → Text → DomAction
typed at value input_type = record {
  timestamp = some at;
  action_type = some (codes "fill");
  description = none;
  selector = some (codes "#field");
  value = some value;
  checked = none;
  input_type = some input_type;
  autocomplete = none;
}

abbrev other_value : DomAction → Option Text
other_value a = some (codes "another")

abbrev messages : List (Text × Option DomAction)
messages =
    (codes "t2", some (typed (codes "2026-01-01T00:00:02") (codes "s3cret") (codes "Password")))
    ∷ (codes "t3", none)
    ∷ (codes "t1", some (typed (codes "2026-01-01T00:00:01") (codes "alice") (codes "text")))
    ∷ []

abbrev new_recording : Recorder
new_recording =
    new_recorder (codes "1234abcd") (codes "https://ok.example") [] (codes "/tmp/recordings")

kept_values :
    map CapturedAction.value (record_all messages new_recording).captured
    ≡ none ∷ some (codes "alice") ∷ []
unfolding record_all new_recorder captured_action on_dom_action is_secret is_credential_field lower
    words text_eq
kept_values = refl

record_all-redacted_example :
    record_all (map (λ m. (m.0, redacted other_value m.1)) messages) new_recording
    ≡ record_all messages new_recording
record_all-redacted_example = record_all-redacted other_value messages new_recording

abbrev recorded : Recorder
recorded = record_all messages new_recording

async_stop_lem_example :
    Perm (async_stop recorded).actions recorded.captured
    × IsSorted (async_stop recorded).actions
    × ((async_stop recorded).summary.captured_actions ≡ length (async_stop recorded).actions)
    × ((k : Text)
        → number_of k (async_stop recorded).summary.action_summary
          ≡ count_kind k (async_stop recorded).actions)
async_stop_lem_example = async_stop_lem recorded
