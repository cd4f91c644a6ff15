-- ===== src/Recorder/Script/Tests.antt =====
-- What the script sends of a password and of a box.
use alex_claw.Prelude.{◌≡◌, refl, true, false, none, some, [], ◌∷◌, ◌++◌, inl}
use alex_claw.Text.{Text, text_eq, codes, lower}
use alex_claw.Js.{split_runs}
use alex_claw.Recorder.{DomAction, Recorder, new_recorder, captured_action, on_dom_action}
use alex_claw.Recorder.Script.{
  Element, is_credential, on_change, best_selector, change_type, change_word, is_field, is_select,
  is_checkbox,
}
use alex_claw.Recorder.Script.Logins.{slot, change-slot}
use alex_claw.Recorder.Script.Replay.{IsStep, message-IsStep}

abbrev new_recording : Recorder
new_recording =
    new_recorder (codes "1234abcd") (codes "https://ok.example") [] (codes "/tmp/recordings")

abbrev password_field : Element
password_field = record {
  tag_name = codes "INPUT";
  id = [];
  name = codes "pw";
  type = some (codes "Password");
  class_name = none;
  autocomplete = none;
  value = codes "s3cret";
  checked = false;
  text = none;
}

password_is_credential : is_credential password_field ≡ true
unfolding is_credential lower text_eq
password_is_credential = refl

abbrev at : Text
at = codes "2026-01-01T00:00:03"

password_is_field : is_field password_field ≡ true
unfolding text_eq
password_is_field = refl

password_no_box : is_checkbox password_field ≡ false
unfolding text_eq
password_no_box = refl

password_no_list : is_select password_field ≡ false
unfolding text_eq
password_no_list = refl

change-slot_example :
    ((v : Text) → on_change at (record password_field { value = v }) ≡ on_change at password_field)
    × (on_dom_action (codes "t4") (on_change at password_field) new_recording
        ≡ record new_recording { captured = new_recording.captured ++ slot at password_field ∷ [] })
change-slot_example =
    change-slot at (codes "t4") password_field new_recording password_is_field password_no_box
      password_no_list password_is_credential

abbrev choice : Element
choice = record password_field {
  type = some (codes "checkbox");
  value = codes "yes";
  checked = true;
}

abbrev choice_message : DomAction
choice_message = record {
  timestamp = some at;
  action_type = some (codes "check");
  description = some (codes "Check input[name=\"pw\"][value=\"yes\"]");
  selector = some (codes "input[name=\"pw\"][value=\"yes\"]");
  value = some (codes "yes");
  checked = some true;
  input_type = some (codes "checkbox");
  autocomplete = some [];
}

choice_is_sent : on_change at choice ≡ some choice_message
unfolding on_change best_selector change_type change_word is_credential lower split_runs text_eq
choice_is_sent = refl

message-IsStep_example :
    (on_dom_action (codes "t4") (some choice_message) new_recording ≡ record new_recording {
      captured = new_recording.captured ++ captured_action (codes "t4") choice_message ∷ [];
    })
    × IsStep (captured_action (codes "t4") choice_message)
message-IsStep_example =
    message-IsStep at (codes "t4") choice choice_message new_recording (λ e. cc)
      (inl choice_is_sent)
