-- ===== src/Recorder/Script/Logins.antt =====
-- A credential field, from the page to the recording.
use alex_claw.Prelude.{
  ◌≡◌, refl, sym, ◌∙◌, true, false, none, some, [], ◌∷◌, ◌++◌, any, contains, arith, ==_iff,
}
use alex_claw.Text.{Text, text_eq, codes, lower, is_space}
use alex_claw.Js.{or_empty}
use alex_claw.Js.Laws.{any-split_runs}
use alex_claw.Recorder.{
  DomAction, CapturedAction, Recorder, credential_autocomplete, is_credential_field, is_secret,
  captured_action, on_dom_action,
}
use alex_claw.Recorder.Script.{
  Element, is_checkbox, is_select, is_field, best_selector, is_credential, change_type, change_word,
  on_change,
}

token_no_space : (t : Text) → any is_space t ≡ true → contains credential_autocomplete t ≡ false
token_no_space t h = ground (
  arith,
  ==_iff t (codes "current-password"),
  ==_iff t (codes "new-password"),
  ==_iff t (codes "one-time-code"),
)

no_empty_token : contains credential_autocomplete [] ≡ false
unfolding text_eq
no_empty_token = refl

lower-lower : (s : Text) → lower (lower s) ≡ lower s
unfolding lower
lower-lower [] = refl
lower-lower (c ∷ s) = ground (arith, lower-lower s)

-- What the script takes for a credential field, the recorder does too.
is_credential-field :
    (el : Element)
    → is_credential el ≡ true
    → is_credential_field
        (some (lower (or_empty el.type)))
        (some (lower (or_empty el.autocomplete)))
      ≡ true
unfolding is_credential is_credential_field
is_credential-field el h =
    rw (lower-lower (or_empty el.type), lower-lower (or_empty el.autocomplete))
      (ground (
        arith,
        any-split_runs (contains credential_autocomplete) token_no_space no_empty_token
            (lower (or_empty el.autocomplete)),
      ))

best_selector-value :
    (el : Element) (v : Text)
    → is_checkbox el ≡ false
    → best_selector (record el { value = v }) ≡ best_selector el
unfolding best_selector
best_selector-value el v h = ground arith

-- What a recording has of a login.
abbrev pub slot : Text → Element → CapturedAction
slot time el = record {
  timestamp = time;
  action_type = codes "fill";
  description = codes "Fill " ++ best_selector el;
  selector = some (best_selector el);
  value = none;
  checked = none;
  secret = some true;
}

-- The message of a login.
abbrev login : Text → Element → DomAction
login time el = record {
  timestamp = some time;
  action_type = some (codes "fill");
  description = some (codes "Fill " ++ best_selector el);
  selector = some (best_selector el);
  value = none;
  checked = none;
  input_type = some (lower (or_empty el.type));
  autocomplete = some (lower (or_empty el.autocomplete));
}

change-login :
    (time : Text) (el : Element)
    → is_field el ≡ true
    → is_checkbox el ≡ false
    → is_select el ≡ false
    → is_credential el ≡ true
    → on_change time el ≡ some (login time el)
unfolding on_change change_type change_word
change-login time el field no_box no_list secret = ground arith

kept_login :
    (time now : Text) (el : Element) (r : Recorder)
    → is_credential_field
        (some (lower (or_empty el.type)))
        (some (lower (or_empty el.autocomplete)))
      ≡ true
    → on_dom_action now (some (login time el)) r
      ≡ record r { captured = r.captured ++ slot time el ∷ [] }
unfolding on_dom_action captured_action is_secret text_eq
kept_login time now el r h = ground arith

-- A change of a login field that is typed into, by the test of the script in the page: the message
-- that the script sends is the same for every value, and the recorder keeps it as one fill of that
-- field without a value, marked as a secret.
pub change-slot :
    (time now : Text) (el : Element) (r : Recorder)
    → is_field el ≡ true
    → is_checkbox el ≡ false
    → is_select el ≡ false
    → is_credential el ≡ true
    → ((v : Text) → on_change time (record el { value = v }) ≡ on_change time el)
      × (on_dom_action now (on_change time el) r
          ≡ record r { captured = r.captured ++ slot time el ∷ [] })
unfolding is_credential
change-slot time now el r field no_box no_list secret = (
  λ v.
      change-login time (record el { value = v }) field no_box no_list secret
      ∙ rw (best_selector-value el v no_box)
          (sym (change-login time el field no_box no_list secret)),
  rw (change-login time el field no_box no_list secret)
      (kept_login time now el r (is_credential-field el secret)),
)
