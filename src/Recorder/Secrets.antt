-- ===== src/Recorder/Secrets.antt =====
-- What the recorder keeps of a credential that is typed while recording.
use alex_claw.Prelude.{
  ◌≡◌, refl, true, Option, none, some, List, [], ◌∷◌, map, All, All-append, contains, arith,
  if◌then◌else◌, ap, ◌∙◌,
}
use alex_claw.Text.{Text, text_eq}
use alex_claw.Recorder.{
  DomAction, CapturedAction, Recorder, actions, is_replayable, is_secret, captured_action,
  on_dom_action, record_all,
}

-- The message with another value in it, if it fills a credential field.
abbrev pub redacted : (DomAction → Option Text) → Option DomAction → Option DomAction
redacted other none = none
redacted other (some a) = some (if is_secret a then record a { value = other a } else a)

redacted-captured :
    (now : Text) (a : DomAction) (v : Option Text)
    → is_secret a ≡ true
    → captured_action now (record a { value = v }) ≡ captured_action now a
unfolding captured_action is_secret
redacted-captured now a v h = rw h refl

on_dom_action-redacted :
    (other : DomAction → Option Text) (now : Text) (m : Option DomAction) (r : Recorder)
    → on_dom_action now (redacted other m) r ≡ on_dom_action now m r
unfolding on_dom_action
on_dom_action-redacted other now none r = refl
on_dom_action-redacted other now (some a) r = ground (arith, redacted-captured now a (other a))

-- Whatever values the page sends for credential fields, the recording is the same.
pub record_all-redacted :
    (other : DomAction → Option Text) (ms : List (Text × Option DomAction)) (r : Recorder)
    → record_all (map (λ m. (m.0, redacted other m.1)) ms) r ≡ record_all ms r
unfolding record_all
record_all-redacted other [] r = refl
record_all-redacted other ((now, m) ∷ ms) r =
    ap (record_all (map (λ m. (m.0, redacted other m.1)) ms)) (on_dom_action-redacted other now m r)
    ∙ record_all-redacted other ms (on_dom_action now m r)

-- An action that a recipe can replay, with no value if it is marked as a secret.
pub record IsKept (c : CapturedAction) : Type 0 where
  pub replayable : contains actions c.action_type ≡ true
  pub no_value : c.secret ≡ some true → c.value ≡ none

captured_action-IsKept :
    (now : Text) (a : DomAction)
    → is_replayable a.action_type ≡ true
    → IsKept (captured_action now a)
unfolding captured_action
captured_action-IsKept now a h = ground arith

on_dom_action-IsKept :
    (now : Text) (m : Option DomAction) (r : Recorder)
    → All IsKept r.captured
    → All IsKept (on_dom_action now m r).captured
unfolding on_dom_action
on_dom_action-IsKept now none r h = h
on_dom_action-IsKept now (some a) r h = ground (
  arith,
  captured_action-IsKept now a,
  λ (k : IsKept (captured_action now a)).
      All-append IsKept r.captured (captured_action now a ∷ []) h (k, tt),
)

-- If it is so of what was captured before, everything that a recording has captured after the
-- page's messages can be replayed, and what is marked as a secret has no value.
pub record_all-IsKept :
    (ms : List (Text × Option DomAction)) (r : Recorder)
    → All IsKept r.captured
    → All IsKept (record_all ms r).captured
unfolding record_all
record_all-IsKept [] r h = h
record_all-IsKept ((now, m) ∷ ms) r h =
    record_all-IsKept ms (on_dom_action now m r) (on_dom_action-IsKept now m r h)
