-- ===== src/Recorder/Script/Replay.antt =====
-- The script's messages as steps of a recipe.
use alex_claw.Prelude.{
  ◌≡◌, ◌≢◌, ◌↔◌, ◌⊎◌, refl, true, false, none, some, [], ◌∷◌, ◌++◌, contains, is_empty, arith, inl,
  inr,
}
use mathlib.Core.List.{append-nil}
use alex_claw.Text.{Text, text_eq, codes, lower}
use alex_claw.Recorder.{
  DomAction, CapturedAction, Recorder, actions, captured_action, on_dom_action,
}
use alex_claw.Recorder.Script.{
  Element, classes, by_class, best_selector, change_type, on_change, on_click,
}

append-ne-nil : (s t : Text) → s ≢ [] → is_empty (s ++ t) ≡ false
append-ne-nil [] t h = absurd (h refl)
append-ne-nil (c ∷ s) t h = refl

lower-ne-nil : (s : Text) → s ≢ [] → lower s ≢ []
unfolding lower
lower-ne-nil [] h = h
lower-ne-nil (c ∷ s) h = λ e. cc

best_selector-ne-nil : (el : Element) → el.tag_name ≢ [] → is_empty (best_selector el) ≡ false
unfolding best_selector by_class
best_selector-ne-nil el h = ground (
  arith,
  append-ne-nil (lower el.tag_name) (codes "[name=\"" ++ (el.name ++ codes "\"]"))
      (lower-ne-nil el.tag_name h),
  append-ne-nil (lower el.tag_name) (codes "." ++ classes el.class_name)
      (lower-ne-nil el.tag_name h),
  append-ne-nil (lower el.tag_name) [] (lower-ne-nil el.tag_name h),
  append-nil (lower el.tag_name),
)

-- What the script sends: one of four kinds of action with a selector, and a check with its state.
record IsMessage (m : DomAction) : Type 0 where
  kind :
      (m.action_type ≡ some (codes "fill"))
      ⊎ (m.action_type ≡ some (codes "select"))
      ⊎ (m.action_type ≡ some (codes "click"))
      ⊎ ((m.action_type ≡ some (codes "check")) × (m.checked ≢ none))
  selected : (s : Text) × (m.selector ≡ some s) × (is_empty s ≡ false)

change-IsMessage :
    (time : Text) (el : Element) (m : DomAction)
    → el.tag_name ≢ []
    → on_change time el ≡ some m
    → IsMessage m
unfolding on_change change_type
change-IsMessage time el m h e = record {
  kind = ground arith;
  selected = (best_selector el, ground arith, best_selector-ne-nil el h);
}

click-IsMessage :
    (time : Text) (el : Element) (m : DomAction)
    → el.tag_name ≢ []
    → on_click time (some el) ≡ some m
    → IsMessage m
unfolding on_click
click-IsMessage time el m h e = record {
  kind = ground arith;
  selected = (best_selector el, ground arith, best_selector-ne-nil el h);
}

-- A captured action that a recipe has a step for.
abbrev pub IsStep : CapturedAction → Type 0
IsStep c =
    (contains actions c.action_type ≡ true)
    × ((s : Text) × (c.selector ≡ some s) × (is_empty s ≡ false))
    × ((c.checked ≢ none) ↔ (c.action_type ≡ codes "check"))

kept_message :
    (now : Text) (m : DomAction) (r : Recorder)
    → IsMessage m
    → (on_dom_action now (some m) r
        ≡ record r { captured = r.captured ++ captured_action now m ∷ [] })
      × IsStep (captured_action now m)
unfolding on_dom_action captured_action text_eq
kept_message now m r h =
    let (s, named, full) = h.selected in
    (ground arith, (ground arith, (s, named, full), ground arith))

-- Every message that the script in the page sends for a change or a click on an element with a tag
-- name is kept by the recorder as one action, which has the form of a step of a recipe: its type is
-- an action of the contract, it has a selector, which is not empty, and it says whether a box is
-- checked exactly when it is a check.
pub message-IsStep :
    (time now : Text) (el : Element) (m : DomAction) (r : Recorder)
    → el.tag_name ≢ []
    → (on_change time el ≡ some m) ⊎ (on_click time (some el) ≡ some m)
    → (on_dom_action now (some m) r
        ≡ record r { captured = r.captured ++ captured_action now m ∷ [] })
      × IsStep (captured_action now m)
message-IsStep time now el m r h (inl e) = kept_message now m r (change-IsMessage time el m h e)
message-IsStep time now el m r h (inr e) = kept_message now m r (click-IsMessage time el m h e)
