-- ===== src/Player/Steps/Dicts.antt =====
-- `_run_step` as it reads a step: a `dict` that pydantic's `model_dump(exclude_none=True)` makes of a
-- step of the contract (main.py's `play`).
use mathlib.Core.Path.{fun_ext}
use alex_claw.Prelude.{
  ℕ, suc, String, ◌≡◌, refl, ap, ◌∙◌, Bool, false, Option, none, some, List, [], ◌∷◌, ◌++◌, map,
  ◌==◌, arith, if◌then◌else◌, is_empty,
}
use alex_claw.Text.{Text, text_eq, codes}
use alex_claw.Text.Number.{decimal}
use alex_claw.Contract.{Step}
use alex_claw.Player.Page.{Page, presses, sleeps, Action, pure, raise, perform, ◌>>◌}
use alex_claw.Player.Actions.{runtime_error, navigate, fill, click, select, check}
use alex_claw.Player.Steps.{
  text_or, wait_for_download, scrape, extract_grid, scrape_text, take_screenshot, run_step,
  run_steps,
}

-- What a field holds; seconds are counted in thousandths.
pub data Value : Type 0 where
  text : Text → Value
  number : ℕ → Value
  flag : Bool → Value

abbrev pub Dict : Type 0
Dict = List (Text × Value)

-- `d.get(k)`
pub get : Dict → Text → Option Value
get [] k = none
get ((j, v) ∷ d) k = if j == k then some v else get d k

abbrev timed : Option ℕ → Dict
timed none = []
timed (some ms) = (codes "timeout_ms", number ms) ∷ []

abbrev optional : Text → Option Text → Dict
optional k none = []
optional k (some s) = (k, text s) ∷ []

abbrev flagged : Option Bool → Dict
flagged none = []
flagged (some b) = (codes "full_page", flag b) ∷ []

abbrev action : String → Text × Value
action name = (codes "action", text (codes name))

abbrev selected : Text → Text × Value
selected selector = (codes "selector", text selector)

-- The fields of the step classes that are not `None`, by their names.
pub fields : Step → Dict
fields (Step.navigate url t) = action "navigate" ∷ (codes "url", text url) ∷ timed t
fields (Step.click selector t) = action "click" ∷ selected selector ∷ timed t
fields (Step.fill selector value date origin t) =
    action "fill"
      ∷ selected selector
      ∷ (codes "value", text value)
      ∷ (if date then (codes "input_type", text (codes "date")) ∷ [] else [])
    ++ (optional (codes "origin") origin ++ timed t)
fields (Step.select selector value t) =
    action "select" ∷ selected selector ∷ (codes "value", text value) ∷ timed t
fields (Step.check selector checked t) =
    action "check" ∷ selected selector ∷ (codes "checked", flag checked) ∷ timed t
fields (Step.wait ms t) = action "wait" ∷ (codes "seconds", number ms) ∷ timed t
fields (Step.keyboard key t) = action "keyboard" ∷ (codes "key", text key) ∷ timed t
fields (Step.download selector t) = action "download" ∷ selected selector ∷ timed t
fields (Step.scrape selector t) = action "scrape" ∷ optional (codes "selector") selector ++ timed t
fields (Step.scrape_text selector t) =
    action "scrape_text" ∷ optional (codes "selector") selector ++ timed t
fields (Step.extract_grid selector t) = action "extract_grid" ∷ selected selector ∷ timed t
fields (Step.screenshot name full t) =
    action "screenshot" ∷ optional (codes "name") name ++ (flagged full ++ timed t)

-- `other` is what the code does with a value of another type than the contract's, or without a key
-- that the contract requires.
module _ (dir : Text) (page : Page) (other : Action Unit) where
  with_text : Option Value → Text → (Text → Action Unit) → Action Unit
  with_text none default k = k default
  with_text (some (text s)) default k = k s
  with_text (some _) default k = other

  with_required : Option Value → (Text → Action Unit) → Action Unit
  with_required (some (text s)) k = k s
  with_required _ k = other

  with_optional : Option Value → (Option Text → Action Unit) → Action Unit
  with_optional none k = k none
  with_optional (some (text s)) k = k (some s)
  with_optional (some _) k = other

  with_number : Option Value → ℕ → (ℕ → Action Unit) → Action Unit
  with_number none default k = k default
  with_number (some (number n)) default k = k n
  with_number (some _) default k = other

  with_seconds : Option Value → (ℕ → Action Unit) → Action Unit
  with_seconds (some (number n)) k = k n
  with_seconds _ k = other

  with_flag : Option Value → (Bool → Action Unit) → Action Unit
  with_flag (some (flag b)) k = k b
  with_flag _ k = other

  -- `bool(…)`
  with_switch : Option Value → (Bool → Action Unit) → Action Unit
  with_switch none k = k false
  with_switch (some (flag b)) k = k b
  with_switch (some _) k = other

  -- `input_type == "date"`
  abbrev is_date : Option Text → Bool
  is_date none = false
  is_date (some s) = s == codes "date"

  -- `_run_step` on what `step.get` answers; the name of the action is known.
  act : ℕ → (Text → Option Value) → Text → Text → ℕ → Action Unit
  act i step name selector timeout =
      if name == codes "navigate"
      then with_required (step (codes "url")) (navigate page)
      else if name == codes "fill"
      then with_text (step (codes "value")) [] (λ value.
        with_optional (step (codes "input_type")) (λ input_type.
          with_optional (step (codes "origin"))
            (λ origin. fill page selector value (is_date input_type) timeout origin)))
      else if name == codes "select"
      then with_text (step (codes "value")) [] (λ value. select page selector value timeout)
      else if name == codes "check"
      then with_flag (step (codes "checked")) (λ checked. check page selector checked timeout)
      else if name == codes "click"
      then click page selector timeout
      else if name == codes "download"
      then with_number (step (codes "timeout_ms")) 120000 (wait_for_download dir page selector)
      else if name == codes "wait"
      then with_seconds (step (codes "seconds")) (λ ms. perform page (sleeps ms))
      else if name == codes "keyboard"
      then with_required (step (codes "key"))
          (λ key. perform page (presses key) >> perform page (sleeps 500))
      else if name == codes "scrape"
      then scrape dir page (if is_empty selector then codes "table" else selector)
      else if name == codes "extract_grid"
      then extract_grid dir page selector
      else if name == codes "scrape_text"
      then scrape_text dir page selector
      else if name == codes "screenshot"
      then with_optional (step (codes "name")) (λ file.
        with_switch (step (codes "full_page"))
          (take_screenshot dir page (text_or file (codes "step_" ++ decimal i))))
      else raise (runtime_error (codes "unknown action: " ++ name))

  pub run_dict : ℕ → (Text → Option Value) → Action Unit
  run_dict i step = with_text (step (codes "action")) [] (λ name.
      with_text (step (codes "selector")) []
        (λ selector. with_number (step (codes "timeout_ms")) 30000 (act i step name selector)))

  -- The loop of `run` over the dictionaries of a recipe.
  pub run_dicts : ℕ → List Dict → Action Unit
  run_dicts i [] = pure tt
  run_dicts i (step ∷ steps) = run_dict i (get step) >> run_dicts (suc i) steps

  run_fields : (i : ℕ) (s : Step) → run_dict i (get (fields s)) ≡ run_step dir page i s
  unfolding run_dict act get fields run_step with_text with_required with_optional with_number
      with_seconds with_flag with_switch text_eq
  run_fields i (Step.navigate url t) = ground arith
  run_fields i (Step.click selector t) = ground arith
  run_fields i (Step.fill selector value date origin t) = ground arith
  run_fields i (Step.select selector value t) = ground arith
  run_fields i (Step.check selector checked t) = ground arith
  run_fields i (Step.wait ms t) = ground arith
  run_fields i (Step.keyboard key t) = ground arith
  run_fields i (Step.download selector t) = ground arith
  run_fields i (Step.scrape selector t) = ground arith
  run_fields i (Step.scrape_text selector t) = ground arith
  run_fields i (Step.extract_grid selector t) = ground arith
  run_fields i (Step.screenshot name full t) = ground arith

  -- When a step of the contract is dumped into a dictionary that answers for each key what the
  -- field of that name holds, if it is not None: the loop of the player over the dictionaries does
  -- what it does over the steps, whatever it would do with a value of another type.
  pub run_dicts-dump :
      (dump : Step → Dict)
      → ((s : Step) (k : Text) → get (dump s) k ≡ get (fields s) k)
      → (i : ℕ) (steps : List Step) → run_dicts i (map dump steps) ≡ run_steps dir page i steps
  unfolding run_dicts run_steps
  run_dicts-dump dump same i [] = refl
  run_dicts-dump dump same i (s ∷ steps) =
      let step : run_dict i (get (dump s)) ≡ run_step dir page i s =
        ap (run_dict i) (fun_ext (same s)) ∙ run_fields i s in
      rw (step, run_dicts-dump dump same (suc i) steps) refl
