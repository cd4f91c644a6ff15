-- ===== src/Server/Tests.antt =====
-- The sidecar's routes on concrete requests and interleavings.
use alex_claw.Prelude.{
  ◌≢◌, ◌≡◌, ◌≢◌, ◌↔◌, ◌⊎◌, inl, refl, ◌*◌, Option, true, false, none, some, [], ◌∷◌, ◌++◌, arith,
}
use alex_claw.Text.{Text, codes}
use alex_claw.Contract.{Recipe}
use alex_claw.Player.Page.{no_response, Page, ok}
use alex_claw.Player.Steps.Cancelling.{run-reports}
use alex_claw.Player.Steps.{Report, start, run_recipe, run}
use alex_claw.Recorder.{DomAction, Recorder, new_recorder}
use alex_claw.Models.{PlayResponse}
use alex_claw.Server.Responses.{PlayEnding, returned, report_response, play_response}
use alex_claw.Server.Responses.Plays.{play_response-success_iff}
use alex_claw.Server.Auth.{Scope, Environment, configured_token, granted, require_token}
use alex_claw.Server.Auth.Token.{require_token-granted_iff}
use alex_claw.Server.State.{
  idle, World, initial, accepted, status, play_begin, play_return, task_done, stop_play, force_stop,
  record_begin, record_stop,
}
use alex_claw.Server.State.Plays.{
  IsExclusive, begin, ends, returns, stops, forced, Reach, here, next, Running, stop_all,
}
use alex_claw.Server.State.Plays.Exclusion.{Reach-IsExclusive}
use alex_claw.Server.State.Plays.Acceptance.{stop_play_lem}
use alex_claw.Server.State.Plays.Slot.{Move, Over, slot, Reach-Move}
use alex_claw.Server.State.Race.{overtaken, overtaken_unstoppable}
use alex_claw.Server.Session.{
  Ending, Endings, cancelled, fails, is_opened, has_browser, has_driver, run_play,
}
use alex_claw.Server.Session.Cleanup.{IsClean, run_play_closes_iff}

abbrev env : Environment
env = record { token_file = codes "/run/token"; read = λ path. some (codes "s3cret\n") }

abbrev scope : Scope
scope = record { kind = codes "http"; path = codes "/play"; authorization = codes "Bearer s3cret" }

require_token-granted_iff_example : (require_token env scope ≡ granted) ↔ (
    (scope.kind ≢ codes "http")
    ⊎ (scope.path ≡ codes "/health")
    ⊎ ((configured_token env ≢ [])
        × (scope.authorization ≡ codes "Bearer" ++ 32 ∷ configured_token env)))
require_token-granted_iff_example = require_token-granted_iff env scope

abbrev pub fresh : World
fresh = record { app = initial; plays = []; next_task = 0 }

fresh-IsExclusive : IsExclusive fresh
fresh-IsExclusive = inl (ground arith)

abbrev play_a : Text
play_a = codes "play-aaaa"

abbrev pub now : Text
now = codes "2026-01-01T00:00:00"

-- A play begins, is stopped, and its call returns.
abbrev stopped : World
stopped = (stop_play play_a (play_begin play_a now fresh).0).0

stopped-Reach : Reach fresh (play_return 0 (task_done 0 stopped))
stopped-Reach =
    next
      (next
        (next (next here (begin play_a now fresh tt))
          (stops play_a (play_begin play_a now fresh).0))
        (ends 0 stopped))
      (returns 0 (task_done 0 stopped))

Reach-IsExclusive_example : IsExclusive (play_return 0 (task_done 0 stopped))
Reach-IsExclusive_example = Reach-IsExclusive fresh-IsExclusive stopped-Reach

abbrev busy : World
busy = (play_begin play_a now fresh).0

busy-IsExclusive : IsExclusive busy
busy-IsExclusive = Reach-IsExclusive fresh-IsExclusive (next here (begin play_a now fresh tt))

stop_play_lem_example :
    (((stop_play play_a busy).1 ≡ accepted) ↔ Running play_a busy)
    × ((stop_play play_a busy).1 ≢ accepted
        → ((stop_play play_a busy).1 ≡ status 404) × ((stop_play play_a busy).0 ≡ busy))
stop_play_lem_example = stop_play_lem play_a busy busy-IsExclusive

-- The play's task has ended, and POST /stop comes before its call returns.
Reach-Move_example :
    Move
      (Over (task_done 0 stopped))
      (slot (task_done 0 stopped))
      (slot (stop_all (task_done 0 stopped)))
Reach-Move_example =
    Reach-Move fresh-IsExclusive
      (next
        (next (next here (begin play_a now fresh tt))
          (stops play_a (play_begin play_a now fresh).0))
        (ends 0 stopped))
      (forced (task_done 0 stopped))

abbrev pub session : Text
session = codes "1234abcd"

overtaken_unstoppable_example :
    (record_begin fresh ≡ accepted)
    × ((play_begin play_a now fresh).1 ≡ accepted)
    × ((overtaken session play_a now now fresh).app.state ≡ idle)
    × ((overtaken session play_a now now fresh).app.recorder ≡ some session)
    × ((overtaken session play_a now now fresh).app.context ≡ true)
    × (record_stop session (overtaken session play_a now now fresh) ≡ status 400)
    × (force_stop (overtaken session play_a now now fresh)
        ≡ (overtaken session play_a now now fresh, false))
overtaken_unstoppable_example = overtaken_unstoppable session play_a now now fresh refl refl

-- The browser does not start, and stopping the proxy is cancelled.
abbrev unlucky : Endings
unlucky = record {
  start = Ending.returns;
  driver = Ending.returns;
  browser = fails;
  context = Ending.returns;
  page = Ending.returns;
  recipe = Ending.returns;
  close_context = cancelled;
  close_browser = Ending.returns;
  stop_driver = Ending.returns;
  stop_proxy = cancelled;
}

run_play_closes_iff_example : IsClean unlucky (run_play unlucky) ↔ (
    (is_opened unlucky ≡ true → unlucky.close_context ≢ cancelled)
    × (has_browser unlucky ≡ true → unlucky.close_browser ≢ cancelled)
    × (has_driver unlucky ≡ true → unlucky.stop_driver ≢ cancelled)
    × (unlucky.stop_proxy ≡ Ending.returns))
run_play_closes_iff_example = run_play_closes_iff unlucky

-- A page that takes its last screenshot at once, and a recipe without steps.
abbrev pub blank_page : Page
blank_page = record {
  raises = λ t call. none;
  cancels = λ t. false;
  url = λ t. codes "https://ok.example/";
  loaded = λ t. no_response;
  present = λ t. true;
  visible = λ t. true;
  tag = λ t. codes "INPUT";
  downloaded = λ t. none;
  widget = λ t. record {
    jquery = true;
    raised = none;
    found = true;
    is_grid = true;
    rows = [];
    columns = none;
  };
  document = λ t. record { tables = λ s. []; grids = []; containers = λ s. [] };
  frames = λ t. [];
  text = λ t. [];
  time = λ t. t * 10;
  stamp = λ t. codes "20260101_000000";
  today = λ t. codes "01/01/2026";
  yesterday = λ t. codes "31/12/2025";
}

abbrev nothing : Recipe
nothing = record { url = []; steps = [] }

abbrev blank_report : (report : Report) × ((run (codes "/tmp") blank_page nothing).0 ≡ ok report)
blank_report = run-reports (codes "/tmp") blank_page nothing (λ t. refl)

play_response-success_iff_example :
    let answer = report_response blank_report.0 in
    let ran = ((run_recipe (codes "/tmp") blank_page nothing start).0 ≡ ok tt) in
    (play_response 5000 (returned blank_report.0) ≡ some answer)
    × ((answer.status ≡ codes "success") ↔ ran)
    × ((answer.error ≡ none) ↔ ran)
    × ((answer.output ≢ none) ↔ ran)
    × ((ending : PlayEnding) (other : PlayResponse)
        → play_response 5000 ending ≡ some other
        → (other.status ≡ codes "success") ⊎ (other.error ≡ none)
        → (r : Report) × (ending ≡ returned r))
play_response-success_iff_example =
    play_response-success_iff 5000 (codes "/tmp") blank_page nothing blank_report.0 blank_report.1

abbrev password_message : Text × Option DomAction
password_message = (
  codes "2026-01-01T00:00:02",
  some record {
    timestamp = some (codes "2026-01-01T00:00:01");
    action_type = some (codes "fill");
    description = none;
    selector = some (codes "#pw");
    value = some (codes "s3cret");
    checked = none;
    input_type = some (codes "password");
    autocomplete = none;
  },
)

abbrev recording : Recorder
recording =
    new_recorder (codes "1234abcd") (codes "https://ok.example") [] (codes "/tmp/recordings")
