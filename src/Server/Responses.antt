-- ===== src/Server/Responses.antt =====
-- What the routes answer.
pub mod Plays
pub mod Slots
use alex_claw.Prelude.{ℕ, Option, none, some, List, [], ◌∷◌, ◌++◌, map}
use alex_claw.Text.{Text, codes}
use alex_claw.Text.Number.{decimal}
use alex_claw.Recorder.{CapturedAction}
use alex_claw.Recorder.Stop.{StopResults}
use alex_claw.Player.Steps.{Status, Report}
use alex_claw.Models
use alex_claw.Display.{novnc_url}
use alex_claw.Models.{
  RecordStartResponse, RecordStopResponse, PlayResponse, StatusResponse, HealthResponse,
}
use alex_claw.Server.State.{AppState}

-- `models.CapturedAction` of a recorder's action: a key that the class does not declare is dropped, as
-- pydantic does by default.
pub response_action : CapturedAction → Models.CapturedAction
response_action c = record {
  timestamp = c.timestamp;
  action_type = c.action_type;
  description = c.description;
  selector = c.selector;
  value = c.value;
  checked = c.checked;
  url = none;
  post_data = none;
  headers = none;
}

-- What `start_recording` answers, with the port of noVNC.
pub start_response : Text → ℕ → RecordStartResponse
start_response session_id port = record { session_id = session_id; novnc_url = novnc_url port }

-- What `stop_recording` answers.
pub stop_response : StopResults → RecordStopResponse
stop_response results = record {
  actions = map response_action results.actions;
  downloads = results.downloads;
  summary = results.summary;
}

-- How `await asyncio.wait_for(task, …)` ends in `play`: with the run's report, with an exception of
-- the task and its message, past the deadline, with the task cancelled, or with `play` itself
-- cancelled.
pub data PlayEnding : Type 0 where
  returned : Report → PlayEnding
  failed : Text → PlayEnding
  timed_out stopped aborted : PlayEnding

abbrev status_text : Status → Text
status_text Status.success = codes "success"
status_text Status.error = codes "error"

abbrev output_text : Option ℕ → Option Text
output_text none = none
output_text (some n) = some (codes "Completed " ++ (decimal n ++ codes " steps"))

abbrev bare : Text → Text → PlayResponse
bare status error = record {
  status = status;
  output = none;
  downloads = [];
  screenshots = [];
  scraped_data = [];
  error = some error;
}

-- `PlayResponse(**result)`
pub report_response : Report → PlayResponse
report_response r = record {
  status = status_text r.status;
  output = output_text r.output;
  downloads = r.downloads;
  screenshots = r.screenshots;
  scraped_data = r.scraped;
  error = r.error;
}

-- What `play` answers; `none` is the `CancelledError` that goes on.
pub play_response : ℕ → PlayEnding → Option PlayResponse
play_response deadline_ms (returned r) = some (report_response r)
play_response deadline_ms (failed message) = some (bare (codes "error") message)
play_response deadline_ms timed_out =
    some (
      bare (codes "timeout")
        (codes "deadline of " ++ (decimal deadline_ms ++ codes " ms exceeded")))
play_response deadline_ms stopped =
    some (bare (codes "stopped") (codes "stopped before it finished"))
play_response deadline_ms aborted = none

-- `status`
pub status_response : AppState → StatusResponse
status_response app = record {
  state = app.state;
  session_id = app.session_id;
  play_id = app.play_id;
  started_at = app.started_at;
  progress = none;
}

-- `health`
pub health_response : HealthResponse
health_response = record { status = codes "ok"; version = codes "1.0.0" }
