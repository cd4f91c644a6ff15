-- ===== src/Server/State.antt =====
-- `AppState` and the endpoints, each cut at its `await`s: one function for each stretch of code that
-- runs without a switch to another task.
pub mod Flight
pub mod Plays
pub mod Race
use alex_claw.Prelude.{
  ℕ, suc, Bool, true, false, ◌&&◌, ◌||◌, not, Option, none, some, List, [], ◌∷◌, if◌then◌else◌, eqb,
  any, keep, map, ◌==◌,
}
use alex_claw.Text.{Text, text_eq}

pub data SessionState : Type 0 where
  idle recording playing : SessionState

-- A recorder is known by its session's id, a task by a number.
pub record AppState : Type 0 where
  pub state : SessionState
  pub session_id : Option Text
  pub started_at : Option Text
  pub recorder : Option Text
  pub context : Bool
  pub page : Bool
  pub play_id : Option Text
  pub play_task : Option ℕ
  pub play_stopping : Bool

-- A call of /play that has not returned yet, and its task.
pub record Play : Type 0 where
  pub task : ℕ
  pub play_id : Text
  pub done : Bool
  pub cancelling : Bool

pub record World : Type 0 where
  pub app : AppState
  pub plays : List Play
  pub next_task : ℕ

pub data Response : Type 0 where
  accepted : Response
  status : ℕ → Response

abbrev is_idle : SessionState → Bool
is_idle idle = true
is_idle _ = false

abbrev is_recording : SessionState → Bool
is_recording recording = true
is_recording _ = false

abbrev pub names : Option Text → Text → Bool
names none id = false
names (some s) id = s == id

-- `AppState.__init__`
abbrev pub initial : AppState
initial = record {
  state = idle;
  session_id = none;
  started_at = none;
  recorder = none;
  context = false;
  page = false;
  play_id = none;
  play_task = none;
  play_stopping = false;
}

-- `play` up to its first `await`.
pub play_begin : Text → Text → World → World × Response
play_begin id now w =
    if is_idle w.app.state
    then (
      record {
        app = record app {
          state = playing;
          session_id = some id;
          play_id = some id;
          play_stopping = false;
          started_at = some now;
          play_task = some next_task;
        };
        plays = record { task = next_task; play_id = id; done = false; cancelling = false } ∷ plays;
        next_task = suc next_task;
      },
      accepted,
    )
    else (w, status 409)
  where
    open w use {app, plays, next_task}

-- The `finally` of `play`, for the play of this id.
pub release : Text → AppState → AppState
release id app =
    if names app.play_id id
    then record app {
      state = idle;
      session_id = none;
      play_id = none;
      play_task = none;
      play_stopping = false;
    }
    else app

-- A play's task is not done.
abbrev pub is_live : ℕ → Play → Bool
is_live t p = eqb p.task t && not p.done

pub live_task : Option ℕ → List Play → Bool
live_task none ps = false
live_task (some t) ps = any (is_live t) ps

pub mark_cancelled : Option ℕ → List Play → List Play
mark_cancelled none ps = ps
mark_cancelled (some t) [] = []
mark_cancelled (some t) (p ∷ ps) =
    (if is_live t p then record p { cancelling = true } else p) ∷ mark_cancelled (some t) ps

-- `app_state.play_stopping = True; task.cancel()`
pub cancel : World → World
cancel w = record w {
  app = record w.app { play_stopping = true };
  plays = mark_cancelled w.app.play_task w.plays;
}

-- `stop_play`
pub stop_play : Text → World → World × Response
stop_play id w =
    if not (names w.app.play_id id) || not (live_task w.app.play_task w.plays)
    then (w, status 404)
    else (cancel w, accepted)

-- A task ends, by itself or cancelled.
abbrev pub end_play : ℕ → Play → Play
end_play t p = if eqb p.task t then record p { done = true } else p

pub task_done : ℕ → World → World
task_done t w = record w { plays = map (end_play t) w.plays }

-- `task.cancel()` of `_cancel_on_disconnect`.
pub disconnect : ℕ → World → World
disconnect t w = record w { plays = mark_cancelled (some t) w.plays }

pub find_done : ℕ → List Play → Option Play
find_done t [] = none
find_done t (p ∷ ps) = if eqb p.task t && p.done then some p else find_done t ps

abbrev pub without : ℕ → List Play → List Play
without t ps = keep (λ p. not (eqb p.task t)) ps

return_from : Option Play → World → World
return_from none w = w
return_from (some p) w = record w { app = release p.play_id w.app; plays = without p.task w.plays }

-- `play` behind its `await`: the task has ended, whatever the outcome.
pub play_return : ℕ → World → World
play_return t w = return_from (find_done t w.plays) w

-- `force_stop` up to its `await`: `true` says that `_cleanup` follows.
unfoldable pub force_stop : World → World × Bool
force_stop w =
    if is_idle w.app.state
    then (w, false)
    else if live_task w.app.play_task w.plays
    then (cancel w, false)
    else (w, true)

-- The first test of `start_recording`; the browser is launched behind it.
unfoldable pub record_begin : World → Response
record_begin w = if is_idle w.app.state then accepted else status 409

-- `start_recording` once the recorder has started.
unfoldable pub record_commit : Text → Text → World → World
record_commit id now w = record w {
  app = record w.app {
    state = recording;
    session_id = some id;
    started_at = some now;
    recorder = some id;
    context = true;
    page = true;
  };
}

-- The tests of `stop_recording`; `_cleanup` follows when they pass.
unfoldable pub record_stop : Text → World → Response
record_stop id w =
    if not (is_recording w.app.state)
    then status 400
    else if not (names w.app.session_id id)
    then status 404
    else accepted

-- `_cleanup` once the context is closed, and once the browser is.
pub cleanup_context : World → World
cleanup_context w = record w { app = record w.app { context = false; page = false } }

pub cleanup_end : World → World
cleanup_end w = record w { app = record w.app { state = idle; session_id = none; recorder = none } }
