-- ===== src/Server/State/Race.antt =====
-- `start_recording` tests the state before it launches the browser and writes it after: a play that
-- begins in between is not seen.
use alex_claw.Prelude.{◌≡◌, true, false, none, some, [], arith, ==_iff}
use alex_claw.Text.{Text, text_eq}
use alex_claw.Server.State.{
  idle, World, accepted, status, play_begin, play_return, task_done, record_begin, record_commit,
  record_stop, force_stop, cleanup_context, cleanup_end, find_done, return_from, release,
}

-- POST /record passes its test, a play begins, the recording is set up, and the play ends.
abbrev pub overtaken : Text → Text → Text → Text → World → World
overtaken session play now later w =
    play_return w.next_task
      (task_done w.next_task (record_commit session later (play_begin play now w).0))

-- From any idle state with no play in flight, when a play begins while a recording is being set up,
-- and ends once it is set up: both requests are accepted and the state ends idle although the
-- recorder and its browser context are still there. The recording cannot be stopped: its own stop
-- is a 400, and POST /stop finds nothing to stop.
pub overtaken_unstoppable :
    (session play now later : Text) (w : World)
    → w.app.state ≡ idle
    → w.plays ≡ []
    → (record_begin w ≡ accepted)
      × ((play_begin play now w).1 ≡ accepted)
      × ((overtaken session play now later w).app.state ≡ idle)
      × ((overtaken session play now later w).app.recorder ≡ some session)
      × ((overtaken session play now later w).app.context ≡ true)
      × (record_stop session (overtaken session play now later w) ≡ status 400)
      × (force_stop (overtaken session play now later w)
          ≡ (overtaken session play now later w, false))
unfolding record_begin play_begin record_commit task_done play_return record_stop force_stop
    find_done return_from release
overtaken_unstoppable session play now later w h e = ground (arith, ==_iff play play)

-- A recording that has been set up, with no play in between, can be stopped, and when its cleanup
-- has ended the state is idle, with no session, recorder, context or page.
pub record_round_trip :
    (session now : Text) (w : World)
    → (record_stop session (record_commit session now w) ≡ accepted)
      × (cleanup_end (cleanup_context (record_commit session now w)) ≡ record w {
        app = record w.app {
          state = idle;
          session_id = none;
          started_at = some now;
          recorder = none;
          context = false;
          page = false;
        };
      })
unfolding record_commit record_stop cleanup_context cleanup_end
record_round_trip session now w = ground (arith, ==_iff session session)
