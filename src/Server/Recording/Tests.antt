-- ===== src/Server/Recording/Tests.antt =====
-- Recordings from their start to their end, and one that fails.
use alex_claw.Prelude.{◌≢◌, ◌≡◌, ◌≢◌, refl, true, false, some, []}
use alex_claw.Text.{codes}
use alex_claw.Browser.{
  Machine, new_manager, connected, launch, start_driver, launch_browser, new_context,
}
use alex_claw.Browser.Fingerprints.{Draws}
use alex_claw.Display.{Processes, new_display}
use alex_claw.Recorder.Start
use alex_claw.Server.Recording.{
  Sidecar, Opening, start_recording, begin_recording, launch_in, with_browser, with_context,
  with_page, commit, start_display, stop_recording,
}
use alex_claw.Server.Recording.Rounds.{at_rest, recording_round_trip, failed_recording}
use alex_claw.Player.Page.{perform, catch, ◌>>=◌}
use alex_claw.Server.State.{
  Response, accepted, status, force_stop, record_begin, record_commit, cleanup_context, cleanup_end,
}
use alex_claw.Server.Tests.{fresh, now, session, blank_page}

abbrev draws : Draws
draws = record {
  user_agent = 1;
  viewport = 2;
  locale = 0;
  timezone = 4;
  vendor = 0;
  renderer = 2;
  depth = 0;
  scale = 1;
  cores = 3;
}

abbrev quiet : Machine
quiet = record { is_arm = false; drivers = []; browsers = []; next = 0 }

abbrev no_processes : Processes
no_processes = record { running = []; next = 0 }

-- Everything opens.
abbrev all_open : Opening
all_open = record {
  xdpyinfo = some 0;
  driver_starts = true;
  browser_starts = true;
  context_opens = true;
  page_opens = true;
  draws = draws;
  script = [];
  page = blank_page;
}

abbrev recorded : Sidecar × Response
recorded =
    start_recording all_open session (codes "https://ok.example") now
      (at_rest fresh quiet new_display no_processes)

opening_is_accepted : recorded.1 ≡ accepted
unfolding start_recording record_begin begin_recording launch_in with_browser with_context with_page
    commit start_display launch start_driver launch_browser connected new_context Start.start
    Start.attempts Start.attempt Start.pause Start.inject_dom_recorder perform catch ◌>>=◌
opening_is_accepted = refl

recording_round_trip_example :
    let (s, answer) = stop_recording session recorded.0 in
    (answer ≡ accepted)
    × (s.manager ≡ new_manager)
    × (s.machine.drivers ≡ [])
    × (s.machine.browsers ≡ [])
    × (s.world ≡ cleanup_end (cleanup_context (record_commit session now fresh)))
recording_round_trip_example =
    recording_round_trip all_open session (codes "https://ok.example") now fresh quiet new_display
      no_processes refl (record { drivers = tt; browsers = tt }) opening_is_accepted

-- The page of the context does not open.
abbrev broken : Opening
broken = record all_open { page_opens = false }

abbrev unrecorded : Sidecar × Response
unrecorded =
    start_recording broken session (codes "https://ok.example") now
      (at_rest fresh quiet new_display no_processes)

broken_is_refused : unrecorded.1 ≢ accepted
unfolding start_recording record_begin begin_recording launch_in with_browser with_context with_page
    commit start_display launch start_driver launch_browser connected new_context
broken_is_refused = λ e. cc

failed_recording_example :
    (unrecorded.1 ≡ status 500)
    × (unrecorded.0.world ≡ fresh)
    × (connected unrecorded.0.machine unrecorded.0.manager.browser ≡ true)
    × (force_stop unrecorded.0.world ≡ (fresh, false))
failed_recording_example =
    failed_recording broken session (codes "https://ok.example") now fresh quiet new_display
      no_processes refl refl refl broken_is_refused
