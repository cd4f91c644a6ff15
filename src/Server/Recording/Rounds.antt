-- ===== src/Server/Recording/Rounds.antt =====
-- What a recording leaves of its browser.
use alex_claw.Prelude.{◌≡◌, ◌≢◌, refl, ap, sym, ◌∙◌, true, false, Option, none, arith, ==_iff}
use alex_claw.Text.{Text, text_eq}
use alex_claw.Browser.{
  Browser, BrowserManager, Machine, new_manager, connected, launch_browser, start_driver, launch,
}
use alex_claw.Browser.Drivers.{IsFresh, close-launch}
use alex_claw.Display.{DisplayManager, Processes}
use alex_claw.Server.State.{
  idle, World, Response, accepted, status, record_begin, record_commit, record_stop, force_stop,
  cleanup_context, cleanup_end,
}
use alex_claw.Server.Recording.{
  Sidecar, Opening, commit, with_page, with_context, with_browser, launch_in, start_display,
  begin_recording, start_recording, cleanup, stop_when, stop_recording,
}

-- Behind the launch only the routes' state changes, and only by an accepted answer.
abbrev Committed : Text → Text → Sidecar → Sidecar × Response → Type 0
Committed id now s (t, status n) = (n ≡ 500) × (t ≡ s)
Committed id now s (t, accepted) = t ≡ record s { world = record_commit id now s.world }

with_browser-Committed :
    (o : Opening) (id url now : Text) (b : Option Browser) (s : Sidecar)
    → Committed id now s (with_browser o id url now b s)
unfolding with_browser with_context with_page commit
with_browser-Committed o id url now b s = ground arith

-- A sidecar whose browser manager holds nothing.
abbrev pub at_rest : World → Machine → DisplayManager → Processes → Sidecar
at_rest w h d p = record {
  world = w;
  manager = new_manager;
  machine = h;
  display = d;
  processes = p;
}

-- The launch of a recording, from rest.
abbrev launched : Opening → Machine → BrowserManager × Machine × Option Browser
launched o h = launch o.draws o.driver_starts o.browser_starts false none new_manager h

abbrev after_launch : Opening → World → Machine → DisplayManager → Processes → Sidecar
after_launch o w h d p = record (start_display o.xdpyinfo (at_rest w h d p)) {
  manager = (launched o h).0;
  machine = (launched o h).1;
}

begins :
    (o : Opening) (id url now : Text) (w : World) (h : Machine) (d : DisplayManager) (p : Processes)
    → w.app.state ≡ idle
    → start_recording o id url now (at_rest w h d p)
      ≡ with_browser o id url now (launched o h).2 (after_launch o w h d p)
unfolding start_recording record_begin begin_recording launch_in start_display
begins o id url now w h d p rest = ground arith

-- An answer that is accepted: the state of the routes after it, and nothing else beside the launch.
accepted-Committed :
    (id now : Text) (s : Sidecar) (a : Sidecar × Response)
    → Committed id now s a
    → a.1 ≡ accepted
    → a.0 ≡ record s { world = record_commit id now s.world }
accepted-Committed id now s (t, status n) c e = absurd (ground arith)
accepted-Committed id now s (t, accepted) c e = c

refused-Committed :
    (id now : Text) (s : Sidecar) (a : Sidecar × Response)
    → Committed id now s a
    → a.1 ≢ accepted
    → (a.1 ≡ status 500) × (a.0 ≡ s)
refused-Committed id now s (t, status n) (e, same) ne = (ap (λ i. status i) e, same)
refused-Committed id now s (t, accepted) c ne = absurd (ne refl)

stops :
    (o : Opening) (id now : Text) (w : World) (h : Machine) (d : DisplayManager) (p : Processes)
    → let s = record (after_launch o w h d p) { world = record_commit id now w } in
      stop_recording id s ≡ (cleanup s, accepted)
unfolding stop_recording record_stop record_commit stop_when
stops o id now w h d p = ground (arith, ==_iff id id)

-- A recording of a sidecar that is idle and whose manager holds nothing, on a machine that gives
-- out its numbers in order, if its start is accepted, can be stopped; then, when closing the
-- browser and its driver does not fail, the manager holds nothing again, the same drivers and
-- browsers run as before, and the state is what the cleanup makes of the committed recording.
pub recording_round_trip :
    (o : Opening) (id url now : Text) (w : World) (h : Machine) (d : DisplayManager) (p : Processes)
    → w.app.state ≡ idle
    → IsFresh h
    → (start_recording o id url now (at_rest w h d p)).1 ≡ accepted
    → let (s, answer) = stop_recording id (start_recording o id url now (at_rest w h d p)).0 in
      (answer ≡ accepted)
      × (s.manager ≡ new_manager)
      × (s.machine.drivers ≡ h.drivers)
      × (s.machine.browsers ≡ h.browsers)
      × (s.world ≡ cleanup_end (cleanup_context (record_commit id now w)))
unfolding cleanup start_display
recording_round_trip o id url now w h d p rest fresh granted =
    let begun = begins o id url now w h d p rest in
    let opened = with_browser-Committed o id url now (launched o h).2 (after_launch o w h d p) in
    let same =
      accepted-Committed id now (after_launch o w h d p) _ opened
        (sym (ap (λ a. a.1) begun) ∙ granted) in
    let (m, drivers, browsers) =
      close-launch o.draws o.driver_starts o.browser_starts false none h fresh in
    let stopped = ap (stop_recording id) (ap (λ a. a.0) begun ∙ same) ∙ stops o id now w h d p in
    (
      ap (λ a. a.1) stopped,
      ap (λ a. a.0.manager) stopped ∙ m,
      ap (λ a. a.0.machine.drivers) stopped ∙ drivers,
      ap (λ a. a.0.machine.browsers) stopped ∙ browsers,
      ap (λ a. a.0.world) stopped,
    )

browser_runs :
    (o : Opening) (w : World) (h : Machine) (d : DisplayManager) (p : Processes)
    → o.driver_starts ≡ true
    → o.browser_starts ≡ true
    → let s = after_launch o w h d p in connected s.machine s.manager.browser ≡ true
unfolding launch connected start_driver launch_browser
browser_runs o w h d p granted up = ground arith

-- A recording of a sidecar that is idle and whose manager holds nothing, whose driver and browser
-- start but which is not accepted (the context, its page, or the page's first load fails): the
-- answer is a 500, the state is as it was, the browser runs on, and POST /stop finds nothing to
-- stop.
pub failed_recording :
    (o : Opening) (id url now : Text) (w : World) (h : Machine) (d : DisplayManager) (p : Processes)
    → w.app.state ≡ idle
    → o.driver_starts ≡ true
    → o.browser_starts ≡ true
    → (start_recording o id url now (at_rest w h d p)).1 ≢ accepted
    → let (s, answer) = start_recording o id url now (at_rest w h d p) in
      (answer ≡ status 500)
      × (s.world ≡ w)
      × (connected s.machine s.manager.browser ≡ true)
      × (force_stop s.world ≡ (w, false))
unfolding force_stop start_display
failed_recording o id url now w h d p rest driver up refused =
    let begun = begins o id url now w h d p rest in
    let opened = with_browser-Committed o id url now (launched o h).2 (after_launch o w h d p) in
    let (answer, same) =
      refused-Committed id now (after_launch o w h d p) _ opened
        (λ e. refused (ap (λ a. a.1) begun ∙ e)) in
    let all = ap (λ a. a.0) begun ∙ same in
    let world = ap (λ s. s.world) all in
    (
      ap (λ a. a.1) begun ∙ answer,
      world,
      ap (λ s. connected s.machine s.manager.browser) all ∙ browser_runs o w h d p driver up,
      ap force_stop world ∙ ground arith,
    )
