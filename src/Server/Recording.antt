-- ===== src/Server/Recording.antt =====
-- POST /record and its stop as a whole: the routes with the display, the browser manager and the
-- recorder that they call. While `start_recording` runs, no other request comes in between here.
mod Tests
pub mod Rounds
use alex_claw.Prelude.{ℕ, Bool, true, false, not, Option, none, some, List, [], if◌then◌else◌}
use alex_claw.Text.{Text}
use alex_claw.Player.Steps
use alex_claw.Player.Page.{Page, Result, ok, raised, cancelled}
use alex_claw.Browser.{Browser, BrowserManager, Machine, Context, launch, new_context, close}
use alex_claw.Browser.Fingerprints.{Draws}
use alex_claw.Display
use alex_claw.Display.{DisplayManager, Processes}
use alex_claw.Recorder.Start
use alex_claw.Server.State.{
  World, Response, accepted, status, record_begin, record_commit, record_stop, cleanup_context,
  cleanup_end,
}

pub record Sidecar : Type 0 where
  pub world : World
  pub manager : BrowserManager
  pub machine : Machine
  pub display : DisplayManager
  pub processes : Processes

-- What the calls of a start give: the exit code of `xdpyinfo`, whether the driver and the browser
-- start, whether the context and its page open, what chance says, and the page.
pub record Opening : Type 0 where
  pub xdpyinfo : Option ℕ
  pub driver_starts : Bool
  pub browser_starts : Bool
  pub context_opens : Bool
  pub page_opens : Bool
  pub draws : Draws
  pub script : Text
  pub page : Page

abbrev pub Answer : Type 0
Answer = Sidecar × Response

-- `display_manager.start()`
unfoldable pub start_display : Option ℕ → Sidecar → Sidecar
start_display xdpyinfo s =
    let (d, p) = Display.start xdpyinfo s.display s.processes in
    record s { display = d; processes = p }

module _ (o : Opening) (session_id url now : Text) where
  -- An exception is a 500; so is counted here a cancelled request, which nobody answers.
  unfoldable pub commit : Result Unit → Sidecar → Answer
  commit (raised e) s = (s, status 500)
  commit cancelled s = (s, status 500)
  commit (ok u) s = (record s { world = record_commit session_id now s.world }, accepted)

  unfoldable pub with_page : Sidecar → Answer
  with_page s =
      if not o.page_opens
      then (s, status 500)
      else commit (Start.start o.page o.script url Steps.start).0 s

  unfoldable pub with_context : Option Context → Sidecar → Answer
  with_context none s = (s, status 500)
  with_context (some c) s = if not o.context_opens then (s, status 500) else with_page s

  unfoldable pub with_browser : Option Browser → Sidecar → Answer
  with_browser none s = (s, status 500)
  with_browser (some b) s =
      with_context (new_context o.draws true (some (1366, 768)) (some 100) s.manager s.machine) s

  unfoldable pub launch_in : Sidecar → Answer
  launch_in s =
      let (m, h, b) =
        launch o.draws o.driver_starts o.browser_starts false none s.manager s.machine in
      with_browser b (record s { manager = m; machine = h })

  unfoldable pub begin_recording : Response → Sidecar → Answer
  begin_recording (status n) s = (s, status n)
  begin_recording accepted s = launch_in (start_display o.xdpyinfo s)

  -- `start_recording`
  unfoldable pub start_recording : Sidecar → Answer
  start_recording s = begin_recording (record_begin s.world) s

-- `_cleanup`, when the closing of the browser and the stop of the driver return.
pub cleanup : Sidecar → Sidecar
cleanup s =
    let (m, h) = close true true s.manager s.machine in
    record s { world = cleanup_end (cleanup_context s.world); manager = m; machine = h }

stop_when : Response → Sidecar → Answer
stop_when (status n) s = (s, status n)
stop_when accepted s = (cleanup s, accepted)

-- `stop_recording`; its results are those of `async_stop`.
pub stop_recording : Text → Sidecar → Answer
stop_recording session_id s = stop_when (record_stop session_id s.world) s
