-- ===== src/Lib.antt =====
-- The browser-automation sidecar of AlexClaw, the Python program under web-automator.
--
-- The sidecar records what a person does in a browser and replays it as a recipe. Its parts:
--
-- * The proxy (web-automator/app/egress.py). Every request of the browser of a play goes through it;
--   it is there to keep them off the internal networks.
--   Egress.Address: `is_blocked_ip`, `check_host`, `_resolve`. Egress.Wire: heads and their lines,
--   `_split_authority`, `_content_length`, `_refuse`. Egress.Proxy: `_handle`, `_serve`, `_open`,
--   `_tunnel`, `_forward`, `_relay_response`. Egress.Run: the coroutines they are written in, a result
--   or an exception beside the list of what was done to the network. Egress.Tunnel: `_pipe` and
--   `_pipe_both`, as steps of the two directions that interleave with what the two ends send.
--   Egress.Lifecycle: `start`, `stop` and the tasks of the connections, as steps.
-- * The routes (web-automator/app/main.py). Server.Auth: `RequireToken`. Server.State: `AppState` and
--   the endpoints, cut at each `await` into functions from a world to a world; the world is the state,
--   the plays in flight and the next task's number. Server.Session: `PlaySession`, with one ending for
--   each `await`, those of the browser manager too. Server.Responses: what the routes answer.
--   Server.Recording: `start_recording` and `stop_recording` as a whole, with the display, the browser manager and the recorder they call.
--   Server.Play: `_run_play` as a whole, with the proxy, the browser manager and the player.
-- * Their requests and answers (web-automator/app/models.py). Models.
-- * The browsers (web-automator/app/browser.py). Browser.Fingerprints: the pools and
--   `_random_fingerprint`. Browser: `chromium_args`, `BrowserManager`; drivers and browsers are numbers
--   of a machine, on which those that run are listed.
-- * The display (web-automator/app/display.py). Display: `DisplayManager`, processes likewise.
-- * The player (web-automator/app/player.py). Player.Page: the page that a recipe runs in, and actions
--   that ask it and may raise or be cancelled, with a log of all calls. Player.Origin: `_origin_of`. Player.Actions:
--   `_navigate`, `_element`, `_fill`, `_click`, `_select`, `_check`. Player.Steps: `_wait_for_download`,
--   `_extract_grid`, `_scrape`, `_scrape_text`, `_take_screenshot`, `_run_step`, `run`; its child
--   Dicts: `_run_step` on a dictionary, as pydantic dumps a step into one. Player.Scripts: the scripts
--   of `_extract_grid` and `_scrape`, on what they find in a document.
-- * The contract (web-automator/app/recipe.py). Contract: the steps of a recipe, `_http_url`, `_origin`,
--   and the bounds of the fields, `recipe_ok`. The player takes a recipe of this type.
-- * The recorder (web-automator/app/recorder.py). Recorder: its state, `captured_action`,
--   `_on_dom_action`, `_flush_dom_actions`, `_on_request`, `_on_download`. Recorder.Start: `start`, on a
--   page like the player's. Recorder.Stop: `async_stop`, `_build_results`. Recorder.Script:
--   `_DOM_RECORDER_JS`, the messages that it sends for an element.
-- * The desktop recorder (web-automator/recorder_desktop.py), a program of its own. Desktop:
--   `_is_interesting`, `_classify`, `_on_request`, `_on_download`, `_save`. Desktop.Session:
--   `find_chrome`, `run`, `main`.
--
-- Below them stand Prelude (shared names, Boolean tests, lists), Text (Python's `str` and
-- `bytes`; its child Number has `int` and `str` of a number), Js (JavaScript's strings), Path
-- (`os.path`), Ip (`ipaddress`) and Url (`urlsplit`). A module's children hold what is proved of
-- it; Tests hold runs at concrete values.
--
-- What is not ours is a parameter. The resolver, the hosts and their bytes are the record `Net`;
-- the page, its answers, exceptions, cancellations and clock are the record `Page`, read at the
-- number of the call; the environment and its files are the record `Environment`; what chance
-- says at each draw is the record `Draws`; what `querySelectorAll` finds is the record
-- `Document`; whether a driver, a browser, a context or its page comes up is said by an argument,
-- as is whether asyncio's `wait_closed` waits for the connections.
--
-- Bounds. Integers of the program are Python's, without a bound, so nothing wraps around.
-- `_element` polls until a deadline: its loop runs on fuel, the rounds that the timeout holds and
-- two, which is enough when the clock goes forward and a sleep takes its time. `_click` counts
-- its attempts, and so do the recorder's start and the desktop recorder's wait for Chrome. The
-- proxy takes heads of at most 65536 bytes, and reads a tunnel in chunks of at most as many. A
-- number is printed on fuel, one more than the number.
--
-- Not modelled: letter case and blanks beyond ASCII; how pydantic reads a JSON value (what the
-- fields demand is modelled); writes to a socket that fail or are cancelled; the script of browser.py
-- against detection; what happens between two keystrokes; which element an event in the page
-- reaches, what a CSS selector matches, and the task that injects the recorder's script again after a load; the log; other requests while a
-- recording starts, but for those of Server.State.Race; what the desktop recorder prints, and an
-- interruption of its clean-up.
pub mod Prelude
pub mod Text
pub mod Ip
pub mod Url
pub mod Path
pub mod Js
pub mod Egress
pub mod Models
pub mod Server
pub mod Contract
pub mod Player
pub mod Recorder
pub mod Desktop
pub mod Browser
pub mod Display
