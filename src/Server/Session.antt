-- ===== src/Server/Session.antt =====
-- A play's own browser: `open_play_session`, `PlaySession.close`, `BrowserManager.close` and the two
-- awaits of `BrowserManager.launch` as they use them, and `_run_play`. Every `await` may raise, and a
-- cancellation may arrive at one.
pub mod Cleanup
use alex_claw.Prelude.{Bool, true, false, ◌&&◌, List, [], ◌∷◌, ◌++◌, if◌then◌else◌}

-- What is awaited of the proxy, the browser and the context of one play.
pub data Action : Type 0 where
  start_proxy start_driver launch_browser new_context new_page run_recipe : Action
  close_context close_browser stop_driver stop_proxy : Action

-- How an `await` ends. `except Exception` catches `fails` and lets `cancelled` through.
pub data Ending : Type 0 where
  returns fails cancelled : Ending

pub record Endings : Type 0 where
  pub start : Ending
  pub driver : Ending
  pub browser : Ending
  pub context : Ending
  pub page : Ending
  pub recipe : Ending
  pub close_context : Ending
  pub close_browser : Ending
  pub stop_driver : Ending
  pub stop_proxy : Ending

abbrev pub is_return : Ending → Bool
is_return returns = true
is_return _ = false

abbrev pub is_cancel : Ending → Bool
is_cancel cancelled = true
is_cancel _ = false

-- What was awaited, and how it ended.
abbrev pub Trace : Type 0
Trace = List (Action × Ending)

-- The driver, and the browser, are there for the manager to close.
abbrev pub has_driver : Endings → Bool
has_driver f = is_return f.start && is_return f.driver

abbrev pub has_browser : Endings → Bool
has_browser f = has_driver f && is_return f.browser

abbrev pub is_opened : Endings → Bool
is_opened f = has_browser f && is_return f.context && is_return f.page

-- One `await`, and what follows it when it returns.
await_then : Action → Ending → Trace → Trace
await_then a e rest = (a, e) ∷ (if is_return e then rest else [])

-- The `try` of `open_play_session`; the page's timeout is set without an await.
pub opening : Endings → Trace
unfolding await_then
opening f = await_then start_proxy f.start (
    await_then start_driver f.driver (
      await_then launch_browser f.browser
        (await_then new_context f.context (await_then new_page f.page []))))

-- One `await` whose `Exception` is dropped.
dropping : Action → Ending → Trace → Trace
dropping a e rest = (a, e) ∷ (if is_cancel e then [] else rest)

-- `BrowserManager.close`: the browser and the driver, where they are there.
pub close_manager : Endings → Trace → Trace
unfolding dropping
close_manager f rest =
    let behind = if has_driver f then dropping stop_driver f.stop_driver rest else rest in
    if has_browser f then dropping close_browser f.close_browser behind else behind

-- `await manager.close()`, and `await proxy.stop()` behind it.
pub close_rest : Endings → Trace
close_rest f = close_manager f ((stop_proxy, f.stop_proxy) ∷ [])

-- `PlaySession.close`
pub close_session : Endings → Trace
unfolding dropping
close_session f = dropping close_context f.close_context (close_rest f)

-- `open_play_session`: the `except BaseException` clause closes what is there when no session is
-- returned.
pub open_play_session : Endings → Trace
open_play_session f = opening f ++ (if is_opened f then [] else close_rest f)

-- `_run_play`, whose `finally` closes the session however the recipe ends.
pub run_play : Endings → Trace
run_play f =
    open_play_session f ++ (if is_opened f then (run_recipe, f.recipe) ∷ close_session f else [])
