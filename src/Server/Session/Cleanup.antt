-- ===== src/Server/Session/Cleanup.antt =====
-- Whether a play's browser, driver and proxy are closed again.
use alex_claw.Prelude.{◌≡◌, ◌≢◌, ◌↔◌, Bool, true, false, not, any, arith}
use alex_claw.Server.Session.{
  Action, close_browser, stop_driver, stop_proxy, Ending, returns, cancelled, Endings, Trace,
  is_return, is_cancel, has_driver, has_browser, is_opened, opening, close_manager, close_rest,
  close_session, open_play_session, run_play,
}

-- The browser was told to close, and no cancellation cut this short.
abbrev pub closes_browser : Action × Ending → Bool
closes_browser (close_browser, e) = not (is_cancel e)
closes_browser (_, e) = false

abbrev pub stops_driver : Action × Ending → Bool
stops_driver (stop_driver, e) = not (is_cancel e)
stops_driver (_, e) = false

-- The proxy's stop ran to its end.
abbrev pub stops_proxy : Action × Ending → Bool
stops_proxy (stop_proxy, e) = is_return e
stops_proxy (_, e) = false

-- What was started is closed.
abbrev pub IsClean : Endings → Trace → Type 0
IsClean f trace =
    (has_browser f ≡ true → any closes_browser trace ≡ true)
    × (has_driver f ≡ true → any stops_driver trace ≡ true)
    × (any stops_proxy trace ≡ true)

-- Wherever a play fails or is cancelled: closing the browser that was launched and stopping the
-- driver that was started are begun and not cut short, and the proxy's stop runs to its end,
-- exactly when no cancellation arrives while the context of an open session, that browser or that
-- driver is closed, and the proxy's stop returns.
pub run_play_closes_iff :
    (f : Endings)
    → IsClean f (run_play f) ↔ (
        (is_opened f ≡ true → f.close_context ≢ cancelled)
        × (has_browser f ≡ true → f.close_browser ≢ cancelled)
        × (has_driver f ≡ true → f.stop_driver ≢ cancelled)
        × (f.stop_proxy ≡ returns))
unfolding run_play open_play_session opening close_session close_rest close_manager
run_play_closes_iff f = ground arith
