-- ===== src/Browser/Flags.antt =====
-- The flags of a launch, and what a context is opened with.
use alex_claw.Prelude.{
  ℕ, ◌≡◌, Bool, true, false, Option, none, some, List, [], ◌∷◌, ◌++◌, drop, length, arith,
  if◌then◌else◌,
}
use mathlib.Core.Option
use alex_claw.Text.{Text, text_eq, codes, starts_with}
use alex_claw.Text.Number.{decimal}
use alex_claw.Browser.Fingerprints.{Draws}
use alex_claw.Browser.{
  Browser, BrowserManager, Machine, Context, Stealth, chromium_args, connected, launch_browser,
  start_driver, launch, context_of, new_context,
}

-- What the arguments hold behind a flag, which is written with its "=" if it has one.
pub values : Text → List Text → List Text
values flag [] = []
values flag (a ∷ args) =
    let rest = values flag args in if starts_with a flag then drop (length flag) a ∷ rest else rest

-- One proxy, on the loopback at this port, for loopback addresses too; no QUIC, and no WebRTC beside
-- the proxy.
pub record IsForced (port : ℕ) (args : List Text) : Type 0 where
  pub one_proxy :
      values (codes "--proxy-server=") args ≡ (codes "http://127.0.0.1:" ++ decimal port) ∷ []
  pub no_bypass : values (codes "--proxy-bypass-list=") args ≡ codes "<-loopback>" ∷ []
  pub no_quic : values (codes "--disable-quic") args ≡ [] ∷ []
  pub no_webrtc :
      values (codes "--force-webrtc-ip-handling-policy=") args
      ≡ codes "disable_non_proxied_udp" ∷ []

-- A launch that does not find a connected browser, and returns one: with a port, the browser is
-- forced through the proxy at it; without one, it has no proxy.
pub launch-IsForced :
    (d : Draws) (started up headless : Bool) (port : ℕ) (m : BrowserManager) (h : Machine)
    (b : Browser)
    → connected h m.browser ≡ false
    → ((launch d started up headless (some port) m h).2 ≡ some b → IsForced port b.args)
      × ((launch d started up headless none m h).2 ≡ some b
          → values (codes "--proxy-server=") b.args ≡ [])
unfolding launch start_driver launch_browser chromium_args values starts_with
launch-IsForced d false up headless port m h b gone =
    (λ e. absurd (ground arith), λ e. absurd (ground arith))
launch-IsForced d true false headless port m h b gone =
    (λ e. absurd (ground arith), λ e. absurd (ground arith))
launch-IsForced d true true headless port m h b gone = (λ e. ground arith, λ e. ground arith)

-- A context that is opened with no viewport of its own in the browser that a launch returned, when
-- the launch found no browser connected: its user agent is the one that the stealth scripts say,
-- its viewport is the browser's window, and service workers are blocked.
pub new_context-launch :
    (d e : Draws) (started up headless accept : Bool) (proxy scale : Option ℕ) (m : BrowserManager)
    (h : Machine) (b : Browser) (c : Context)
    → connected h m.browser ≡ false
    → (launch d started up headless proxy m h).2 ≡ some b
    → new_context e accept none scale
        (launch d started up headless proxy m h).0
        (launch d started up headless proxy m h).1
      ≡ some c
    → (Option.map Stealth.user_agent c.stealth ≡ some c.user_agent)
      × (values (codes "--window-size=") b.args
          ≡ (decimal c.viewport.0 ++ (b',' ∷ decimal c.viewport.1)) ∷ [])
      × (c.service_workers ≡ codes "block")
unfolding launch start_driver launch_browser new_context connected context_of chromium_args values
    starts_with
new_context-launch d e false up headless accept proxy scale m h b c gone l o = absurd (ground arith)
new_context-launch d e true false headless accept proxy scale m h b c gone l o =
    absurd (ground arith)
new_context-launch d e true true headless accept none scale m h b c gone l o = ground arith
new_context-launch d e true true headless accept (some port) scale m h b c gone l o = ground arith
