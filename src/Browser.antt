-- ===== src/Browser.antt =====
-- web-automator/app/browser.py: the flags and options of the browser, and `BrowserManager`. The driver
-- and the browser are Playwright's: here they are numbers, in the lists of those that run.
mod Tests
pub mod Fingerprints
pub mod Flags
pub mod Drivers
use alex_claw.Prelude.{
  ℕ, suc, Bool, true, false, not, Option, none, some, List, [], ◌∷◌, ◌++◌, keep, any, eqb,
  if◌then◌else◌,
}
use alex_claw.Text.{Text, codes}
use alex_claw.Text.Number.{decimal}
use alex_claw.Browser.Fingerprints.{Fingerprint, Draws, random_fingerprint}

abbrev pub base_args : List Text
base_args =
    codes "--no-sandbox"
    ∷ codes "--disable-dev-shm-usage"
    ∷ codes "--disable-blink-features=AutomationControlled"
    ∷ codes "--disable-infobars"
    ∷ []

-- `chromium_args`
pub chromium_args : ℕ → List Text
chromium_args port =
    base_args
    ++ (codes "--proxy-server=http://127.0.0.1:" ++ decimal port)
      ∷ codes "--proxy-bypass-list=<-loopback>"
      ∷ codes "--disable-quic"
      ∷ codes "--force-webrtc-ip-handling-policy=disable_non_proxied_udp"
      ∷ []

-- A browser that was launched: its number, and what it was launched with.
pub record Browser : Type 0 where
  pub number : ℕ
  pub headless : Bool
  pub args : List Text
  pub chrome_channel : Bool

-- The overrides of `Stealth`; its evasions that are switched off are the same in every launch.
pub record Stealth : Type 0 where
  pub user_agent : Text
  pub platform : Text
  pub languages : Text × Text
  pub webgl_vendor : Text
  pub webgl_renderer : Text

-- `BrowserManager`, a driver being known by its number.
pub record BrowserManager : Type 0 where
  pub playwright : Option ℕ
  pub browser : Option Browser
  pub fingerprint : Option Fingerprint
  pub stealth : Option Stealth

-- The drivers and browsers that run on the machine, and the next number.
pub record Machine : Type 0 where
  pub drivers : List ℕ
  pub browsers : List ℕ
  pub next : ℕ
  pub is_arm : Bool

-- `BrowserManager.__init__`
abbrev pub new_manager : BrowserManager
new_manager = record { playwright = none; browser = none; fingerprint = none; stealth = none }

abbrev pub is_in : ℕ → List ℕ → Bool
is_in n l = any (eqb n) l

-- `self._browser and self._browser.is_connected()`, and `is_running`
unfoldable pub connected : Machine → Option Browser → Bool
connected h none = false
connected h (some b) = is_in b.number h.browsers

abbrev stealth_of : Fingerprint → Stealth
stealth_of fp = record {
  user_agent = fp.user_agent;
  platform = fp.platform;
  languages = fp.languages;
  webgl_vendor = fp.webgl_vendor;
  webgl_renderer = fp.webgl_renderer;
}

abbrev pub window_size : Fingerprint → Text
window_size fp = codes "--window-size=" ++ (decimal fp.viewport.0 ++ (b',' ∷ decimal fp.viewport.1))

abbrev pub flags : Option ℕ → List Text
flags none = base_args
flags (some port) = chromium_args port

-- The third result is the browser, or `none` for an exception.
abbrev pub Launched : Type 0
Launched = BrowserManager × Machine × Option Browser

-- `chromium.launch`: with `up`, a browser runs.
unfoldable pub launch_browser :
    Bool → Bool → Option ℕ → Fingerprint → BrowserManager → Machine → Launched
launch_browser false headless proxy fp m h = (m, h, none)
launch_browser true headless proxy fp m h =
    let b : Browser = record {
      number = h.next;
      headless = headless;
      args = flags proxy ++ window_size fp ∷ [];
      chrome_channel = not h.is_arm;
    } in
    (
      record m { browser = some b },
      record h { browsers = h.next ∷ h.browsers; next = suc h.next },
      some b,
    )

-- `async_playwright().start()`: with `started`, a driver runs.
unfoldable pub start_driver :
    Bool → Bool → Bool → Option ℕ → Fingerprint → BrowserManager → Machine → Launched
start_driver false up headless proxy fp m h = (m, h, none)
start_driver true up headless proxy fp m h =
    launch_browser up headless proxy fp (record m { playwright = some h.next })
      (record h { drivers = h.next ∷ h.drivers; next = suc h.next })

-- `launch`
unfoldable pub launch : Draws → Bool → Bool → Bool → Option ℕ → BrowserManager → Machine → Launched
launch d started up headless proxy m h =
    if connected h m.browser
    then (m, h, m.browser)
    else start_driver started up headless proxy (random_fingerprint d)
        (record m {
          fingerprint = some (random_fingerprint d);
          stealth = some (stealth_of (random_fingerprint d));
        })
        h

-- The options of a context; no service worker can make requests that the page does not see.
pub record Context : Type 0 where
  pub viewport : ℕ × ℕ
  pub user_agent : Text
  pub locale : Text
  pub timezone_id : Text
  pub device_scale_factor : ℕ
  pub accept_downloads : Bool
  pub service_workers : Text
  pub stealth : Option Stealth
  pub color_depth : ℕ

abbrev or_fingerprint : Option Fingerprint → Fingerprint → Fingerprint
or_fingerprint none d = d
or_fingerprint (some fp) d = fp

abbrev or_else {ℓ} : {A : Type ℓ} → Option A → A → A
or_else none d = d
or_else (some a) d = a

unfoldable pub context_of :
    Fingerprint → Option Stealth → Bool → Option (ℕ × ℕ) → Option ℕ → Context
context_of fp stealth accept viewport scale = record {
  viewport = or_else viewport fp.viewport;
  user_agent = fp.user_agent;
  locale = fp.locale;
  timezone_id = fp.timezone_id;
  device_scale_factor = or_else scale fp.device_scale_factor;
  accept_downloads = accept;
  service_workers = codes "block";
  stealth = stealth;
  color_depth = fp.color_depth;
}

-- `new_context`; `none` is the `RuntimeError`.
unfoldable pub new_context :
    Draws → Bool → Option (ℕ × ℕ) → Option ℕ → BrowserManager → Machine → Option Context
new_context d accept viewport scale m h =
    if not (connected h m.browser)
    then none
    else some (
        context_of (or_fingerprint m.fingerprint (random_fingerprint d)) m.stealth accept viewport
          scale)

-- What is left when this one has been closed; one that fails to close runs on.
abbrev closed : Bool → Option ℕ → List ℕ → List ℕ
closed ok none l = l
closed true (some n) l = keep (λ k. not (eqb k n)) l
closed false (some n) l = l

abbrev browser_number : Option Browser → Option ℕ
browser_number none = none
browser_number (some b) = some b.number

-- `close`, where the closing of the browser and the stop of the driver each return or raise.
pub close : Bool → Bool → BrowserManager → Machine → BrowserManager × Machine
close browser_ok driver_ok m h = (
  new_manager,
  record h {
    browsers = closed browser_ok (browser_number m.browser) h.browsers;
    drivers = closed driver_ok m.playwright h.drivers;
  },
)

-- A browser ends by itself.
unfoldable pub crash : ℕ → Machine → Machine
crash n h = record h { browsers = keep (λ k. not (eqb k n)) h.browsers }
