-- ===== src/Server/Play.antt =====
-- `_run_play` as a whole: a play with the proxy, the browser and the player that it calls. No
-- cancellation arrives while the session is opened or closed here; Server.Session has those.
mod Tests
pub mod Isolation
use alex_claw.Prelude.{
  ℕ, Bool, true, false, not, Option, none, some, List, [], ◌∷◌, keep, eqb, if◌then◌else◌,
}
use alex_claw.Text.{Text, codes}
use alex_claw.Contract.{Recipe}
use alex_claw.Player.Page.{Error, Page, Result, raised}
use alex_claw.Player.Actions.{runtime_error}
use alex_claw.Player.Steps
use alex_claw.Player.Steps.{Report}
use alex_claw.Browser.{
  Browser, BrowserManager, Machine, Context, new_manager, launch, new_context, close,
}
use alex_claw.Browser.Fingerprints.{Draws}

-- What the calls of a play give: the port at which its proxy listens, whether the driver and the
-- browser start, whether the context and its page open, what chance says, and the page; `refused` is
-- the exception of a call that fails. At the end, whether the browser closes and the driver stops.
pub record Conditions : Type 0 where
  pub port : Option ℕ
  pub driver_starts : Bool
  pub browser_starts : Bool
  pub context_opens : Bool
  pub page_opens : Bool
  pub draws : Draws
  pub page : Page
  pub refused : Error
  pub browser_closes : Bool
  pub driver_stops : Bool

-- What runs beside the sidecar: drivers and browsers, and the ports of the proxies.
pub record Site : Type 0 where
  pub machine : Machine
  pub proxies : List ℕ

-- How a play ends, what it leaves, and in what its recipe ran, if it did.
pub record Played : Type 0 where
  pub result : Result Report
  pub site : Site
  pub ran_in : Option (Browser × Context)

abbrev without_port : Option ℕ → List ℕ → List ℕ
without_port none l = l
without_port (some p) l = keep (λ k. not (eqb k p)) l

module _ (c : Conditions) (dir : Text) (config : Recipe) where
  -- `manager.close()` and `proxy.stop()`
  pub shut : BrowserManager → Site → Site
  shut m s = record {
    machine = (close c.browser_closes c.driver_stops m s.machine).1;
    proxies = without_port c.port s.proxies;
  }

  -- The `except` clause of `open_play_session`.
  pub unopened : Error → BrowserManager → Site → Played
  unopened e m s = record { result = raised e; site = shut m s; ran_in = none }

  -- The player in the page, and `PlaySession.close`.
  pub in_page : Browser → Context → BrowserManager → Site → Played
  in_page b x m s = record {
    result = (Steps.run dir c.page config).0;
    site = shut m s;
    ran_in = some (b, x);
  }

  pub in_context : Browser → Option Context → BrowserManager → Site → Played
  in_context b none m s =
      unopened (runtime_error (codes "Browser not launched. Call launch() first.")) m s
  in_context b (some x) m s =
      if not c.context_opens
      then unopened c.refused m s
      else if not c.page_opens
      then unopened c.refused m s
      else in_page b x m s

  pub in_browser : Option Browser → BrowserManager → Site → Played
  in_browser none m s = unopened c.refused m s
  in_browser (some b) m s = in_context b (new_context c.draws true none none m s.machine) m s

  pub behind_proxy : ℕ → Site → Played
  behind_proxy port s =
      let (m, h, b) =
        launch c.draws c.driver_starts c.browser_starts true (some port) new_manager s.machine in
      in_browser b m (record { machine = h; proxies = port ∷ s.proxies })

  started : Option ℕ → Site → Played
  started none s = unopened c.refused new_manager s
  started (some port) s = behind_proxy port s

  -- `_run_play`
  pub play : Site → Played
  play s = started c.port s
