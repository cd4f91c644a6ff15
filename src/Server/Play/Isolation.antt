-- ===== src/Server/Play/Isolation.antt =====
-- A play and what runs beside it.
use alex_claw.Prelude.{
  ℕ, ◌≡◌, ◌≢◌, refl, ap, ◌∙◌, Bool, true, not, Option, none, some, List, [], ◌∷◌, All, arith,
  if_either,
}
use alex_claw.Text.{Text, codes}
use alex_claw.Contract.{Recipe}
use alex_claw.Player.Page.{Error, Result, raised}
use alex_claw.Player.Steps
use alex_claw.Player.Steps.{Report}
use alex_claw.Browser.{
  Browser, BrowserManager, Machine, Context, new_manager, launch, new_context, context_of,
  connected,
}
use alex_claw.Browser.Fingerprints.{Draws}
use alex_claw.Browser.Drivers.{IsFresh, close-launch, close-new_manager}
use alex_claw.Browser.Flags.{IsForced, launch-IsForced}
use alex_claw.Server.Play.{
  Conditions, Site, Played, shut, unopened, in_page, in_context, in_browser, behind_proxy, started,
  play, without_port,
}

-- The recipe did not run, and an exception is what the play ends with; or it ran, in a browser that is
-- forced through the play's own proxy and a context without service workers, and the play ends as
-- the player's run does.
pub RanBehind : Conditions → Text → Recipe → Result Report → Option (Browser × Context) → Type 0
RanBehind c dir config result none = (e : Error) × (result ≡ raised e)
RanBehind c dir config result (some (b, x)) =
    ((port : ℕ) × (c.port ≡ some port) × IsForced port b.args)
    × (x.service_workers ≡ codes "block")
    × (result ≡ (Steps.run dir c.page config).0)

without_own : (p : ℕ) (l : List ℕ) → All (λ k. k ≢ p) l → without_port (some p) (p ∷ l) ≡ l
without_own p [] h = ground arith
without_own p (k ∷ l) (other, h) = ground (arith, without_own p l h)

new_context-blocks :
    (d : Draws) (accept : Bool) (viewport : Option (ℕ × ℕ)) (scale : Option ℕ) (m : BrowserManager)
    (h : Machine) (x : Context)
    → new_context d accept viewport scale m h ≡ some x
    → x.service_workers ≡ codes "block"
unfolding new_context context_of
new_context-blocks d accept viewport scale m h x e = ground (arith, e)

module _ (c : Conditions) (dir : Text) (config : Recipe) where
  unopened-site :
      (e : Error) (m : BrowserManager) (s : Site)
      → (unopened c dir config e m s).site ≡ shut c dir config m s
  unfolding unopened
  unopened-site e m s = refl

  in_browser-site :
      (b : Option Browser) (m : BrowserManager) (s : Site)
      → (in_browser c dir config b m s).site ≡ shut c dir config m s
  unfolding in_browser in_context in_page unopened
  in_browser-site b m s = ground arith

  in_context-RanBehind :
      (port : ℕ) (b : Browser) (o : Option Context) (m : BrowserManager) (s : Site)
      → c.port ≡ some port
      → IsForced port b.args
      → ((x : Context) → o ≡ some x → x.service_workers ≡ codes "block")
      → RanBehind c dir config
          (in_context c dir config b o m s).result
          (in_context c dir config b o m s).ran_in
  unfolding in_context in_page unopened RanBehind
  in_context-RanBehind port b none m s own forced blocks = (_, refl)
  in_context-RanBehind port b (some x) m s own forced blocks =
      if_either (λ (played : Played). RanBehind c dir config played.result played.ran_in)
        (not c.context_opens) (λ _. (c.refused, refl))
        (λ _.
          if_either (λ (played : Played). RanBehind c dir config played.result played.ran_in)
            (not c.page_opens) (λ _. (c.refused, refl))
            (λ _. ((port, own, forced), blocks x refl, refl)))

  in_browser-RanBehind :
      (port : ℕ) (o : Option Browser) (m : BrowserManager) (s : Site)
      → c.port ≡ some port
      → ((b : Browser) → o ≡ some b → IsForced port b.args)
      → RanBehind c dir config
          (in_browser c dir config o m s).result
          (in_browser c dir config o m s).ran_in
  unfolding in_browser unopened RanBehind
  in_browser-RanBehind port none m s own forced = (c.refused, refl)
  in_browser-RanBehind port (some b) m s own forced =
      in_context-RanBehind port b _ m s own (forced b refl)
        (new_context-blocks c.draws true none none m s.machine)

  -- What a play leaves, and in what it ran.
  Leaves : Site → Played → Type 0
  Leaves s played =
      (played.site.machine.drivers ≡ s.machine.drivers)
      × (played.site.machine.browsers ≡ s.machine.browsers)
      × (played.site.proxies ≡ s.proxies)
      × RanBehind c dir config played.result played.ran_in

  module _ (closes : c.browser_closes ≡ true) (stops : c.driver_stops ≡ true) where
    behind_proxy-Leaves :
        (port : ℕ) (s : Site)
        → IsFresh s.machine
        → c.port ≡ some port
        → All (λ k. k ≢ port) s.proxies
        → Leaves s (behind_proxy c dir config port s)
    unfolding behind_proxy shut Leaves connected
    behind_proxy-Leaves port s fresh own new =
        let (m, h, b) =
          launch c.draws c.driver_starts c.browser_starts true (some port) new_manager s.machine in
        let left = in_browser-site b m (record { machine = h; proxies = port ∷ s.proxies }) in
        let (_, drivers, browsers) =
          close-launch c.draws c.driver_starts c.browser_starts true (some port) s.machine fresh in
        (
          ap (λ t. t.machine.drivers) left ∙ rw (closes, stops) drivers,
          ap (λ t. t.machine.browsers) left ∙ rw (closes, stops) browsers,
          ap (λ t. t.proxies) left ∙ rw own (without_own port s.proxies new),
          in_browser-RanBehind port b m _ own (λ x e.
              (launch-IsForced c.draws c.driver_starts c.browser_starts true port new_manager
                  s.machine x refl).0
                e),
        )

    started-Leaves :
        (o : Option ℕ) (s : Site)
        → c.port ≡ o
        → IsFresh s.machine
        → ((p : ℕ) → o ≡ some p → All (λ k. k ≢ p) s.proxies)
        → Leaves s (started c dir config o s)
    unfolding started unopened shut Leaves RanBehind
    started-Leaves none s own fresh new =
        let (drivers, browsers) = close-new_manager c.browser_closes c.driver_stops s.machine in
        (drivers, browsers, rw own refl, (c.refused, refl))
    started-Leaves (some port) s own fresh new =
        behind_proxy-Leaves port s fresh own (new port refl)

  -- A play whose driver and browser can be closed, beside others, on a machine that gives out its
  -- numbers in order and with a port for its proxy that no other proxy has: wherever its opening
  -- fails, and however its recipe ends, the same drivers, browsers and proxies run after it as
  -- before. When its recipe ran, it ran in a browser that is forced through the proxy at the play's
  -- own port, in a context without service workers, and the play ends as the run of the player
  -- does; when it did not, the play ends with an exception.
  pub play_lem :
      (s : Site)
      → IsFresh s.machine
      → ((p : ℕ) → c.port ≡ some p → All (λ k. k ≢ p) s.proxies)
      → c.browser_closes ≡ true
      → c.driver_stops ≡ true
      → let played = play c dir config s in
        (played.site.machine.drivers ≡ s.machine.drivers)
        × (played.site.machine.browsers ≡ s.machine.browsers)
        × (played.site.proxies ≡ s.proxies)
        × RanBehind c dir config played.result played.ran_in
  unfolding play Leaves
  play_lem s fresh new closes stops = started-Leaves closes stops c.port s refl fresh new
