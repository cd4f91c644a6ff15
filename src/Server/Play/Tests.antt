-- ===== src/Server/Play/Tests.antt =====
-- A play beside another one.
use alex_claw.Prelude.{ℕ, ◌≡◌, ◌≢◌, refl, true, false, some, [], ◌∷◌, All, arith}
use alex_claw.Text.{codes}
use alex_claw.Contract.{Recipe}
use alex_claw.Player.Actions.{runtime_error}
use alex_claw.Browser.Fingerprints.{Draws}
use alex_claw.Browser.Drivers.{IsFresh}
use alex_claw.Server.Tests.{blank_page}
use alex_claw.Server.Play.{Conditions, Site, play}
use alex_claw.Server.Play.Isolation.{RanBehind, play_lem}

abbrev draws : Draws
draws = record {
  user_agent = 0;
  viewport = 1;
  locale = 0;
  timezone = 2;
  vendor = 1;
  renderer = 0;
  depth = 0;
  scale = 0;
  cores = 1;
}

abbrev conditions : Conditions
conditions = record {
  port = some 4041;
  driver_starts = true;
  browser_starts = true;
  context_opens = true;
  page_opens = true;
  draws = draws;
  page = blank_page;
  refused = runtime_error [];
  browser_closes = true;
  driver_stops = true;
}

-- Another play has its driver, its browser and its proxy.
abbrev busy : Site
busy = record {
  machine = record { is_arm = false; drivers = 0 ∷ []; browsers = 1 ∷ []; next = 2 };
  proxies = 4040 ∷ [];
}

busy-IsFresh : IsFresh busy.machine
busy-IsFresh = record { drivers = (omega arith, tt); browsers = (omega arith, tt) }

busy_ports : (p : ℕ) → conditions.port ≡ some p → All (λ k. k ≢ p) busy.proxies
busy_ports p e = (λ same. ground (arith, e, same), tt)

abbrev shots : Recipe
shots = record { url = codes "https://ok.example"; steps = [] }

play_lem_example :
    let played = play conditions (codes "/tmp") shots busy in
    (played.site.machine.drivers ≡ busy.machine.drivers)
    × (played.site.machine.browsers ≡ busy.machine.browsers)
    × (played.site.proxies ≡ busy.proxies)
    × RanBehind conditions (codes "/tmp") shots played.result played.ran_in
play_lem_example = play_lem conditions (codes "/tmp") shots busy busy-IsFresh busy_ports refl refl
