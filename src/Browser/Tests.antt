-- ===== src/Browser/Tests.antt =====
-- Browsers on concrete draws and launches.
use alex_claw.Prelude.{◌≡◌, ◌≢◌, refl, true, false, none, some, [], ◌∷◌, ◌++◌, arith}
use alex_claw.Text.{codes}
use alex_claw.Browser.Fingerprints.{Draws, random_fingerprint}
use alex_claw.Browser.{
  Browser, Machine, Launched, Context, new_manager, is_in, connected, flags, window_size,
  launch_browser, start_driver, launch, context_of, new_context, close, crash,
}
use alex_claw.Browser.Flags.{IsForced, values, launch-IsForced}
use alex_claw.Browser.Drivers.{launch_forgets}

abbrev draws : Draws
draws = record {
  user_agent = 1;
  viewport = 2;
  locale = 0;
  timezone = 4;
  vendor = 0;
  renderer = 2;
  depth = 0;
  scale = 1;
  cores = 3;
}

-- A machine on which nothing runs yet.
abbrev quiet : Machine
quiet = record { is_arm = false; drivers = []; browsers = []; next = 0 }

abbrev launched : Launched
launched = launch draws true true true (some 4040) new_manager quiet

abbrev first : Browser
first = record {
  number = 1;
  headless = true;
  args = flags (some 4040) ++ window_size (random_fingerprint draws) ∷ [];
  chrome_channel = true;
}

connected-none : connected quiet none ≡ false
unfolding connected
connected-none = refl

launched_first : launched.2 ≡ some first
unfolding launch start_driver launch_browser connected
launched_first = refl

launch-IsForced_example :
    (launched.2 ≡ some first → IsForced 4040 first.args)
    × ((launch draws true true true none new_manager quiet).2 ≡ some first
        → values (codes "--proxy-server=") first.args ≡ [])
launch-IsForced_example =
    launch-IsForced draws true true true 4040 new_manager quiet first connected-none

abbrev opened : Context
opened = context_of (random_fingerprint draws) launched.0.stealth true none none

opened_context : new_context draws true none none launched.0 launched.1 ≡ some opened
unfolding new_context launch start_driver launch_browser connected
opened_context = refl

-- The browser crashes, and the manager launches again.
abbrev crashed : Machine
crashed = crash 1 launched.1

launch_forgets_example :
    let (m', h', b) = launch draws true true true none launched.0 crashed in
    (m'.playwright ≢ some 0) × (is_in 0 (close true true m' h').1.drivers ≡ true)
unfolding launch start_driver launch_browser connected crash
launch_forgets_example =
    launch_forgets draws true true true true none 0 launched.0 crashed refl refl (omega arith) refl
