-- ===== src/Browser/Drivers.antt =====
-- Which drivers and browsers a manager leaves behind.
use alex_claw.Prelude.{
  ℕ, suc, ◌≤◌, ◌<◌, ◌≡◌, ◌≢◌, refl, Bool, true, false, not, Option, some, List, [], ◌∷◌, All, keep,
  eqb, arith,
}
use alex_claw.Browser.Fingerprints.{Draws}
use alex_claw.Browser.{
  BrowserManager, Machine, new_manager, is_in, connected, launch_browser, start_driver, launch,
  close,
}

-- Numbers are given out in order.
pub record IsFresh (h : Machine) : Type 0 where
  pub drivers : All (λ k. k < h.next) h.drivers
  pub browsers : All (λ k. k < h.next) h.browsers

abbrev other : ℕ → ℕ → Bool
other n k = not (eqb k n)

keep_others : (n m : ℕ) (l : List ℕ) → All (λ k. k < n) l → n ≤ m → keep (other m) l ≡ l
keep_others n m [] h le = refl
keep_others n m (k ∷ l) (q, h) le = ground (arith, keep_others n m l h le)

-- Launching from a manager that holds nothing and closing it, whatever fails in the launch, when
-- the closing does not fail: the manager holds nothing again, and the same drivers and browsers
-- run.
pub close-launch :
    (d : Draws) (started up headless : Bool) (proxy : Option ℕ) (h : Machine)
    → IsFresh h
    → let (m, h', b) = launch d started up headless proxy new_manager h in
      let (m', h'') = close true true m h' in
      (m' ≡ new_manager) × (h''.drivers ≡ h.drivers) × (h''.browsers ≡ h.browsers)
unfolding launch connected start_driver launch_browser close
close-launch d false up headless proxy h f = (refl, refl, refl)
close-launch d true false headless proxy h f =
    (refl, ground (arith, keep_others h.next h.next h.drivers f.drivers), refl)
close-launch d true true headless proxy h f = (
  refl,
  ground (arith, keep_others h.next h.next h.drivers f.drivers),
  ground (arith, keep_others h.next (suc h.next) h.browsers f.browsers),
)

-- Closing a manager that holds nothing changes nothing.
pub close-new_manager :
    (browser_ok driver_ok : Bool) (h : Machine)
    → ((close browser_ok driver_ok new_manager h).1.drivers ≡ h.drivers)
      × ((close browser_ok driver_ok new_manager h).1.browsers ≡ h.browsers)
unfolding close
close-new_manager false false h = (refl, refl)
close-new_manager false true h = (refl, refl)
close-new_manager true false h = (refl, refl)
close-new_manager true true h = (refl, refl)

-- What a machine has after a launch and a close: `was` a driver's number, from before.
is_in-cons : (n k : ℕ) (l : List ℕ) → is_in n l ≡ true → is_in n (k ∷ l) ≡ true
is_in-cons n k l h = ground arith

is_in-keep : (n m : ℕ) (l : List ℕ) → n ≢ m → is_in n l ≡ true → is_in n (keep (other m) l) ≡ true
is_in-keep n m [] ne h = h
is_in-keep n m (k ∷ l) ne h = ground (arith, is_in-keep n m l ne)

-- A manager that holds a running driver but no browser that is connected (its browser has crashed,
-- or has failed to start), on a machine that gives out new numbers: a launch whose driver starts
-- puts that driver in the place of the first one, and when the manager is then closed the first one
-- still runs.
pub launch_forgets :
    (d : Draws) (up headless driver_ok browser_ok : Bool) (proxy : Option ℕ) (driver : ℕ)
    (m : BrowserManager) (h : Machine)
    → m.playwright ≡ some driver
    → is_in driver h.drivers ≡ true
    → driver < h.next
    → connected h m.browser ≡ false
    → let (m', h', b) = launch d true up headless proxy m h in
      (m'.playwright ≢ some driver)
      × (is_in driver (close browser_ok driver_ok m' h').1.drivers ≡ true)
unfolding launch start_driver launch_browser close
launch_forgets d true headless true browser_ok proxy driver m h holds runs old gone =
    ground (arith, is_in-keep driver h.next h.drivers)
launch_forgets d true headless false browser_ok proxy driver m h holds runs old gone = ground arith
launch_forgets d false headless true browser_ok proxy driver m h holds runs old gone =
    ground (arith, is_in-keep driver h.next h.drivers)
launch_forgets d false headless false browser_ok proxy driver m h holds runs old gone = ground arith
