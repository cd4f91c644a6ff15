-- ===== src/Desktop/Session.antt =====
-- `find_chrome`, `DesktopRecorder.run` and `main`: how a session of the desktop recorder begins and
-- ends. What it prints and the choice of a free port are not
-- modelled, nor is an interruption of the clean-up.
pub mod Ends
use alex_claw.Prelude.{
  ℕ, zero, suc, Bool, true, false, Option, none, some, List, [], ◌∷◌, ◌++◌, is_empty, if◌then◌else◌,
  any, not, all, arith, ◌≡◌, refl, ◌↔◌, contains, ap, sym, ◌∙◌, Bool-cases, inl, inr,
}
use alex_claw.Text.{Text, codes, starts_with, strip_where, is_space}

pub data Platform : Type 0 where
  win32 darwin other : Platform

-- What the system says: an environment's variables in a path, the files that exist, and the PATH.
pub record System : Type 0 where
  pub platform : Platform
  pub expandvars : Text → Text
  pub is_file : Text → Bool
  pub which : Text → Option Text

candidates : System → List Text
candidates s = elim s.platform [
  | win32 ↦
      s.expandvars (codes "%ProgramFiles%\\Google\\Chrome\\Application\\chrome.exe")
      ∷ s.expandvars (codes "%ProgramFiles(x86)%\\Google\\Chrome\\Application\\chrome.exe")
      ∷ s.expandvars (codes "%LocalAppData%\\Google\\Chrome\\Application\\chrome.exe")
      ∷ []
  | darwin ↦ codes "/Applications/Google Chrome.app/Contents/MacOS/Google Chrome" ∷ []
  | other ↦
      codes "/usr/bin/google-chrome"
      ∷ codes "/usr/bin/google-chrome-stable"
      ∷ codes "/usr/bin/chromium"
      ∷ []
]

first_file : (Text → Bool) → List Text → Option Text
first_file is_file [] = none
first_file is_file (path ∷ paths) = if is_file path then some path else first_file is_file paths

or_found : Option Text → Option Text → Option Text
or_found none b = b
or_found (some a) b = some a

-- `find_chrome`; `none` is the exit with status 1.
pub find_chrome : System → Option Text
find_chrome s = or_found (first_file s.is_file (candidates s)) (
    or_found (s.which (codes "chrome"))
      (or_found (s.which (codes "google-chrome")) (s.which (codes "google-chrome-stable"))))

-- How a stretch of the run ends: an exception of `Exception`, or one beside it (Ctrl-C, a
-- cancellation).
pub data Ending : Type 0 where
  returns raises interrupted : Ending

-- An attempt to reach Chrome's port, with the half second behind one that is refused; an interruption
-- (Ctrl-C, a cancellation) may arrive in either.
pub data Attempt : Type 0 where
  answers refuses breaks_attempt breaks_sleep : Attempt

-- What a session meets: what becomes of each attempt to reach Chrome's port, how the connection to it with
-- its page and listeners ends, how the wait for Enter does, how the export of the cookies does, and
-- whether Chrome ends within five seconds of being told to.
pub record Course : Type 0 where
  pub attempts : ℕ → Attempt
  pub connection : Ending
  pub enter : Ending
  pub cookies : Ending
  pub chrome_ends : Bool

pub data Event : Type 0 where
  launches tries_port sleeps connects reads_enter exports_cookies : Event
  terminates kills removes_profile saves : Event

-- The `finally` clause of `run`.
closing : Course → List Event
closing c =
    terminates ∷ ((if c.chrome_ends then [] else kills ∷ []) ++ removes_profile ∷ saves ∷ [])

-- Behind the wait for Enter, which ends in the same way when it is interrupted; an exception of the
-- export is passed over. The browser's `close` is not awaited, so it does nothing.
behind_enter : Course → List Event × Ending
behind_enter c = elim c.cookies [
  | returns ↦ (exports_cookies ∷ [], returns)
  | raises ↦ (exports_cookies ∷ [], returns)
  | interrupted ↦ (exports_cookies ∷ [], interrupted)
]

reading : Course → List Event × Ending
reading c = elim c.enter [
  | returns ↦ (let (es, e) = behind_enter c in (reads_enter ∷ es, e))
  | raises ↦ (reads_enter ∷ [], returns)
  | interrupted ↦ (let (es, e) = behind_enter c in (reads_enter ∷ es, e))
]

-- The `try` of `run`: an `Exception` is printed.
observing : Course → List Event × Ending
observing c = elim c.connection [
  | returns ↦ (let (es, e) = reading c in (connects ∷ es, e))
  | raises ↦ (connects ∷ [], returns)
  | interrupted ↦ (connects ∷ [], interrupted)
]

-- The attempts that are left, from number `i` on. They stand outside the `try`: an interruption of one
-- leaves `run` with nothing cleaned up.
waiting : Course → ℕ → ℕ → List Event × Ending
waiting c zero i = (terminates ∷ removes_profile ∷ [], returns)
waiting c (suc left) i =
    let (later, ending) = waiting c left (suc i) in
    elim (c.attempts i) [
      | answers ↦ (let (es, e) = observing c in (tries_port ∷ (es ++ closing c), e))
      | refuses ↦ (tries_port ∷ sleeps ∷ later, ending)
      | breaks_attempt ↦ (tries_port ∷ [], interrupted)
      | breaks_sleep ↦ (tries_port ∷ sleeps ∷ [], interrupted)
    ]

-- `run`: what is done, and how it ends.
pub run : Course → List Event × Ending
run c = let (es, e) = waiting c 30 0 in (launches ∷ es, e)

-- The URL of `main`, from the arguments or else from the console; `none` is the exit with status 1.
pub asked_url : Text → Text → Option Text
asked_url given typed =
    if not (is_empty given)
    then some given
    else if is_empty (strip_where is_space typed)
    then none
    else some (strip_where is_space typed)

pub with_scheme : Text → Text
with_scheme url = if starts_with url (codes "http") then url else codes "https://" ++ url

pub output_name : Text → Text → Text
output_name given stamp =
    if is_empty given then codes "recording_" ++ (stamp ++ codes ".json") else given
