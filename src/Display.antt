-- ===== src/Display.antt =====
-- web-automator/app/display.py: the virtual display of a recording. A process is known by a number.
use alex_claw.Prelude.{
  ℕ, suc, Bool, false, not, Option, none, some, List, ◌∷◌, ◌++◌, eqb, keep, if◌then◌else◌,
}
use alex_claw.Text.{Text, codes}
use alex_claw.Text.Number.{decimal}

-- `DisplayManager`; the processes of VNC and noVNC are never set.
pub record DisplayManager : Type 0 where
  pub xvfb : Option ℕ
  pub vnc : Option ℕ
  pub novnc : Option ℕ

-- The processes that run, and the next number.
pub record Processes : Type 0 where
  pub running : List ℕ
  pub next : ℕ

-- `DisplayManager.__init__`
abbrev pub new_display : DisplayManager
new_display = record { xvfb = none; vnc = none; novnc = none }

-- `xdpyinfo`: its exit code, `none` when it is missing or takes too long.
pub is_display_available : Option ℕ → Bool
is_display_available none = false
is_display_available (some code) = eqb code 0

-- `novnc_url`
pub novnc_url : ℕ → Text
novnc_url port = codes "http://localhost:" ++ (decimal port ++ codes "/vnc.html?autoconnect=true")

-- `start`
unfoldable pub start : Option ℕ → DisplayManager → Processes → DisplayManager × Processes
start xdpyinfo m h = if is_display_available xdpyinfo then (m, h) else (
  record m { xvfb = some h.next },
  record h { running = h.next ∷ h.running; next = suc h.next },
)

-- A process that still runs is terminated, and killed if that takes too long.
terminate : Option ℕ → Processes → Processes
terminate none h = h
terminate (some n) h = record h { running = keep (λ k. not (eqb k n)) h.running }

-- `stop`
pub stop : DisplayManager → Processes → DisplayManager × Processes
stop m h = (new_display, terminate m.xvfb (terminate m.vnc (terminate m.novnc h)))
