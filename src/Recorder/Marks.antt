-- ===== src/Recorder/Marks.antt =====
-- A recording without the marks on its logins.
use alex_claw.Prelude.{none, map}
use alex_claw.Recorder.{CapturedAction, Recorder}

abbrev pub unmark : CapturedAction → CapturedAction
unmark c = record c { secret = none }

abbrev pub unmarked : Recorder → Recorder
unmarked r = record r { captured = map unmark r.captured }
