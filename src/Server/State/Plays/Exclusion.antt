-- ===== src/Server/State/Plays/Exclusion.antt =====
-- All steps of the plays together.
use alex_claw.Text.{text_eq}
use alex_claw.Server.State.{World}
use alex_claw.Server.State.Plays.{
  IsExclusive, Step, Reach, begin, ends, returns, disconnects, stops, forced, here, next,
}
use alex_claw.Server.State.Plays.Begins.{play_begin-IsExclusive}
use alex_claw.Server.State.Plays.Updates.{task_done-IsExclusive, disconnect-IsExclusive}
use alex_claw.Server.State.Plays.Stops.{stop_play-IsExclusive, stop_all-IsExclusive}
use alex_claw.Server.State.Plays.Returns.{play_return-IsExclusive}

Step-IsExclusive : {t u : World} → Step t u → IsExclusive t → IsExclusive u
Step-IsExclusive (begin id now w new) h = play_begin-IsExclusive id now w new h
Step-IsExclusive (ends t w) h = task_done-IsExclusive t w h
Step-IsExclusive (returns t w) h = play_return-IsExclusive t w h
Step-IsExclusive (disconnects t w) h = disconnect-IsExclusive t w h
Step-IsExclusive (stops id w) h = stop_play-IsExclusive id w h
Step-IsExclusive (forced w) h = stop_all-IsExclusive w h

-- From a state of the following kind, however begins, ends, returns, disconnects and stops of plays
-- are interleaved, as long as nobody records and no two calls in flight have the same id, the state
-- is of this kind again: the plays in flight have different tasks; either the state is idle and all
-- of them are done, and the state names one of them or none; or it is playing and names one of them
-- and its task, and all others are done.
pub Reach-IsExclusive : {s t : World} → IsExclusive s → Reach s t → IsExclusive t
Reach-IsExclusive h here = h
Reach-IsExclusive h (next r st) = Step-IsExclusive st (Reach-IsExclusive h r)
