-- ===== src/Server/State/Plays.antt =====
-- Plays alone, while nobody records: which are in flight, and what the state says of them.
pub mod Begins
pub mod Updates
pub mod Stops
pub mod Returns
pub mod Exclusion
pub mod Acceptance
pub mod Slot
use mathlib.Core.List.{Memᴰ}
use mathlib.Core.Path.{subst}
use alex_claw.Prelude.{
  inl, inr, Bool-cases, ◌&&◌, ◌||◌, eqb, eqb_iff, ◌⊎◌, if◌then◌else◌, ℕ, suc, ◌<◌, ◌≡◌, refl, ◌≢◌,
  ◌↔◌, ap, sym, ◌∙◌, true, false, Option, none, some, List, [], ◌∷◌, All, map, arith, ==_iff, ◌==◌,
  not, any, keep,
}
use alex_claw.Text.{Text, text_eq}
use alex_claw.Server.State.{
  idle, playing, Play, World, accepted, status, names, is_live, end_play, play_begin, release,
  live_task, mark_cancelled, cancel, stop_play, task_done, disconnect, find_done, return_from,
  play_return, force_stop, cleanup_context, cleanup_end, without,
}
use alex_claw.Server.State.Flight.{
  IsDone, Apart, IsNumbered, IsTame, end_play-IsTame, mark, mark-IsTame, mark_cancelled-map,
  map-IsDone, map-tasks, map-ids, map-Apart, map-Memᴰ, All-Memᴰ, same_task-Memᴰ, without-All,
  without-Apart, without-Memᴰ, find_done_lem,
}

-- The state has the id of one of these plays, or its fields are as they were at the start.
abbrev pub Leftover : World → Type 0
Leftover w =
    ((w.app.play_id ≡ none) × (w.app.play_task ≡ none) × (w.app.play_stopping ≡ false))
    ⊎ ((q : Play) × Memᴰ q w.plays × (w.app.play_id ≡ some q.play_id))

-- The state is idle; every play whose call has not returned is done.
pub record IsResting (w : World) : Type 0 where
  pub at_rest : w.app.state ≡ idle
  pub no_session : w.app.session_id ≡ none
  pub no_recorder : w.app.recorder ≡ none
  pub over : All IsDone w.plays
  pub numbered : IsNumbered w.next_task w.plays
  pub named : Leftover w

-- The state is playing and names `p` and its task; the plays `ps` whose calls have not returned
-- either are done, and have other ids.
pub record IsBusy (p : Play) (ps : List Play) (w : World) : Type 0 where
  pub in_flight : w.plays ≡ p ∷ ps
  pub is_playing : w.app.state ≡ playing
  pub session : w.app.session_id ≡ some p.play_id
  pub play : w.app.play_id ≡ some p.play_id
  pub task : w.app.play_task ≡ some p.task
  pub no_recorder : w.app.recorder ≡ none
  pub over : All IsDone ps
  pub others : All (λ q. q.play_id ≢ p.play_id) ps
  pub numbered : IsNumbered w.next_task (p ∷ ps)

abbrev pub IsExclusive : World → Type 0
IsExclusive w = IsResting w ⊎ ((p : Play) × (ps : List Play) × IsBusy p ps w)

-- POST /stop with the `_cleanup` it may go on to. While nobody records there is no context and no
-- browser to close, and nothing else runs in between.
abbrev pub stop_all : World → World
stop_all w =
    if (force_stop w).1 then cleanup_end (cleanup_context (force_stop w).0) else (force_stop w).0

-- One step of the plays, their clients and the requests to stop them, in any order. No two calls in
-- flight have the same id.
pub data Step : World → World → Type 0 where
  begin :
      (id now : Text) (w : World)
      → All (λ q. q.play_id ≢ id) w.plays
      → Step w (play_begin id now w).0
  ends : (t : ℕ) (w : World) → Step w (task_done t w)
  returns : (t : ℕ) (w : World) → Step w (play_return t w)
  disconnects : (t : ℕ) (w : World) → Step w (disconnect t w)
  stops : (id : Text) (w : World) → Step w (stop_play id w).0
  forced : (w : World) → Step w (stop_all w)

pub data Reach (s : World) : World → Type 0 where
  here : Reach s s
  next : {t u : World} → Reach s t → Step t u → Reach s u

-- A play in flight of this id is not done.
abbrev pub Running : Text → World → Type 0
Running id w = (q : Play) × Memᴰ q w.plays × (q.play_id ≡ id) × (q.done ≡ false)
