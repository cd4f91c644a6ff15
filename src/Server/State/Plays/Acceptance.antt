-- ===== src/Server/State/Plays/Acceptance.antt =====
-- When POST /play/{id}/stop is accepted.
use mathlib.Core.List.{Memᴰ}
use alex_claw.Prelude.{inl, inr, ◌≡◌, refl, ◌≢◌, ◌↔◌, arith, ==_iff}
use alex_claw.Text.{Text, text_eq}
use alex_claw.Server.State.{World, accepted, status, stop_play}
use alex_claw.Server.State.Flight.{IsDone, All-Memᴰ}
use alex_claw.Server.State.Plays.{IsExclusive, Running}
use alex_claw.Server.State.Plays.Stops.{done-live_task, busy-live_task, Running-head}

accepts_iff :
    (id : Text) (w : World) → IsExclusive w → ((stop_play id w).1 ≡ accepted) ↔ Running id w
unfolding stop_play
accepts_iff id w (inl r) =
    let over = done-live_task w.app.play_task w.plays r.over in
    (
      λ h. absurd (ground arith),
      λ (q, m, same, live). let done = All-Memᴰ IsDone q w.plays r.over m in absurd (ground arith),
    )
accepts_iff id w (inr (p, ps, b)) =
    let live = busy-live_task p ps w b in
    (
      λ h. (p, rw b.in_flight (Memᴰ.head refl), ground (arith, ==_iff p.play_id id), ground arith),
      λ run.
          let (same, running) = Running-head id p ps w b run in ground (arith, ==_iff p.play_id id),
    )

refuses :
    (id : Text) (w : World)
    → (stop_play id w).1 ≢ accepted
    → ((stop_play id w).1 ≡ status 404) × ((stop_play id w).0 ≡ w)
unfolding stop_play
refuses id w h = ground arith

-- While nobody records, and the state is of the kind that the steps of the plays keep: POST
-- /play/{id}/stop is accepted exactly when a play in flight has this id and its task is not done;
-- otherwise it is a 404 and changes nothing.
pub stop_play_lem :
    (id : Text) (w : World)
    → IsExclusive w
    → (((stop_play id w).1 ≡ accepted) ↔ Running id w)
      × ((stop_play id w).1 ≢ accepted
          → ((stop_play id w).1 ≡ status 404) × ((stop_play id w).0 ≡ w))
stop_play_lem id w h = (accepts_iff id w h, refuses id w)
