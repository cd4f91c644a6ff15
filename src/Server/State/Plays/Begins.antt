-- ===== src/Server/State/Plays/Begins.antt =====
-- POST /play while other plays have yet to return.
use mathlib.Core.Path.{subst}
use alex_claw.Prelude.{inl, inr, ◌≡◌, refl, ◌≢◌, sym, false, All, arith}
use alex_claw.Text.{Text, text_eq}
use alex_claw.Server.State.{World, play_begin}
use alex_claw.Server.State.Flight.{IsNumbered-cons}
use alex_claw.Server.State.Plays.{IsExclusive}

pub play_begin-IsExclusive :
    (id now : Text) (w : World)
    → All (λ q. q.play_id ≢ id) w.plays
    → IsExclusive w
    → IsExclusive (play_begin id now w).0
unfolding play_begin
play_begin-IsExclusive id now w new (inl r) = rw r.at_rest (
    inr (
      record { task = w.next_task; play_id = id; done = false; cancelling = false },
      w.plays,
      record {
        in_flight = refl;
        is_playing = refl;
        session = refl;
        play = refl;
        task = refl;
        no_recorder = r.no_recorder;
        over = r.over;
        others = new;
        numbered = IsNumbered-cons _ w.plays r.numbered;
      },
    ))
play_begin-IsExclusive id now w new (inr (p, ps, b)) =
    let refused : (play_begin id now w).0 ≡ w = ground arith in
    subst IsExclusive (sym refused) (inr (p, ps, b))
