-- ===== src/Server/State/Plays/Updates.antt =====
-- Steps that change the plays in flight one by one: a task ends or is cancelled.
use mathlib.Core.Path.{subst}
use alex_claw.Prelude.{inl, inr, ℕ, ◌≡◌, ◌≢◌, ap, sym, ◌∙◌, true, some, List, ◌∷◌, map, arith}
use alex_claw.Text.{text_eq}
use alex_claw.Server.State.{Play, World, end_play, mark_cancelled, cancel, task_done, disconnect}
use alex_claw.Server.State.Flight.{
  IsTame, end_play-IsTame, mark, mark-IsTame, mark_cancelled-map, map-IsDone, map-IsNumbered,
  map-ids, map-Memᴰ,
}
use alex_claw.Server.State.Plays.{IsResting, IsBusy, IsExclusive, Leftover}

-- The state after an update of each play in flight.
abbrev changed : (Play → Play) → World → World
changed f w = record w { plays = map f w.plays }

module _ (f : Play → Play) (tame : IsTame f) where
  changed-Leftover : (w : World) → Leftover w → Leftover (changed f w)
  changed-Leftover w (inl reset) = inl reset
  changed-Leftover w (inr (q, m, e)) =
      inr (f q, map-Memᴰ f q w.plays m, e ∙ ap (λ i. some i) (sym (tame.same_id q)))

  changed-IsResting : (w : World) → IsResting w → IsResting (changed f w)
  changed-IsResting w r = record {
    at_rest = r.at_rest;
    no_session = r.no_session;
    no_recorder = r.no_recorder;
    over = map-IsDone f tame w.plays r.over;
    numbered = map-IsNumbered f tame w.next_task w.plays r.numbered;
    named = changed-Leftover w r.named;
  }

  changed-IsBusy :
      (p : Play) (ps : List Play) (w : World)
      → IsBusy p ps w
      → IsBusy (f p) (map f ps) (changed f w)
  changed-IsBusy p ps w b = record {
    in_flight = ap (map f) b.in_flight;
    is_playing = b.is_playing;
    session = b.session ∙ ap (λ i. some i) (sym (tame.same_id p));
    play = b.play ∙ ap (λ i. some i) (sym (tame.same_id p));
    task = b.task ∙ ap (λ i. some i) (sym (tame.same_task p));
    no_recorder = b.no_recorder;
    over = map-IsDone f tame ps b.over;
    others = rw (tame.same_id p) (map-ids f tame (λ i. i ≢ p.play_id) ps b.others);
    numbered = map-IsNumbered f tame w.next_task (p ∷ ps) b.numbered;
  }

  changed-IsExclusive : (w : World) → IsExclusive w → IsExclusive (changed f w)
  changed-IsExclusive w (inl r) = inl (changed-IsResting w r)
  changed-IsExclusive w (inr (p, ps, b)) = inr (f p, map f ps, changed-IsBusy p ps w b)

pub task_done-IsExclusive : (t : ℕ) (w : World) → IsExclusive w → IsExclusive (task_done t w)
unfolding task_done
task_done-IsExclusive t w h = changed-IsExclusive (end_play t) (end_play-IsTame t) w h

pub disconnect-IsExclusive : (t : ℕ) (w : World) → IsExclusive w → IsExclusive (disconnect t w)
unfolding disconnect
disconnect-IsExclusive t w h =
    rw (mark_cancelled-map t w.plays) (changed-IsExclusive (mark t) (mark-IsTame t) w h)

-- The note that a play is being stopped keeps what the state says of the plays.
stopping-IsBusy :
    (p : Play) (ps : List Play) (w : World)
    → IsBusy p ps w
    → IsBusy p ps (record w { app = record w.app { play_stopping = true } })
stopping-IsBusy p ps w b = ground arith

noted : World → World
noted w = record w { app = record w.app { play_stopping = true } }

cancel_lem : (t : ℕ) (w : World) → w.app.play_task ≡ some t → cancel w ≡ noted (changed (mark t) w)
unfolding cancel noted
cancel_lem t w e =
    ap (λ ps. record w { app = record w.app { play_stopping = true }; plays = ps })
      (ap (λ o. mark_cancelled o w.plays) e ∙ mark_cancelled-map t w.plays)

pub cancel-IsExclusive :
    (p : Play) (ps : List Play) (w : World) → IsBusy p ps w → IsExclusive (cancel w)
unfolding noted
cancel-IsExclusive p ps w b =
    let busy = changed-IsBusy (mark p.task) (mark-IsTame p.task) p ps w b in
    subst IsExclusive (sym (cancel_lem p.task w b.task)) (
      inr (
        mark p.task p,
        map (mark p.task) ps,
        stopping-IsBusy (mark p.task p) (map (mark p.task) ps) (changed (mark p.task) w) busy,
      ))
