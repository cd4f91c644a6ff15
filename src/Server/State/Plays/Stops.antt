-- ===== src/Server/State/Plays/Stops.antt =====
-- The requests to stop a play, and whether a task of the plays in flight is live.
use mathlib.Core.List.{Memᴰ}
use mathlib.Core.Path.{subst}
use alex_claw.Prelude.{
  inl, inr, Bool-cases, ◌||◌, ◌⊎◌, ℕ, ◌≡◌, refl, sym, false, Option, none, some, List, [], ◌∷◌, All,
  arith, not,
}
use alex_claw.Text.{Text, text_eq}
use alex_claw.Server.State.{
  Play, World, names, live_task, cancel, stop_play, force_stop, cleanup_context, cleanup_end,
}
use alex_claw.Server.State.Flight.{IsDone, All-Memᴰ}
use alex_claw.Server.State.Plays.{IsResting, IsBusy, IsExclusive, stop_all, Running}
use alex_claw.Server.State.Plays.Updates.{cancel-IsExclusive}

-- A play that is done is not live, nor one of another task.
pub done-live_task : (t : Option ℕ) (ps : List Play) → All IsDone ps → live_task t ps ≡ false
unfolding live_task
done-live_task none ps h = refl
done-live_task (some t) [] h = refl
done-live_task (some t) (p ∷ ps) (d, h) = ground (arith, done-live_task (some t) ps h)

pub busy-live_task :
    (p : Play) (ps : List Play) (w : World)
    → IsBusy p ps w
    → live_task w.app.play_task w.plays ≡ not p.done
unfolding live_task
busy-live_task p ps w b =
    rw b.task (rw b.in_flight (ground (arith, done-live_task (some p.task) ps b.over)))

pub Memᴰ-uncons : (r p : Play) (ps : List Play) → Memᴰ r (p ∷ ps) → (r ≡ p) ⊎ Memᴰ r ps
Memᴰ-uncons r p ps (Memᴰ.head e) = inl e
Memᴰ-uncons r p ps (Memᴰ.tail m) = inr m

-- Of several plays in flight, all but the first are done.
pub Running-head :
    (id : Text) (p : Play) (ps : List Play) (w : World)
    → IsBusy p ps w
    → Running id w
    → (p.play_id ≡ id) × (p.done ≡ false)
Running-head id p ps w b (q, m, same, live) =
    elim (Memᴰ-uncons q p ps (subst (λ l. Memᴰ q l) b.in_flight m)) [
      | inl own ↦ subst (λ r. (r.play_id ≡ id) × (r.done ≡ false)) own (same, live)
      | inr other ↦ let over = All-Memᴰ IsDone q ps b.over other in absurd (ground arith)
    ]

pub stop_play-IsExclusive : (id : Text) (w : World) → IsExclusive w → IsExclusive (stop_play id w).0
unfolding stop_play
stop_play-IsExclusive id w (inl r) =
    let idle_task = done-live_task w.app.play_task w.plays r.over in
    let refused : (stop_play id w).0 ≡ w = ground arith in subst IsExclusive (sym refused) (inl r)
stop_play-IsExclusive id w (inr (p, ps, b)) =
    elim (Bool-cases (not (names w.app.play_id id) || not (live_task w.app.play_task w.plays))) [
      | inl gone ↦ rw gone (inr (p, ps, b))
      | inr live ↦ rw live (cancel-IsExclusive p ps w b)
    ]

-- `_cleanup` after the only play that may be live is done.
cleaned-IsResting :
    (p : Play) (ps : List Play) (w : World)
    → IsBusy p ps w
    → IsDone p
    → IsResting (cleanup_end (cleanup_context w))
unfolding cleanup_end cleanup_context
cleaned-IsResting p ps w b over = record {
  at_rest = refl;
  no_session = refl;
  no_recorder = refl;
  over = rw b.in_flight (over, b.over);
  numbered = rw b.in_flight b.numbered;
  named = inr (p, rw b.in_flight (Memᴰ.head refl), b.play);
}

pub stop_all-IsExclusive : (w : World) → IsExclusive w → IsExclusive (stop_all w)
unfolding force_stop
stop_all-IsExclusive w (inl r) =
    let rests : stop_all w ≡ w = ground arith in subst IsExclusive (sym rests) (inl r)
stop_all-IsExclusive w (inr (p, ps, b)) = elim (Bool-cases p.done) [
  | inl over ↦
      let gone = busy-live_task p ps w b in
      let cleans : stop_all w ≡ cleanup_end (cleanup_context w) = ground arith in
      subst IsExclusive (sym cleans) (inl (cleaned-IsResting p ps w b over))
  | inr running ↦
      let live = busy-live_task p ps w b in
      let cancels : stop_all w ≡ cancel w = ground arith in
      subst IsExclusive (sym cancels) (cancel-IsExclusive p ps w b)
]
