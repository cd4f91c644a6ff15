-- ===== src/Server/State/Plays/Slot.antt =====
-- One slot for plays: what a client sees of all of them.
use mathlib.Core.List.{Memᴰ}
use mathlib.Core.Path.{subst}
use alex_claw.Prelude.{
  inl, inr, Bool-cases, ℕ, ◌≡◌, refl, ◌≢◌, sym, Option, none, some, List, arith, ==_iff,
}
use alex_claw.Text.{Text, text_eq}
use alex_claw.Server.State.{
  Play, World, play_begin, release, cancel, stop_play, task_done, disconnect, find_done,
  return_from, play_return, force_stop, cleanup_end,
}
use alex_claw.Server.State.Flight.{IsDone, All-Memᴰ, find_done_lem}
use alex_claw.Server.State.Plays.{
  IsBusy, IsExclusive, stop_all, Step, Reach, Running, begin, ends, returns, disconnects, stops,
  forced,
}
use alex_claw.Server.State.Plays.Stops.{busy-live_task, Memᴰ-uncons}
use alex_claw.Server.State.Plays.Returns.{Option-cases}
use alex_claw.Server.State.Plays.Exclusion.{Reach-IsExclusive}

-- The specification: a slot that is free or has one holder. It is taken when it is free, and left
-- when its holder is `over`.
pub data Move (over : Text → Type 0) : Option Text → Option Text → Type 0 where
  stays : (o : Option Text) → Move over o o
  taken : (id : Text) → Move over none (some id)
  left : (id : Text) → over id → Move over (some id) none

-- The slot as the state has it: the id that GET /status answers with.
abbrev pub slot : World → Option Text
slot w = w.app.session_id

-- No play of this id runs.
abbrev pub Over : World → Text → Type 0
Over w id = ¬ Running id w

abbrev Moves : World → World → Type 0
Moves w u = Move (Over w) (slot w) (slot u)

still : (w u : World) → slot u ≡ slot w → Moves w u
still w u e = subst (λ o. Move (Over w) (slot w) o) (sym e) (stays (slot w))

frees :
    (p : Play) (ps : List Play) (w u : World) → IsBusy p ps w → IsDone p → slot u ≡ none → Moves w u
frees p ps w u b over e = rw b.session (
    rw e (
      left p.play_id (λ (q, m, same, live).
        elim (Memᴰ-uncons q p ps (subst (λ l. Memᴰ q l) b.in_flight m)) [
          | inl own ↦ ground arith
          | inr other ↦ let done = All-Memᴰ IsDone q ps b.over other in ground arith
        ])))

takes : (id : Text) (w u : World) → slot w ≡ none → slot u ≡ some id → Moves w u
takes id w u free e =
    subst (λ o. Move (Over w) o (slot u)) (sym free)
      (subst (λ o. Move (Over w) none o) (sym e) (taken id))

begin-Moves : (id now : Text) (w : World) → IsExclusive w → Moves w (play_begin id now w).0
unfolding play_begin
begin-Moves id now w (inl r) = takes id w (play_begin id now w).0 r.no_session (ground arith)
begin-Moves id now w (inr (p, ps, b)) = still w (play_begin id now w).0 (ground arith)

stop_all-Moves : (w : World) → IsExclusive w → Moves w (stop_all w)
unfolding force_stop cleanup_end cancel
stop_all-Moves w (inl r) = still w (stop_all w) (ground arith)
stop_all-Moves w (inr (p, ps, b)) = elim (Bool-cases p.done) [
  | inl over ↦ let gone = busy-live_task p ps w b in frees p ps w (stop_all w) b over (ground arith)
  | inr running ↦ let live = busy-live_task p ps w b in still w (stop_all w) (ground arith)
]

stop_play-slot : (id : Text) (w : World) → slot (stop_play id w).0 ≡ slot w
unfolding stop_play cancel
stop_play-slot id w = ground arith

-- What a return does to the slot, when the play is found.
found-Moves :
    (r : Play) (w : World)
    → IsExclusive w
    → Memᴰ r w.plays
    → IsDone r
    → Moves w (return_from (some r) w)
unfolding return_from release
found-Moves r w (inl h) m over = still w (return_from (some r) w) (ground arith)
found-Moves r w (inr (p, ps, b)) m over =
    elim (Memᴰ-uncons r p ps (subst (λ l. Memᴰ r l) b.in_flight m)) [
      | inl own ↦
          frees p ps w (return_from (some r) w) b (subst IsDone own over)
            (ground (arith, ==_iff r.play_id p.play_id, own))
      | inr other ↦
          let id = All-Memᴰ (λ q. q.play_id ≢ p.play_id) r ps b.others other in
          still w (return_from (some r) w) (ground (arith, ==_iff p.play_id r.play_id))
    ]

play_return-Moves : (t : ℕ) (w : World) → IsExclusive w → Moves w (play_return t w)
unfolding play_return
play_return-Moves t w h = elim (Option-cases (find_done t w.plays)) [
  | inl missing ↦ still w (play_return t w) (rw missing (unfold return_from in refl))
  | inr (r, found) ↦
      let (m, same, over) = find_done_lem t w.plays r found in
      subst (λ o. Moves w (return_from o w)) (sym found) (found-Moves r w h m over)
]

Step-Moves : {t u : World} → Step t u → IsExclusive t → Moves t u
Step-Moves (begin id now w new) h = begin-Moves id now w h
Step-Moves (ends t w) h = still w (task_done t w) (unfold task_done in refl)
Step-Moves (returns t w) h = play_return-Moves t w h
Step-Moves (disconnects t w) h = still w (disconnect t w) (unfold disconnect in refl)
Step-Moves (stops id w) h = still w (stop_play id w).0 (stop_play-slot id w)
Step-Moves (forced w) h = stop_all-Moves w h

-- After any such interleaving from a state of this kind, each further step moves the one slot of
-- the plays as its specification does: the slot stays, or it was free and is taken, or it is left,
-- and then no play with the id of its holder was running.
pub Reach-Move :
    {s t u : World} → IsExclusive s → Reach s t → Step t u → Move (Over t) (slot t) (slot u)
Reach-Move h r st = Step-Moves st (Reach-IsExclusive h r)
