-- ===== src/Server/State/Plays/Returns.antt =====
-- The `finally` of POST /play, for the play that the state names and for another.
use mathlib.Core.List.{Memᴰ}
use mathlib.Core.Path.{subst}
use alex_claw.Prelude.{
  inl, inr, Bool-cases, eqb, ◌⊎◌, ℕ, ◌≡◌, refl, ◌≢◌, sym, true, false, Option, none, some, List,
  ◌∷◌, arith, ==_iff,
}
use alex_claw.Text.{text_eq}
use alex_claw.Server.State.{
  Play, World, names, release, find_done, return_from, play_return, without,
}
use alex_claw.Server.State.Flight.{
  IsDone, IsNumbered, without-IsNumbered, All-Memᴰ, same_task-Memᴰ, without-All, without-Memᴰ,
  find_done_lem,
}
use alex_claw.Server.State.Plays.{IsResting, IsBusy, IsExclusive}
use alex_claw.Server.State.Plays.Stops.{Memᴰ-uncons}

-- The play that returns from rest: its id is dropped when the state still has it.
return-IsResting :
    (r : Play) (w : World) → IsResting w → Memᴰ r w.plays → IsResting (return_from (some r) w)
unfolding return_from release
return-IsResting r w h m = elim (Bool-cases (names w.app.play_id r.play_id)) [
  | inl own ↦ rw own record {
    at_rest = refl;
    no_session = refl;
    no_recorder = h.no_recorder;
    over = without-All IsDone r.task w.plays h.over;
    numbered = without-IsNumbered r.task w.next_task w.plays h.numbered;
    named = inl (refl, refl, refl);
  }
  | inr other ↦ rw other record {
    at_rest = h.at_rest;
    no_session = h.no_session;
    no_recorder = h.no_recorder;
    over = without-All IsDone r.task w.plays h.over;
    numbered = without-IsNumbered r.task w.next_task w.plays h.numbered;
    named = elim h.named [
      | inl reset ↦ inl reset
      | inr (q, k, e) ↦ inr (
        q,
        without-Memᴰ q r.task w.plays
            (λ same.
              let equal = same_task-Memᴰ q r w.plays h.numbered.apart k m same in
              ground (arith, ==_iff q.play_id r.play_id, equal))
            k,
        e,
      )
    ];
  }
]

-- The play that the state names returns.
return-own :
    (p : Play) (ps : List Play) (w : World)
    → IsBusy p ps w
    → IsDone p
    → IsResting (return_from (some p) w)
unfolding return_from release
return-own p ps w b over =
    let own : names w.app.play_id p.play_id ≡ true = ground (arith, ==_iff p.play_id p.play_id) in
    rw own record {
      at_rest = refl;
      no_session = refl;
      no_recorder = b.no_recorder;
      over = without-All IsDone p.task w.plays (rw b.in_flight (over, b.over));
      numbered = without-IsNumbered p.task w.next_task w.plays (rw b.in_flight b.numbered);
      named = inl (refl, refl, refl);
    }

-- Another play returns.
return-other :
    (r p : Play) (ps : List Play) (w : World)
    → IsBusy p ps w
    → Memᴰ r ps
    → IsBusy p (without r.task ps) (return_from (some r) w)
unfolding return_from release
return-other r p ps w b m =
    let id = All-Memᴰ (λ q. q.play_id ≢ p.play_id) r ps b.others m in
    let apart = All-Memᴰ (λ q. q.task ≢ p.task) r ps b.numbered.apart.0 m in
    let other : names w.app.play_id r.play_id ≡ false =
      ground (arith, ==_iff p.play_id r.play_id) in
    let kept : eqb p.task r.task ≡ false = ground arith in
    let still : without r.task (p ∷ ps) ≡ p ∷ without r.task ps = rw kept refl in
    rw other record {
      in_flight = rw b.in_flight still;
      is_playing = b.is_playing;
      session = b.session;
      play = b.play;
      task = b.task;
      no_recorder = b.no_recorder;
      over = without-All IsDone r.task ps b.over;
      others = without-All (λ q. q.play_id ≢ p.play_id) r.task ps b.others;
      numbered =
          subst (IsNumbered w.next_task) still
            (without-IsNumbered r.task w.next_task (p ∷ ps) b.numbered);
    }

found-IsExclusive :
    (r : Play) (w : World)
    → IsExclusive w
    → Memᴰ r w.plays
    → IsDone r
    → IsExclusive (return_from (some r) w)
found-IsExclusive r w (inl h) m over = inl (return-IsResting r w h m)
found-IsExclusive r w (inr (p, ps, b)) m over =
    elim (Memᴰ-uncons r p ps (subst (λ l. Memᴰ r l) b.in_flight m)) [
      | inl own ↦ inl (
          subst (λ q. IsResting (return_from (some q) w)) (sym own)
            (return-own p ps w b (subst IsDone own over)))
      | inr other ↦ inr (p, without r.task ps, return-other r p ps w b other)
    ]

pub Option-cases : (o : Option Play) → (o ≡ none) ⊎ ((r : Play) × (o ≡ some r))
Option-cases none = inl refl
Option-cases (some r) = inr (r, refl)

pub play_return-IsExclusive : (t : ℕ) (w : World) → IsExclusive w → IsExclusive (play_return t w)
unfolding play_return
play_return-IsExclusive t w h = elim (Option-cases (find_done t w.plays)) [
  | inl missing ↦ rw missing (unfold return_from in h)
  | inr (r, found) ↦
      let (m, same, over) = find_done_lem t w.plays r found in
      rw found (found-IsExclusive r w h m over)
]
