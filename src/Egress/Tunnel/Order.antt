-- ===== src/Egress/Tunnel/Order.antt =====
-- What comes out of a tunnel, and when.
use mathlib.Core.List.{append_assoc}
use alex_claw.Prelude.{
  ℕ, zero, suc, ◌≡◌, refl, ap, sym, ◌∙◌, true, false, [], ◌∷◌, ◌++◌, take, drop,
}
use alex_claw.Text.{Text}
use alex_claw.Egress.Tunnel.{
  Pipe, Tunnel, pump, finish, arrive, hang_up, close_both, Turn, pumps, reads_eof, breaks, arrives,
  hangs_up, Step, upward, downward, up_done, down_done, cancelled, Reach, here, next,
}

-- What was written is the beginning of what was sent, and the rest is still to be read.
abbrev pub InOrder : Pipe → Type 0
InOrder p = p.written ++ p.incoming ≡ p.arrived

-- Both directions are in order; once the tunnel has ended no task runs and the server's socket is
-- closed, and before that it is open.
pub record IsTunnel (t : Tunnel) : Type 0 where
  pub up_in_order : InOrder t.up
  pub down_in_order : InOrder t.down
  pub quiet : t.ended ≡ true → (t.up.running ≡ false) × (t.down.running ≡ false)
  pub closed : t.upstream_closed ≡ t.ended

take-append-drop : (n : ℕ) (s : Text) → take n s ++ drop n s ≡ s
take-append-drop zero [] = refl
take-append-drop zero (x ∷ s) = refl
take-append-drop (suc n) [] = refl
take-append-drop (suc n) (x ∷ s) = ap (λ t. x ∷ t) (take-append-drop n s)

Turn-InOrder : {p q : Pipe} → Turn p q → InOrder p → InOrder q
unfolding pump finish arrive hang_up
Turn-InOrder (pumps n p run pos small fits) h =
    append_assoc p.written (take n p.incoming) (drop n p.incoming)
    ∙ ap (λ t. p.written ++ t) (take-append-drop n p.incoming)
    ∙ h
Turn-InOrder (reads_eof p run eof empty) h = h
Turn-InOrder (breaks p run) h = h
Turn-InOrder (arrives bytes p open_end) h =
    sym (append_assoc p.written p.incoming bytes) ∙ ap (λ t. t ++ bytes) h
Turn-InOrder (hangs_up p) h = h

-- A task that is done does not run again.
Turn-done : {p q : Pipe} → Turn p q → p.running ≡ false → q.running ≡ false
unfolding pump finish arrive hang_up
Turn-done (pumps n p run pos small fits) h = h
Turn-done (reads_eof p run eof empty) h = refl
Turn-done (breaks p run) h = refl
Turn-done (arrives bytes p open_end) h = h
Turn-done (hangs_up p) h = h

closes : (t : Tunnel) → IsTunnel t → IsTunnel (close_both t)
unfolding close_both finish
closes t h = record {
  up_in_order = h.up_in_order;
  down_in_order = h.down_in_order;
  quiet = λ e. (refl, refl);
  closed = refl;
}

Step-IsTunnel : {s t : Tunnel} → Step s t → IsTunnel s → IsTunnel t
Step-IsTunnel (upward t p turn) h = record {
  up_in_order = Turn-InOrder turn h.up_in_order;
  down_in_order = h.down_in_order;
  quiet = λ e. (Turn-done turn (h.quiet e).0, (h.quiet e).1);
  closed = h.closed;
}
Step-IsTunnel (downward t p turn) h = record {
  up_in_order = h.up_in_order;
  down_in_order = Turn-InOrder turn h.down_in_order;
  quiet = λ e. ((h.quiet e).0, Turn-done turn (h.quiet e).1);
  closed = h.closed;
}
Step-IsTunnel (up_done t open_end done) h = closes t h
Step-IsTunnel (down_done t open_end done) h = closes t h
Step-IsTunnel (cancelled t open_end) h = closes t h

-- However reads, writes, arrivals, hang-ups, failures and a cancellation interleave, and from any
-- tunnel of which this holds: what each end has got is the beginning of what the other has sent, in
-- order and without a gap; the server's socket is closed exactly when the tunnel has ended; and no
-- task runs then.
pub Reach-IsTunnel : {s t : Tunnel} → IsTunnel s → Reach s t → IsTunnel t
Reach-IsTunnel h here = h
Reach-IsTunnel h (next r st) = Step-IsTunnel st (Reach-IsTunnel h r)
