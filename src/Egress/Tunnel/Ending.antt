-- ===== src/Egress/Tunnel/Ending.antt =====
-- How a tunnel comes to its end by its own steps.
use alex_claw.Prelude.{ℕ, suc, ◌+◌, ◌≡◌, Bool, true, false, not, [], ◌∷◌, ◌++◌, length, arith}
use alex_claw.Text.{Text}
use alex_claw.Egress.Tunnel.{
  Pipe, Tunnel, pump, close_both, Turn, pumps, reads_eof, breaks, arrives, hangs_up, Step, upward,
  downward, up_done, down_done, cancelled,
}

-- What the code does by itself, and nobody else: no arrival, no hang-up, no failure.
abbrev IsOwnTurn : {p q : Pipe} → Turn p q → Type 0
IsOwnTurn (pumps n p run low high there) = Unit
IsOwnTurn (reads_eof p run eof e) = Unit
IsOwnTurn (breaks p run) = ⊥
IsOwnTurn (arrives bytes p eof) = ⊥
IsOwnTurn (hangs_up p) = ⊥

-- The same of a step of the tunnel; a cancellation comes from outside.
abbrev pub IsOwn : {s t : Tunnel} → Step s t → Type 0
IsOwn (upward t p turn) = IsOwnTurn turn
IsOwn (downward t p turn) = IsOwnTurn turn
IsOwn (up_done t open_end done) = Unit
IsOwn (down_done t open_end done) = Unit
IsOwn (cancelled t open_end) = ⊥

-- So many own steps lead from `s` to the other tunnel.
pub data Owns (s : Tunnel) : ℕ → Tunnel → Type 0 where
  stays : Owns s 0 s
  goes : {n : ℕ} {t u : Tunnel} → Owns s n t → (st : Step t u) → IsOwn st → Owns s (suc n) u

-- One round for the first byte.
pump-one :
    (c : ℕ) (rest : Text) (p : Pipe)
    → p.incoming ≡ c ∷ rest
    → pump 1 p ≡ record p { incoming = rest; written = p.written ++ c ∷ [] }
unfolding pump
pump-one c rest p e = ground arith

-- The tunnel with its ends exchanged.
flip : Tunnel → Tunnel
flip t = record { up = t.down; down = t.up; ended = t.ended; upstream_closed = t.upstream_closed }

Step-flip : {s t : Tunnel} → Step s t → Step (flip s) (flip t)
unfolding flip close_both
Step-flip (upward t p turn) = downward (flip t) p turn
Step-flip (downward t p turn) = upward (flip t) p turn
Step-flip (up_done t open_end done) = down_done (flip t) open_end done
Step-flip (down_done t open_end done) = up_done (flip t) open_end done
Step-flip (cancelled t open_end) = cancelled (flip t) open_end

-- Own steps lead to the end, with the server's socket closed and these bytes written to one end.
abbrev pub EndsWith : Tunnel → (Tunnel → Pipe) → Text → Type 0
EndsWith s side bytes =
    (t : Tunnel) × ((n : ℕ) × Owns s n t)
    × (t.ended ≡ true)
    × (t.upstream_closed ≡ true)
    × ((side t).written ≡ bytes)

flag : Bool → ℕ
flag true = 1
flag false = 0

-- What is left to read, the tasks that run, and the end itself.
pub work : Tunnel → ℕ
work t =
    length t.up.incoming
    + length t.down.incoming
    + flag t.up.running
    + flag t.down.running
    + flag (not t.ended)
