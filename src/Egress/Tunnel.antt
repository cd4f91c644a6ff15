-- ===== src/Egress/Tunnel.antt =====
-- The tunnel of a CONNECT: `_pipe` in each direction and `_pipe_both`, as steps that interleave with
-- what the two ends send.
pub mod Order
pub mod Ending
use alex_claw.Prelude.{ℕ, ◌≤◌, ◌<◌, ◌≡◌, Bool, true, false, List, [], ◌++◌, take, drop, length}
use alex_claw.Text.{Text}

-- One direction. `arrived` is all that its sender has sent so far, `incoming` what of it is not read
-- yet; `eof` says that the sender has closed.
pub record Pipe : Type 0 where
  pub arrived : Text
  pub incoming : Text
  pub written : Text
  pub eof : Bool
  pub running : Bool

-- `up` reads from the client, `down` from the server.
pub record Tunnel : Type 0 where
  pub up : Pipe
  pub down : Pipe
  pub ended : Bool
  pub upstream_closed : Bool

abbrev pub chunk_limit : ℕ
chunk_limit = 65536

-- One round of the loop of `_pipe`: a chunk that `read` returns is written before the next await.
pub pump : ℕ → Pipe → Pipe
pump n p = record p { incoming = drop n p.incoming; written = p.written ++ take n p.incoming }

-- The task of `_pipe` is done: at the end of its input, with an exception, or cancelled.
pub finish : Pipe → Pipe
finish p = record p { running = false }

-- The sender's bytes come in.
unfoldable pub arrive : Text → Pipe → Pipe
arrive bytes p = record p { arrived = p.arrived ++ bytes; incoming = p.incoming ++ bytes }

unfoldable pub hang_up : Pipe → Pipe
hang_up p = record p { eof = true }

-- The `finally` clause of `_pipe_both`: both tasks are cancelled, and the server's socket is closed.
pub close_both : Tunnel → Tunnel
close_both t = record {
  up = finish t.up;
  down = finish t.down;
  ended = true;
  upstream_closed = true;
}

-- What one direction does, alone or moved by its sender.
pub data Turn : Pipe → Pipe → Type 0 where
  pumps :
      (n : ℕ) (p : Pipe)
      → p.running ≡ true
      → 0 < n
      → n ≤ chunk_limit
      → n ≤ length p.incoming
      → Turn p (pump n p)
  reads_eof : (p : Pipe) → p.running ≡ true → p.eof ≡ true → p.incoming ≡ [] → Turn p (finish p)
  breaks : (p : Pipe) → p.running ≡ true → Turn p (finish p)
  arrives : (bytes : Text) (p : Pipe) → p.eof ≡ false → Turn p (arrive bytes p)
  hangs_up : (p : Pipe) → Turn p (hang_up p)

-- `asyncio.wait` returns once one of the tasks is done; `cancelled` is a cancellation that arrives
-- while it waits.
pub data Step : Tunnel → Tunnel → Type 0 where
  upward : (t : Tunnel) (p : Pipe) → Turn t.up p → Step t (record t { up = p })
  downward : (t : Tunnel) (p : Pipe) → Turn t.down p → Step t (record t { down = p })
  up_done : (t : Tunnel) → t.ended ≡ false → t.up.running ≡ false → Step t (close_both t)
  down_done : (t : Tunnel) → t.ended ≡ false → t.down.running ≡ false → Step t (close_both t)
  cancelled : (t : Tunnel) → t.ended ≡ false → Step t (close_both t)

pub data Reach (s : Tunnel) : Tunnel → Type 0 where
  here : Reach s s
  next : {t u : Tunnel} → Reach s t → Step t u → Reach s u

abbrev pub new_pipe : Pipe
new_pipe = record { arrived = []; incoming = []; written = []; eof = false; running = true }

-- `_pipe_both` as it begins.
abbrev pub new_tunnel : Tunnel
new_tunnel = record { up = new_pipe; down = new_pipe; ended = false; upstream_closed = false }
