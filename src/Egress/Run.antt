-- ===== src/Egress/Run.antt =====
-- Coroutines of the proxy: a result or an exception, beside the list of what was done to the network.
-- A stream is the list of all bytes that its sender writes before it closes, or before it breaks.
pub mod Laws
use alex_claw.Prelude.{ℕ, Option, none, some, List, [], ◌∷◌, ◌++◌}
use alex_claw.Text.{Text}

-- `Blocked`, `ConnectionError`, `ValueError`, `IncompleteReadError`, `LimitOverrunError`, an `OSError`
-- that is none of these, and `CancelledError`.
pub data Exception : Type 0 where
  blocked connection_error value_error incomplete_read limit_overrun : Exception
  os_error cancelled : Exception

-- What may come of a wait for more bytes: a reset, another error of the system, or a cancellation of
-- the task.
pub data Fault : Type 0 where
  reset os_failure cancellation : Fault

unfoldable pub fault : Fault → Exception
fault reset = connection_error
fault os_failure = os_error
fault cancellation = cancelled

-- The exception of a read that runs out of bytes: the stream is closed, or it is broken.
unfoldable pub read_error : Option Fault → Exception
unfolding fault
read_error none = incomplete_read
read_error (some f) = fault f

pub data Result (A : Type 0) : Type 0 where
  ok : A → Result A
  raised : Exception → Result A

-- A read from a stream that ends in this way.
unfoldable pub breaks : {A : Type 0} → Option Fault → Result A → Result A
unfolding read_error
breaks o (ok a) = ok a
breaks o (raised incomplete_read) = raised (read_error o)
breaks o (raised x) = raised x

-- The end of a copy of all bytes from a stream that ends in this way.
unfoldable pub ends : Option Fault → Result Unit
unfolding fault
ends none = ok tt
ends (some f) = raised (fault f)

pub data Event : Type 0 where
  -- `open_connection(address, port)` is tried
  connect : Text → ℕ → Event
  -- bytes written to the client, and to the server
  reply send : Text → Event
  -- `_pipe_both`: both directions are relayed until one side closes
  relay : Event
  close_upstream close_client : Event

pub record Run (A : Type 0) : Type 0 where
  pub outcome : Result A
  pub trace : List Event

module _ {A : Type 0} where
  abbrev pub pure : A → Run A
  pure a = record { outcome = ok a; trace = [] }

  abbrev pub lift : Result A → Run A
  lift r = record { outcome = r; trace = [] }

  -- The outcome as a value, for the `except` clauses that follow.
  abbrev pub attempt : Run A → Run (Result A)
  attempt m = record { outcome = ok m.outcome; trace = m.trace }

abbrev pub emit : Event → Run Unit
emit e = record { outcome = ok tt; trace = e ∷ [] }

module _ {A B : Type 0} where
  abbrev pub continue : Result A → List Event → (A → Run B) → Run B
  continue (ok a) t f = record { outcome = (f a).outcome; trace = t ++ (f a).trace }
  continue (raised x) t f = record { outcome = raised x; trace = t }

  infixl 5 ◌>>=◌
  unfoldable pub ◌>>=◌ : Run A → (A → Run B) → Run B
  m >>= f = continue m.outcome m.trace f

module _ {B : Type 0} where
  infixl 5 ◌>>◌
  abbrev pub ◌>>◌ : Run Unit → Run B → Run B
  m >> n = m >>= λ _. n

module _ {A : Type 0} where
  -- `try: m finally: last`, for a `last` that cannot fail.
  unfoldable pub finally : Run A → Event → Run A
  finally m last = record { outcome = m.outcome; trace = m.trace ++ last ∷ [] }
