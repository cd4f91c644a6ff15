-- ===== src/Egress/Proxy/Faults.antt =====
-- What may go wrong with the streams and the task of a connection.
use alex_claw.Prelude.{◌⊎◌, true, ℕ, ◌≡◌, refl, Option, none, some}
use alex_claw.Text.{Text, text_eq}
use alex_claw.Egress.Run.{
  Exception, Result, ok, raised, blocked, connection_error, value_error, incomplete_read,
  limit_overrun, os_error, cancelled, Fault, reset, os_failure, cancellation, fault, read_error,
  breaks, ends, lift,
}
use alex_claw.Egress.Run.Laws.{IsMild, Raises, Raises-pure, Raises-lift, Raises-raised, Raises-emit}
use alex_claw.Egress.Address.{Net}
use alex_claw.Egress.Wire.Errors.{Mildly}
use alex_claw.Egress.Proxy.{refuse}

-- Something in the network, or the cancellation of a task, that a connection is not prepared for: the
-- client's stream or a server's ends so, or an opening or the wait for a tunnel is cancelled.
abbrev pub Meets : Net → Fault → Type 0
Meets net f =
    (net.client_ends ≡ some f)
    ⊎ ((a : Text) × (p : ℕ) × (net.upstream_ends a p ≡ some f))
    ⊎ ((a : Text) × (p : ℕ) × (net.cancels_open a p ≡ true) × (f ≡ cancellation))
    ⊎ ((a : Text) × (p : ℕ) × (net.cancels_relay a p ≡ true) × (f ≡ cancellation))

-- What may go wrong while a request is served.
abbrev pub Escapes : Net → Exception → Type 0
Escapes net blocked = ⊥
Escapes net os_error = Meets net os_failure
Escapes net cancelled = Meets net cancellation
Escapes net _ = Unit

-- The same of a connection that is opened; it may be refused, too.
abbrev pub OpenEscapes : Net → Exception → Type 0
OpenEscapes net blocked = Unit
OpenEscapes net x = Escapes net x

mild-Escapes : (net : Net) (x : Exception) → IsMild x → Escapes net x
mild-Escapes net connection_error h = tt
mild-Escapes net value_error h = tt
mild-Escapes net incomplete_read h = tt
mild-Escapes net limit_overrun h = tt
mild-Escapes net blocked h = elim h [ ]
mild-Escapes net os_error h = elim h [ ]
mild-Escapes net cancelled h = elim h [ ]

pub Raises-mild : {A : Type 0} (net : Net) (r : Result A) → Mildly r → Raises (Escapes net) (lift r)
Raises-mild net r h = Raises-lift r (λ x e. mild-Escapes net x (h x e))

fault-Escapes : (net : Net) (f : Fault) → Meets net f → Escapes net (fault f)
unfolding fault
fault-Escapes net reset h = tt
fault-Escapes net os_failure h = h
fault-Escapes net cancellation h = h

read_error-Escapes :
    (net : Net) (o : Option Fault)
    → ((f : Fault) → o ≡ some f → Meets net f)
    → Escapes net (read_error o)
unfolding read_error
read_error-Escapes net none h = tt
read_error-Escapes net (some f) h = fault-Escapes net f (h f refl)

pub Raises-breaks :
    {A : Type 0} (net : Net) (o : Option Fault) (r : Result A)
    → ((f : Fault) → o ≡ some f → Meets net f)
    → Mildly r
    → Raises (Escapes net) (lift (breaks o r))
unfolding breaks
Raises-breaks net o (ok a) h k = Raises-pure a
Raises-breaks net o (raised incomplete_read) h k = Raises-raised _ (read_error-Escapes net o h)
Raises-breaks net o (raised connection_error) h k = Raises-raised _ tt
Raises-breaks net o (raised value_error) h k = Raises-raised _ tt
Raises-breaks net o (raised limit_overrun) h k = Raises-raised _ tt
Raises-breaks net o (raised blocked) h k = absurd (k blocked refl)
Raises-breaks net o (raised os_error) h k = absurd (k os_error refl)
Raises-breaks net o (raised cancelled) h k = absurd (k cancelled refl)

pub Raises-ends :
    (net : Net) (o : Option Fault)
    → ((f : Fault) → o ≡ some f → Meets net f)
    → Raises (Escapes net) (lift (ends o))
unfolding ends
Raises-ends net none h = Raises-pure tt
Raises-ends net (some f) h = Raises-raised _ (fault-Escapes net f (h f refl))

pub refuse-Raises :
    (net : Net) (status : ℕ) (reason : Text) → Raises (Escapes net) (refuse status reason)
unfolding refuse
refuse-Raises net status reason = Raises-emit _
