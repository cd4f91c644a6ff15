-- ===== src/Egress/Proxy/Forwarding.antt =====
-- What a forwarded request makes the upstream server read.
use mathlib.Core.List.{append-nil}
use alex_claw.Prelude.{
  ℕ, zero, suc, ◌≤◌, ◌≡◌, refl, ap, ◌∙◌, inl, inr, false, Bool-cases, Option, none, some, List, [],
  ◌∷◌, ◌++◌, All, take, length, ltb, arith,
}
use alex_claw.Text.{Text, codes}
use alex_claw.Text.Number.{ℤ, pos, negsuc}
use alex_claw.Url.{SplitResult, urlsplit, hostname, port}
use alex_claw.Egress.Run.{
  Fault, read_error, breaks, os_error, cancelled, Result, ok, raised, blocked, connection_error,
  value_error, incomplete_read, limit_overrun, Event, connect, reply, send, relay, close_upstream,
  close_client, Exception, Run, lift, attempt, emit, ◌>>=◌, ◌>>◌,
}
use alex_claw.Egress.Run.Laws.{
  Emits, Emits-emit, Emits-pure, Emits-lift, Emits-bind, Emits-if, Emits-finally,
}
use alex_claw.Egress.Address.{Net}
use alex_claw.Egress.Wire.{read_head, read_exactly, end_to_end, has_header, content_length}
use alex_claw.Egress.Proxy.{
  refuse, request_path, request_head, try_open, open_host, settle, relay_response, send_body,
  forward_to, forward_host, forward_port, forward, or_value_error, port_or_80,
}

-- The bytes that are sent upstream.
abbrev pub sent : List Event → Text
sent [] = []
sent (send t ∷ es) = t ++ sent es
sent (_ ∷ es) = sent es

abbrev IsUnsent : Event → Type 0
IsUnsent (send t) = t ≡ []
IsUnsent _ = Unit

sent-IsUnsent : (es : List Event) → All IsUnsent es → sent es ≡ []
sent-IsUnsent [] h = refl
sent-IsUnsent (send t ∷ es) (q, h) = rw q (sent-IsUnsent es h)
sent-IsUnsent (connect a p ∷ es) (q, h) = sent-IsUnsent es h
sent-IsUnsent (reply t ∷ es) (q, h) = sent-IsUnsent es h
sent-IsUnsent (relay ∷ es) (q, h) = sent-IsUnsent es h
sent-IsUnsent (close_upstream ∷ es) (q, h) = sent-IsUnsent es h
sent-IsUnsent (close_client ∷ es) (q, h) = sent-IsUnsent es h

sent-after_unsent : (es fs : List Event) → All IsUnsent es → sent (es ++ fs) ≡ sent fs
sent-after_unsent [] fs h = refl
sent-after_unsent (send t ∷ es) fs (q, h) = rw q (sent-after_unsent es fs h)
sent-after_unsent (connect a p ∷ es) fs (q, h) = sent-after_unsent es fs h
sent-after_unsent (reply t ∷ es) fs (q, h) = sent-after_unsent es fs h
sent-after_unsent (relay ∷ es) fs (q, h) = sent-after_unsent es fs h
sent-after_unsent (close_upstream ∷ es) fs (q, h) = sent-after_unsent es fs h
sent-after_unsent (close_client ∷ es) fs (q, h) = sent-after_unsent es fs h

-- What a run sends: nothing; or the head alone, and it raises; or the head and as many bytes of the
-- rest as announced.
pub data Sends (head rest : Text) (announced : ℤ) (m : Run Unit) : Type 0 where
  nothing : sent m.trace ≡ [] → Sends head rest announced m
  cut_off :
      (x : Exception) → m.outcome ≡ raised x → sent m.trace ≡ head → Sends head rest announced m
  whole :
      (n : ℕ)
      → announced ≡ pos n
      → n ≤ length rest
      → sent m.trace ≡ head ++ take n rest
      → Sends head rest announced m

Sends-attempt_bind :
    (head rest : Text) (n : ℤ) (m : Run Text) (f : Result Text → Run Unit)
    → Emits IsUnsent m
    → Sends head rest n (f m.outcome)
    → Sends head rest n (attempt m >>= f)
unfolding ◌>>=◌
Sends-attempt_bind head rest n m f h (nothing q) =
    nothing (sent-after_unsent m.trace (f m.outcome).trace h.holds ∙ q)
Sends-attempt_bind head rest n m f h (cut_off x r q) =
    cut_off x r (sent-after_unsent m.trace (f m.outcome).trace h.holds ∙ q)
Sends-attempt_bind head rest n m f h (whole k e b q) =
    whole k e b (sent-after_unsent m.trace (f m.outcome).trace h.holds ∙ q)

module _ (net : Net) where
  try_open-IsUnsent : (p : ℕ) (addrs : List Text) → Emits IsUnsent (try_open net p addrs)
  unfolding try_open
  try_open-IsUnsent p [] = Emits-lift _
  try_open-IsUnsent p (a ∷ addrs) = Emits-bind _ _ (Emits-emit _ tt) (λ _.
      Emits-if (net.cancels_open a p) _ _ (λ _. Emits-lift _)
        (λ _. Emits-if (net.opens a p) _ _ (λ _. Emits-pure a) (λ _. try_open-IsUnsent p addrs)))

  module _ (allow : List Text) where
    open_host-IsUnsent : (host : Text) (p : ℕ) → Emits IsUnsent (open_host net allow host p)
    unfolding open_host
    open_host-IsUnsent host p = Emits-bind _ _ (Emits-lift _) (λ addrs. try_open-IsUnsent p addrs)

    relay_response-IsUnsent :
        (stream : Text) (end : Option Fault) → Emits IsUnsent (relay_response net allow stream end)
    unfolding relay_response
    relay_response-IsUnsent stream end =
        Emits-finally _ close_upstream
          (Emits-bind _ _ (Emits-lift (breaks end (read_head stream))) (λ (head, rest).
            Emits-bind _ _ (Emits-emit _ tt)
              (λ _. Emits-bind _ _ (Emits-emit _ tt) (λ _. Emits-lift _))))
          tt

    after_open :
        (request rest stream : Text) (end : Option Fault) (n : ℤ)
        → Sends request rest n (do
          emit (send request)
          send_body net allow n rest
          relay_response net allow stream end)
    unfolding ◌>>=◌ send_body read_exactly breaks
    after_open request rest stream end (pos zero) =
        whole 0 refl (omega arith)
          (ap (λ t. request ++ t) (sent-IsUnsent _ (relay_response-IsUnsent stream end).holds))
    after_open request rest stream end (pos (suc n)) =
        elim (Bool-cases (ltb (length rest) (suc n))) [
          | inl short ↦
              cut_off (read_error net.client_ends) (rw short refl) (rw short (append-nil request))
          | inr enough ↦ whole (suc n) refl (ground arith) (
              rw enough (
                ap (λ t. request ++ (take (suc n) rest ++ t))
                  (sent-IsUnsent _ (relay_response-IsUnsent stream end).holds)
                ∙ ap (λ t. request ++ t) (append-nil (take (suc n) rest))))
        ]
    after_open request rest stream end (negsuc n) = cut_off value_error refl (append-nil request)

    after_settle :
        (request rest : Text) (n : ℤ) (p : ℕ) (r : Result Text)
        → Sends request rest n (
            settle net allow
              (λ a. do
                emit (send request)
                send_body net allow n rest
                relay_response net allow (net.upstream a p) (net.upstream_ends a p))
              r)
    unfolding settle refuse
    after_settle request rest n p (ok a) =
        after_open request rest (net.upstream a p) (net.upstream_ends a p) n
    after_settle request rest n p (raised blocked) = nothing refl
    after_settle request rest n p (raised connection_error) = nothing refl
    after_settle request rest n p (raised value_error) = nothing refl
    after_settle request rest n p (raised incomplete_read) = nothing refl
    after_settle request rest n p (raised limit_overrun) = nothing refl
    after_settle request rest n p (raised os_error) = nothing refl
    after_settle request rest n p (raised cancelled) = nothing refl

    forward_to-Sends :
        (request : Text) (n : ℤ) (rest host : Text) (p : ℕ)
        → Sends request rest n (forward_to net allow request n rest host p)
    unfolding forward_to
    forward_to-Sends request n rest host p =
        Sends-attempt_bind request rest n (open_host net allow host p) _ (open_host-IsUnsent host p)
          (after_settle request rest n p (open_host net allow host p).outcome)

-- Nothing is sent; or the target splits, the headers that are passed on hold no Transfer-Encoding,
-- and what is sent is the rewritten head and the body that their Content-Length announces.
pub data IsFramed (method target version : Text) (header_lines : List Text) (rest : Text)
    (m : Run Unit) : Type 0 where
  unsent : sent m.trace ≡ [] → IsFramed method target version header_lines rest m
  framed :
      (u : SplitResult) (n : ℤ)
      → urlsplit target ≡ some u
      → has_header (codes "transfer-encoding") (end_to_end header_lines) ≡ false
      → content_length (end_to_end header_lines) ≡ ok n
      → Sends (request_head method (request_path u) version (end_to_end header_lines)) rest n m
      → IsFramed method target version header_lines rest m

module _ (net : Net) (allow : List Text) (method target version : Text) (header_lines : List Text)
    (rest : Text) where
  measured :
      (u : SplitResult) (host : Text) (p : ℕ) (r : Result ℤ)
      → urlsplit target ≡ some u
      → has_header (codes "transfer-encoding") (end_to_end header_lines) ≡ false
      → content_length (end_to_end header_lines) ≡ r
      → IsFramed method target version header_lines rest (do
        n ← lift r
        forward_to net allow
            (request_head method (request_path u) version (end_to_end header_lines))
            n
            rest
            host
            p)
  unfolding ◌>>=◌
  measured u host p (raised x) e t c = unsent refl
  measured u host p (ok n) e t c = framed u n e t c (
      forward_to-Sends net allow
        (request_head method (request_path u) version (end_to_end header_lines)) n rest host p)

  forward_host-IsFramed :
      (u : SplitResult) (host : Text) (p : ℕ)
      → urlsplit target ≡ some u
      → IsFramed method target version header_lines rest
          (forward_host net allow method version header_lines rest u host p)
  unfolding forward_host refuse
  forward_host-IsFramed u host p e =
      elim (Bool-cases (has_header (codes "transfer-encoding") (end_to_end header_lines))) [
        | inl streamed ↦ rw streamed (unsent refl)
        | inr bounded ↦
            rw bounded (measured u host p (content_length (end_to_end header_lines)) e bounded refl)
      ]

  forward_port-IsFramed :
      (u : SplitResult) (host : Option Text) (p : Option ℕ)
      → urlsplit target ≡ some u
      → IsFramed method target version header_lines rest
          (forward_port net allow method version header_lines rest u host p)
  unfolding forward_port refuse
  forward_port-IsFramed u host none e = unsent refl
  forward_port-IsFramed u none (some p) e = unsent refl
  forward_port-IsFramed u (some host) (some p) e = forward_host-IsFramed u host p e

  split :
      (r : Option SplitResult)
      → urlsplit target ≡ r
      → IsFramed method target version header_lines rest (do
        u ← lift (or_value_error r)
        forward_port net allow method version header_lines rest u
            (hostname u)
            (port_or_80 (port u)))
  unfolding ◌>>=◌ or_value_error
  split none e = unsent refl
  split (some u) e = forward_port-IsFramed u (hostname u) (port_or_80 (port u)) e

  -- What a forwarded request makes the upstream server read: nothing; or the rewritten head and the
  -- announced body, byte by byte and nothing behind it, without a Transfer-Encoding; or the head
  -- alone when the body does not come, and then the run raises.
  pub forward-IsFramed :
      IsFramed method target version header_lines rest
        (forward net allow method target version header_lines rest)
  unfolding forward
  forward-IsFramed = split (urlsplit target) refl
