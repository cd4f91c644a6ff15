-- ===== src/Egress/Proxy/Safety.antt =====
-- The connections that the proxy opens, beside the addresses that it checks.
use alex_claw.Prelude.{inl, inr, ℕ, zero, suc, Option, none, some, List, [], ◌∷◌, All, All-map}
use alex_claw.Text.{Text, text_eq, codes}
use alex_claw.Text.Number.{ℤ, pos, negsuc}
use alex_claw.Url.{SplitResult}
use alex_claw.Egress.Run.{
  Result, ok, raised, blocked, connection_error, value_error, incomplete_read, limit_overrun, Event,
  os_error, cancelled, Fault, connect, reply, send, relay, close_upstream, close_client, Run,
  attempt, ◌>>=◌,
}
use alex_claw.Egress.Run.Laws.{
  Emits, Emits-emit, Emits-pure, Emits-lift, Emits-bind, Emits-bind_ok, Emits-attempt, Emits-if,
  Emits-finally,
}
use alex_claw.Egress.Address.{Net}
use alex_claw.Egress.Address.Laws.{Permitted, IsPublic, check_host-Permitted}
use alex_claw.Egress.Wire.{has_header, end_to_end}
use alex_claw.Egress.Proxy.{
  relay_tunnel, refuse, try_open, open_host, settle, tunnel_to, tunnel, relay_response, send_body,
  forward_to, forward_host, forward_port, forward, dispatch, serve_lines, serve, swallow, handle,
}

-- The address is public, or it belongs to an origin on the list, of this port.
abbrev pub Checked : List Text → Event → Type 0
Checked allow (connect a p) = (host : Text) × Permitted allow host p a
Checked allow _ = Unit

module _ (net : Net) (allow : List Text) where
  refuse-Checked : (status : ℕ) (reason : Text) → Emits (Checked allow) (refuse status reason)
  unfolding refuse
  refuse-Checked status reason = record { holds = (tt, tt) }

  try_open-Checked :
      (host : Text) (p : ℕ) (addrs : List Text)
      → All (Permitted allow host p) addrs
      → Emits (Checked allow) (try_open net p addrs)
  unfolding try_open
  try_open-Checked host p [] h = Emits-lift _
  try_open-Checked host p (a ∷ addrs) (q, h) = Emits-bind _ _ (Emits-emit _ (host, q)) (λ _.
      Emits-if (net.cancels_open a p) _ _ (λ _. Emits-lift _)
        (λ _.
          Emits-if (net.opens a p) _ _ (λ _. Emits-pure a) (λ _. try_open-Checked host p addrs h)))

  open_host-Checked : (host : Text) (p : ℕ) → Emits (Checked allow) (open_host net allow host p)
  unfolding open_host
  open_host-Checked host p = Emits-bind_ok _ _ (Emits-lift _) (λ addrs checked.
      try_open-Checked host p addrs (check_host-Permitted net allow host p addrs checked))

  settle-Checked :
      (k : Text → Run Unit) (r : Result Text)
      → ((a : Text) → Emits (Checked allow) (k a))
      → Emits (Checked allow) (settle net allow k r)
  unfolding settle
  settle-Checked k (ok a) h = h a
  settle-Checked k (raised blocked) h = refuse-Checked _ _
  settle-Checked k (raised connection_error) h = refuse-Checked _ _
  settle-Checked k (raised value_error) h = Emits-lift _
  settle-Checked k (raised incomplete_read) h = Emits-lift _
  settle-Checked k (raised limit_overrun) h = Emits-lift _
  settle-Checked k (raised os_error) h = Emits-lift _
  settle-Checked k (raised cancelled) h = Emits-lift _

  opened-Checked :
      (host : Text) (p : ℕ) (k : Text → Run Unit)
      → ((a : Text) → Emits (Checked allow) (k a))
      → Emits (Checked allow) (attempt (open_host net allow host p) >>= settle net allow k)
  opened-Checked host p k h =
      Emits-bind _ _ (Emits-attempt _ (open_host-Checked host p)) (λ r. settle-Checked k r h)

  tunnel_to-Checked :
      (target : Option (Text × ℕ)) → Emits (Checked allow) (tunnel_to net allow target)
  unfolding tunnel_to relay_tunnel
  tunnel_to-Checked none = refuse-Checked _ _
  tunnel_to-Checked (some (host, p)) = opened-Checked host p _ (λ a.
      Emits-bind _ _ (Emits-emit _ tt)
        (λ _. Emits-finally _ _ (Emits-bind _ _ (Emits-emit _ tt) (λ _. Emits-lift _)) tt))

  tunnel-Checked : (target : Text) → Emits (Checked allow) (tunnel net allow target)
  unfolding tunnel
  tunnel-Checked target = Emits-bind _ _ (Emits-lift _) tunnel_to-Checked

  relay_response-Checked :
      (stream : Text) (end : Option Fault)
      → Emits (Checked allow) (relay_response net allow stream end)
  unfolding relay_response
  relay_response-Checked stream end =
      Emits-finally _ _
        (Emits-bind _ _ (Emits-lift _) (λ cut.
          Emits-bind _ _ (Emits-emit _ tt)
            (λ _. Emits-bind _ _ (Emits-emit _ tt) (λ _. Emits-lift _))))
        tt

  send_body-Checked : (n : ℤ) (rest : Text) → Emits (Checked allow) (send_body net allow n rest)
  unfolding send_body
  send_body-Checked (pos zero) rest = Emits-pure tt
  send_body-Checked (pos (suc n)) rest = Emits-bind _ _ (Emits-lift _) (λ body. Emits-emit _ tt)
  send_body-Checked (negsuc n) rest = Emits-bind _ _ (Emits-lift _) (λ body. Emits-emit _ tt)

  forward_to-Checked :
      (request : Text) (n : ℤ) (rest host : Text) (p : ℕ)
      → Emits (Checked allow) (forward_to net allow request n rest host p)
  unfolding forward_to
  forward_to-Checked request n rest host p = opened-Checked host p _ (λ a.
      Emits-bind _ _ (Emits-emit _ tt)
        (λ _. Emits-bind _ _ (send_body-Checked n rest) (λ _. relay_response-Checked _ _)))

  forward_host-Checked :
      (method version : Text) (hs : List Text) (rest : Text) (url : SplitResult) (host : Text)
      (p : ℕ)
      → Emits (Checked allow) (forward_host net allow method version hs rest url host p)
  unfolding forward_host
  forward_host-Checked method version hs rest url host p =
      Emits-if (has_header (codes "transfer-encoding") (end_to_end hs)) _ _
        (λ _. refuse-Checked _ _)
        (λ _. Emits-bind _ _ (Emits-lift _) (λ n. forward_to-Checked _ n rest host p))

  forward_port-Checked :
      (method version : Text) (hs : List Text) (rest : Text) (url : SplitResult)
      (host : Option Text) (p : Option ℕ)
      → Emits (Checked allow) (forward_port net allow method version hs rest url host p)
  unfolding forward_port
  forward_port-Checked method version hs rest url none none = Emits-lift _
  forward_port-Checked method version hs rest url (some host) none = Emits-lift _
  forward_port-Checked method version hs rest url none (some p) = refuse-Checked _ _
  forward_port-Checked method version hs rest url (some host) (some p) =
      forward_host-Checked method version hs rest url host p

  forward-Checked :
      (method target version : Text) (hs : List Text) (rest : Text)
      → Emits (Checked allow) (forward net allow method target version hs rest)
  unfolding forward
  forward-Checked method target version hs rest =
      Emits-bind _ _ (Emits-lift _) (λ url. forward_port-Checked method version hs rest url _ _)

  dispatch-Checked :
      (parts hs : List Text) (rest : Text)
      → Emits (Checked allow) (dispatch net allow parts hs rest)
  unfolding dispatch
  dispatch-Checked (method ∷ target ∷ version ∷ []) hs rest =
      search (Emits-if, tunnel-Checked, forward-Checked, refuse-Checked)
  dispatch-Checked _ hs rest = refuse-Checked _ _

  serve_lines-Checked :
      (ls : List Text) (rest : Text) → Emits (Checked allow) (serve_lines net allow ls rest)
  unfolding serve_lines
  serve_lines-Checked [] rest = refuse-Checked _ _
  serve_lines-Checked (l ∷ hs) rest = dispatch-Checked _ hs rest

  serve-Checked : (stream : Text) → Emits (Checked allow) (serve net allow stream)
  unfolding serve
  serve-Checked stream =
      search (Emits-bind, Emits-lift, Emits-if, refuse-Checked, serve_lines-Checked)

  swallow-Checked : (r : Result Unit) → Emits (Checked allow) (swallow net allow r)
  unfolding swallow
  swallow-Checked (ok _) = Emits-pure tt
  swallow-Checked (raised blocked) = Emits-lift _
  swallow-Checked (raised connection_error) = Emits-pure tt
  swallow-Checked (raised value_error) = Emits-pure tt
  swallow-Checked (raised incomplete_read) = Emits-pure tt
  swallow-Checked (raised limit_overrun) = Emits-pure tt
  swallow-Checked (raised os_error) = Emits-lift _
  swallow-Checked (raised cancelled) = Emits-lift _

  -- Whatever the client sends and whatever the network answers, each connection that one client's
  -- connection makes goes to a public address, or to an address of an origin that is on the list.
  pub handle-Checked : (stream : Text) → Emits (Checked allow) (handle net allow stream)
  unfolding handle
  handle-Checked stream =
      Emits-finally _ _ (Emits-bind _ _ (Emits-attempt _ (serve-Checked stream)) swallow-Checked) tt

-- What the player's proxy, which allows no origin, may do.
abbrev pub OnlyPublic : Event → Type 0
OnlyPublic (connect a p) = IsPublic a
OnlyPublic _ = Unit

Checked-OnlyPublic : (e : Event) → Checked [] e → OnlyPublic e
Checked-OnlyPublic (connect a p) (host, inl public) = public
Checked-OnlyPublic (connect a p) (host, inr listed) = cc
Checked-OnlyPublic (reply s) h = tt
Checked-OnlyPublic (send s) h = tt
Checked-OnlyPublic relay h = tt
Checked-OnlyPublic close_upstream h = tt
Checked-OnlyPublic close_client h = tt

-- The player's proxy allows no origin: whatever the client sends and whatever names resolve to,
-- every connection that it tries goes to an address outside the blocked networks.
pub handle-OnlyPublic : (net : Net) (stream : Text) → All OnlyPublic (handle net [] stream).trace
handle-OnlyPublic net stream =
    All-map (Checked []) OnlyPublic Checked-OnlyPublic (handle net [] stream).trace
      (handle-Checked net [] stream).holds
