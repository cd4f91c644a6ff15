-- ===== src/Egress/Proxy/Escaping.antt =====
-- What may go wrong while a request is served.
use alex_claw.Prelude.{
  ltb, length, ◌+◌, ◌⊎◌, inl, inr, Bool, true, false, arith, ℕ, zero, suc, ◌≡◌, refl, Option, none,
  some, List, [], ◌∷◌, if◌then◌else◌,
}
use alex_claw.Text.{Text, text_eq, codes}
use alex_claw.Text.Number.{ℤ, pos, negsuc}
use alex_claw.Url.{SplitResult}
use alex_claw.Egress.Run.{
  Exception, Result, ok, raised, blocked, connection_error, value_error, incomplete_read,
  limit_overrun, os_error, cancelled, Fault, Run, lift, attempt, ◌>>=◌,
}
use alex_claw.Egress.Run.Laws.{
  Raises, Raises-pure, Raises-lift, Raises-raised, Raises-bind, Raises-attempt_bind, Raises-if,
  Raises-finally, Raises-emit,
}
use alex_claw.Egress.Address.{Net, resolve, is_blocked_ip, any_blocked, check_host}
use alex_claw.Egress.Wire.{max_head, lines, has_header, end_to_end}
use alex_claw.Egress.Wire.Errors.{
  Mildly, read_head-Mildly, read_exactly-Mildly, split_authority-Mildly, content_length-Mildly,
}
use alex_claw.Egress.Proxy.{
  or_value_error, try_open, open_host, settle, relay_tunnel, tunnel_to, tunnel, relay_response,
  send_body, forward_to, forward_host, forward_port, forward, dispatch, serve_lines, serve,
}
use alex_claw.Egress.Proxy.Faults.{
  Escapes, OpenEscapes, Raises-mild, Raises-breaks, Raises-ends, refuse-Raises, Meets,
}

or_value_error-Mildly : (u : Option SplitResult) → Mildly (or_value_error u)
unfolding or_value_error
or_value_error-Mildly u = λ x e. ground arith

module _ (net : Net) (allow : List Text) where
  try_open-Raises : (p : ℕ) (addrs : List Text) → Raises (OpenEscapes net) (try_open net p addrs)
  unfolding try_open
  try_open-Raises p [] = Raises-raised _ tt
  try_open-Raises p (a ∷ addrs) = Raises-bind _ _ (Raises-emit _) (λ _.
      Raises-if (net.cancels_open a p) _ _
        (λ hit. Raises-raised _ (inr (inr (inl (a, p, hit, refl)))))
        (Raises-if (net.opens a p) _ _ (λ _. Raises-pure a) (try_open-Raises p addrs)))

  any_blocked-Raises :
      (addrs : List Text) (x : Exception) → any_blocked addrs ≡ raised x → x ≡ value_error
  unfolding any_blocked is_blocked_ip
  any_blocked-Raises [] x e = absurd (cc)
  any_blocked-Raises (a ∷ addrs) x e = ground (arith, any_blocked-Raises addrs x)

  check_host-Raises :
      (host : Text) (p : ℕ) (x : Exception)
      → check_host net allow host p ≡ raised x
      → (x ≡ blocked) ⊎ (x ≡ value_error)
  unfolding check_host
  check_host-Raises host p x e = ground (arith, any_blocked-Raises (resolve net host p) x)

  refused-OpenEscapes : (x : Exception) → (x ≡ blocked) ⊎ (x ≡ value_error) → OpenEscapes net x
  refused-OpenEscapes x (inl e) = rw e tt
  refused-OpenEscapes x (inr e) = rw e tt

  open_host-Raises : (host : Text) (p : ℕ) → Raises (OpenEscapes net) (open_host net allow host p)
  unfolding open_host
  open_host-Raises host p =
      Raises-bind _ _ (Raises-lift _ (λ x e. refused-OpenEscapes x (check_host-Raises host p x e)))
        (λ addrs. try_open-Raises p addrs)

  settle-Raises :
      (k : Text → Run Unit) (r : Result Text)
      → ((x : Exception) → r ≡ raised x → OpenEscapes net x)
      → ((a : Text) → Raises (Escapes net) (k a))
      → Raises (Escapes net) (settle net allow k r)
  unfolding settle
  settle-Raises k (ok a) h n = n a
  settle-Raises k (raised blocked) h n = refuse-Raises net _ _
  settle-Raises k (raised connection_error) h n = refuse-Raises net _ _
  settle-Raises k (raised value_error) h n = Raises-raised _ tt
  settle-Raises k (raised incomplete_read) h n = Raises-raised _ tt
  settle-Raises k (raised limit_overrun) h n = Raises-raised _ tt
  settle-Raises k (raised os_error) h n = Raises-raised _ (h os_error refl)
  settle-Raises k (raised cancelled) h n = Raises-raised _ (h cancelled refl)

  opened-Raises :
      (host : Text) (p : ℕ) (k : Text → Run Unit)
      → ((a : Text) → Raises (Escapes net) (k a))
      → Raises (Escapes net) (attempt (open_host net allow host p) >>= settle net allow k)
  opened-Raises host p k n =
      Raises-attempt_bind (OpenEscapes net) _ _ (open_host-Raises host p)
        (λ r h. settle-Raises k r h n)

  relay_tunnel-Raises : (a : Text) (p : ℕ) → Raises (Escapes net) (relay_tunnel net allow a p)
  unfolding relay_tunnel
  relay_tunnel-Raises a p =
      Raises-finally _ _ (Raises-bind _ _ (Raises-emit _) (λ _. waits (net.cancels_relay a p) refl))
    where
      waits :
          (b : Bool)
          → net.cancels_relay a p ≡ b
          → Raises (Escapes net) (lift (if b then raised cancelled else ok tt))
      waits true hit = Raises-raised _ (inr (inr (inr (a, p, hit, refl))))
      waits false calm = Raises-pure tt

  tunnel_to-Raises : (t : Option (Text × ℕ)) → Raises (Escapes net) (tunnel_to net allow t)
  unfolding tunnel_to
  tunnel_to-Raises none = refuse-Raises net _ _
  tunnel_to-Raises (some (host, p)) =
      opened-Raises host p _ (λ a. Raises-bind _ _ (Raises-emit _) (λ _. relay_tunnel-Raises a p))

  tunnel-Raises : (target : Text) → Raises (Escapes net) (tunnel net allow target)
  unfolding tunnel
  tunnel-Raises target =
      Raises-bind _ _ (Raises-mild net _ (split_authority-Mildly target)) tunnel_to-Raises

  relay_response-Raises :
      (stream : Text) (a : Text) (p : ℕ)
      → Raises (Escapes net) (relay_response net allow stream (net.upstream_ends a p))
  unfolding relay_response
  relay_response-Raises stream a p = Raises-finally _ _ (
      Raises-bind _ _ (Raises-breaks net _ _ meets (read_head-Mildly stream)) (λ cut.
        Raises-bind _ _ (Raises-emit _)
          (λ _. Raises-bind _ _ (Raises-emit _) (λ _. Raises-ends net _ meets))))
    where
      meets : (f : Fault) → net.upstream_ends a p ≡ some f → Meets net f
      meets f e = inr (inl (a, p, e))

  send_body-Raises : (n : ℤ) (rest : Text) → Raises (Escapes net) (send_body net allow n rest)
  unfolding send_body
  send_body-Raises (pos zero) rest = Raises-pure tt
  send_body-Raises (pos (suc n)) rest =
      Raises-bind _ _
        (Raises-breaks net _ _ (λ f e. inl e) (read_exactly-Mildly rest (pos (suc n))))
        (λ b. Raises-emit _)
  send_body-Raises (negsuc n) rest =
      Raises-bind _ _ (Raises-breaks net _ _ (λ f e. inl e) (read_exactly-Mildly rest (negsuc n)))
        (λ b. Raises-emit _)

  forward_host-Raises :
      (method version : Text) (hs : List Text) (rest : Text) (url : SplitResult) (host : Text)
      (p : ℕ)
      → Raises (Escapes net) (forward_host net allow method version hs rest url host p)
  unfolding forward_host forward_to
  forward_host-Raises method version hs rest url host p =
      Raises-if (has_header (codes "transfer-encoding") (end_to_end hs)) _ _
        (λ _. refuse-Raises net _ _)
        (Raises-bind _ _ (Raises-mild net _ (content_length-Mildly _)) (λ n.
          opened-Raises host p _ (λ a.
            Raises-bind _ _ (Raises-emit _)
              (λ _. Raises-bind _ _ (send_body-Raises n rest) (λ _. relay_response-Raises _ a p)))))

  forward_port-Raises :
      (method version : Text) (hs : List Text) (rest : Text) (url : SplitResult)
      (host : Option Text) (p : Option ℕ)
      → Raises (Escapes net) (forward_port net allow method version hs rest url host p)
  unfolding forward_port
  forward_port-Raises method version hs rest url none none = Raises-raised _ tt
  forward_port-Raises method version hs rest url (some host) none = Raises-raised _ tt
  forward_port-Raises method version hs rest url none (some p) = refuse-Raises net _ _
  forward_port-Raises method version hs rest url (some host) (some p) =
      forward_host-Raises method version hs rest url host p

  forward-Raises :
      (method target version : Text) (hs : List Text) (rest : Text)
      → Raises (Escapes net) (forward net allow method target version hs rest)
  unfolding forward
  forward-Raises method target version hs rest =
      Raises-bind _ _ (Raises-mild net _ (or_value_error-Mildly _))
        (λ url. forward_port-Raises method version hs rest url _ _)

  dispatch-Raises :
      (parts hs : List Text) (rest : Text) → Raises (Escapes net) (dispatch net allow parts hs rest)
  unfolding dispatch
  dispatch-Raises (method ∷ target ∷ version ∷ []) hs rest =
      Raises-if _ _ _ (λ _. tunnel-Raises target)
        (Raises-if _ _ _ (λ _. forward-Raises method target version hs rest)
          (refuse-Raises net _ _))
  dispatch-Raises _ hs rest = refuse-Raises net _ _

  serve_lines-Raises :
      (ls : List Text) (rest : Text) → Raises (Escapes net) (serve_lines net allow ls rest)
  unfolding serve_lines
  serve_lines-Raises [] rest = refuse-Raises net _ _
  serve_lines-Raises (l ∷ hs) rest = dispatch-Raises _ hs rest

  pub serve-Raises : (stream : Text) → Raises (Escapes net) (serve net allow stream)
  unfolding serve
  serve-Raises stream =
      Raises-bind _ _ (Raises-breaks net _ _ (λ f e. inl e) (read_head-Mildly stream)) (λ cut.
        Raises-if (ltb max_head (length cut.0 + 4)) _ _ (λ _. refuse-Raises net _ _)
          (serve_lines-Raises (lines cut.0) cut.1))
