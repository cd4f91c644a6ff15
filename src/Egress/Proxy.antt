-- ===== src/Egress/Proxy.antt =====
-- `EgressProxy`: one connection of the browser, from its request head to the closed socket.
pub mod Safety
pub mod Faults
pub mod Escaping
pub mod Refusal
pub mod Forwarding
pub mod Upstream
use alex_claw.Prelude.{
  ℕ, zero, suc, ◌+◌, ltb, length, Option, none, some, List, [], ◌∷◌, ◌++◌, if◌then◌else◌, is_empty,
  ◌==◌,
}
use alex_claw.Text.{Text, text_eq, codes, split_on, starts_with, join}
use alex_claw.Text.Number.{ℤ, pos}
use alex_claw.Url.{SplitResult, Port, absent, given, invalid, urlsplit, hostname, port}
use alex_claw.Egress.Run.{
  os_error, cancelled, Fault, breaks, ends, Result, ok, raised, blocked, connection_error,
  value_error, connect, reply, send, relay, close_upstream, close_client, Run, pure, lift, attempt,
  emit, ◌>>=◌, ◌>>◌, finally,
}
use alex_claw.Egress.Address.{Net, check_host}
use alex_claw.Egress.Wire.{
  crlf, max_head, read_head, read_exactly, lines, end_to_end, has_header, content_length,
  split_authority, refusal, connection_close, head_of,
}

-- `_refuse`
pub refuse : ℕ → Text → Run Unit
refuse status reason = emit (reply (refusal status reason))

-- The answer to a CONNECT whose connection is open.
abbrev pub established : Text
established = codes "HTTP/1.1 200 Connection Established" ++ (crlf ++ crlf)

-- `url.port or 80`; `none` is the `ValueError`.
pub port_or_80 : Port → Option ℕ
port_or_80 absent = some 80
port_or_80 (given zero) = some 80
port_or_80 (given (suc n)) = some (suc n)
port_or_80 invalid = none

or_value_error : Option SplitResult → Result SplitResult
or_value_error none = raised value_error
or_value_error (some u) = ok u

-- `url.path or "/"`, and the query behind it.
pub request_path : SplitResult → Text
request_path u =
    (if is_empty u.path then codes "/" else u.path)
    ++ (if is_empty u.query then [] else b'?' ∷ u.query)

-- The head that is sent upstream: the request line in origin form, and one `Connection: close`.
pub request_head : Text → Text → Text → List Text → Text
request_head method path version headers =
    head_of (join (32 ∷ []) (method ∷ path ∷ version ∷ []) ∷ (headers ++ connection_close ∷ []))

-- The head of the response, as the client gets it.
pub response_head : List Text → Text
response_head [] = head_of (connection_close ∷ [])
response_head (status_line ∷ header_lines) =
    head_of (status_line ∷ (end_to_end header_lines ++ connection_close ∷ []))

module _ (net : Net) where
  -- The loop of `_open`: the addresses in turn, until one of them answers.
  pub try_open : ℕ → List Text → Run Text
  try_open p [] = lift (raised connection_error)
  try_open p (a ∷ rest) =
      let later = try_open p rest in
      do
        emit (connect a p)
        if net.cancels_open a p
            then lift (raised cancelled)
            else if net.opens a p
            then pure a
            else later

  module _ (allow : List Text) where
    -- `_open`: the address that is connected to.
    pub open_host : Text → ℕ → Run Text
    open_host host p = do addresses ← lift (check_host net allow host p); try_open p addresses

    -- What follows `_open` in `_tunnel` and in `_forward`: their `except` clauses, or `k`.
    pub settle : (Text → Run Unit) → Result Text → Run Unit
    settle k (ok a) = k a
    settle k (raised blocked) = refuse 403 (codes "Forbidden")
    settle k (raised connection_error) = refuse 502 (codes "Bad Gateway")
    settle k (raised x) = lift (raised x)

    -- `_pipe_both`, as it is seen from outside: the wait may be cancelled.
    relay_tunnel : Text → ℕ → Run Unit
    relay_tunnel a p =
        finally (do emit relay; lift (if net.cancels_relay a p then raised cancelled else ok tt))
          close_upstream

    -- `_tunnel`, once its target is split.
    pub tunnel_to : Option (Text × ℕ) → Run Unit
    tunnel_to none = refuse 400 (codes "Bad Request")
    tunnel_to (some (host, p)) = do
      opened ← attempt (open_host host p)
      settle (λ a. do emit (reply established); relay_tunnel a p) opened

    -- `_tunnel`
    pub tunnel : Text → Run Unit
    tunnel target = do parsed ← lift (split_authority target); tunnel_to parsed

    -- `_relay_response`, with its `finally`.
    pub relay_response : Text → Option Fault → Run Unit
    relay_response stream end =
        finally
          (do
            (head, rest) ← lift (breaks end (read_head stream))
            emit (reply (response_head (lines head)))
            emit (reply rest)
            lift (ends end))
          close_upstream

    -- The body that the head announces; none is read for 0.
    pub send_body : ℤ → Text → Run Unit
    send_body (pos zero) rest = pure tt
    send_body n rest = do
      body ← lift (breaks net.client_ends (read_exactly rest n))
      emit (send body)

    pub forward_to : Text → ℤ → Text → Text → ℕ → Run Unit
    forward_to request length rest host p = do
      opened ← attempt (open_host host p)
      settle
          (λ a. do
            emit (send request)
            send_body length rest
            relay_response (net.upstream a p) (net.upstream_ends a p))
          opened

    -- `_forward`, once its host is known: the headers, then the connection.
    pub forward_host : Text → Text → List Text → Text → SplitResult → Text → ℕ → Run Unit
    forward_host method version header_lines rest url host p =
        let headers = end_to_end header_lines in
        if has_header (codes "transfer-encoding") headers
        then refuse 411 (codes "Length Required")
        else do
          length ← lift (content_length headers)
          forward_to (request_head method (request_path url) version headers) length rest host p

    pub forward_port :
        Text → Text → List Text → Text → SplitResult → Option Text → Option ℕ → Run Unit
    forward_port method version header_lines rest url host none = lift (raised value_error)
    forward_port method version header_lines rest url none (some p) =
        refuse 400 (codes "Bad Request")
    forward_port method version header_lines rest url (some host) (some p) =
        forward_host method version header_lines rest url host p

    -- `_forward`
    pub forward : Text → Text → Text → List Text → Text → Run Unit
    forward method target version header_lines rest = do
      url ← lift (or_value_error (urlsplit target))
      forward_port method version header_lines rest url (hostname url) (port_or_80 (port url))

    pub dispatch : List Text → List Text → Text → Run Unit
    dispatch (method ∷ target ∷ version ∷ []) header_lines rest =
        if method == codes "CONNECT"
        then tunnel target
        else if starts_with target (codes "http://")
        then forward method target version header_lines rest
        else refuse 400 (codes "Bad Request")
    dispatch _ header_lines rest = refuse 400 (codes "Bad Request")

    pub serve_lines : List Text → Text → Run Unit
    serve_lines [] rest = refuse 400 (codes "Bad Request")
    serve_lines (request_line ∷ header_lines) rest =
        dispatch (split_on 32 request_line) header_lines rest

    -- `_serve`: `stream` is all that the client sends.
    pub serve : Text → Run Unit
    serve stream = do
      (head, rest) ← lift (breaks net.client_ends (read_head stream))
      if ltb max_head (length head + 4)
          then refuse 431 (codes "Request Header Fields Too Large")
          else serve_lines (lines head) rest

    -- The `except` clause of `_handle`: these end the connection in silence, and no others.
    pub swallow : Result Unit → Run Unit
    swallow (ok _) = pure tt
    swallow (raised blocked) = lift (raised blocked)
    swallow (raised os_error) = lift (raised os_error)
    swallow (raised cancelled) = lift (raised cancelled)
    swallow (raised _) = pure tt

    -- `_handle`
    pub handle : Text → Run Unit
    handle stream = finally (do outcome ← attempt (serve stream); swallow outcome) close_client
