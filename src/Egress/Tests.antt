-- ===== src/Egress/Tests.antt =====
-- The proxy on concrete connections.
use mathlib.Core.List.{Memᴰ}
use alex_claw.Prelude.{
  none, inr, List, ℕ, keep, not, ◌≡◌, ◌↔◌, ◌⊎◌, ◌≢◌, refl, true, false, some, [], ◌∷◌, ◌++◌, All,
  arith, contains,
}
use alex_claw.Text.{Text, text_eq, codes}
use alex_claw.Ip.{v4, v6, quad}
use alex_claw.Egress.Run.{os_failure, ok, reply, close_client}
use alex_claw.Egress.Address.{Net, resolve, check_host, is_blocked, is_blocked_ip, host_port}
use alex_claw.Egress.Address.Laws.{IsPublic, check_host-ok_iff}
use alex_claw.Egress.Address.Ranges.{IsInternal, is_blocked-v4_iff, is_blocked-v6_iff}
use alex_claw.Egress.Wire.{
  split_authority, crlf, end_to_end, header_name, connection_close, lines, read_head,
}
use alex_claw.Text.{join}
use alex_claw.Egress.Proxy.{request_head, handle, serve, tunnel, forward}
use alex_claw.Egress.Proxy.Forwarding.{IsFramed, forward-IsFramed}
use alex_claw.Egress.Proxy.Safety.{OnlyPublic, handle-OnlyPublic}
use alex_claw.Egress.Proxy.Refusal.{Forbidden, Ends, handle-completes, tunnel-refuses}
use alex_claw.Egress.Proxy.Upstream
use alex_claw.Egress.Proxy.Upstream.{is_hop, request_head-lines}
use alex_claw.Egress.Tunnel.{
  Tunnel, new_pipe, new_tunnel, arrive, hang_up, Reach, here, next, upward, arrives, hangs_up,
}
use alex_claw.Egress.Tunnel.Order.{IsTunnel, Reach-IsTunnel}
use alex_claw.Egress.Lifecycle
use alex_claw.Egress.Lifecycle.{Proxy, new_proxy, start, accept}
use alex_claw.Egress.Lifecycle.Stopping.{IsSound, Reach-IsSound}

abbrev public_ip : Text
public_ip = codes "93.184.215.14"

-- Every name has one public address that answers.
abbrev open_net : Net
open_net = record {
  getaddrinfo = λ host port. some (public_ip ∷ []);
  opens = λ address port. true;
  client_ends = none;
  upstream_ends = λ address port. none;
  cancels_open = λ address port. false;
  cancels_relay = λ address port. false;
  upstream = λ address port. codes "HTTP/1.1 200 OK" ++ (crlf ++ crlf);
}

-- Every name leads to a private address.
abbrev inner_net : Net
inner_net = record open_net { getaddrinfo = λ host port. some (codes "10.0.0.7" ∷ []) }

abbrev host : Text
host = codes "ok.example"

abbrev target : Text
target = codes "ok.example:443"

abbrev request : Text
request = codes "CONNECT ok.example:443 HTTP/1.1" ++ (crlf ++ crlf)

public_is_public : is_blocked_ip public_ip ≡ ok false
unfolding is_blocked_ip
public_is_public = refl

mapped_is_blocked : is_blocked_ip (codes "::ffff:10.0.0.1") ≡ ok true
unfolding is_blocked_ip
mapped_is_blocked = refl

target_splits : split_authority target ≡ ok (some (host, 443))
unfolding split_authority
target_splits = refl

inner_is_Forbidden : Forbidden inner_net [] host 443
unfolding is_blocked_ip resolve text_eq
inner_is_Forbidden = inr (refl, ((true, refl), tt), (codes "10.0.0.7", Memᴰ.head refl, refl))

tunnel-refuses_example :
    ((tunnel inner_net [] target).outcome ≡ ok tt)
    × ((answer : Text) × (head : Text) × ((tunnel inner_net [] target).trace ≡ reply answer ∷ [])
        × (read_head answer ≡ ok (head, []))
        × (lines head
            ≡ codes "HTTP/1.1 403 Forbidden"
              ∷ codes "x-alexclaw-egress: refused"
              ∷ codes "Content-Length: 0"
              ∷ codes "Connection: close"
              ∷ []))
tunnel-refuses_example =
    tunnel-refuses inner_net [] target host 443 target_splits inner_is_Forbidden

handle-OnlyPublic_example : All OnlyPublic (handle open_net [] request).trace
handle-OnlyPublic_example = handle-OnlyPublic open_net request

-- Every server breaks off its response with an error of the system.
abbrev cut_net : Net
cut_net = record open_net { upstream_ends = λ address port. some os_failure }

handle-completes_example :
    Ends cut_net [] (handle cut_net [] request).outcome
    × ((handle cut_net [] request).trace ≡ (serve cut_net [] request).trace ++ close_client ∷ [])
handle-completes_example = handle-completes cut_net [] request

check_host-ok_iff_example : (check_host open_net [] host 443 ≡ ok (public_ip ∷ [])) ↔ (
    (resolve open_net host 443 ≡ public_ip ∷ [])
    × (public_ip ∷ [] ≢ [])
    × ((contains [] (host_port host 443) ≡ true) ⊎ All IsPublic (public_ip ∷ [])))
check_host-ok_iff_example = check_host-ok_iff open_net [] host 443 (public_ip ∷ [])

is_blocked-v4_iff_example : (is_blocked (v4 (quad 172 31 255 254)) ≡ true) ↔ IsInternal 172 31
is_blocked-v4_iff_example =
    is_blocked-v4_iff 172 31 255 254 (omega arith) (omega arith) (omega arith) (omega arith)

is_blocked-v6_iff_example :
    (is_blocked (v6 1) ≡ true)
    ↔ (◌≡◌ {A = ℕ} 1 0 ⊎ ◌≡◌ {A = ℕ} 1 1 ⊎ ◌≡◌ {A = ℕ} 0 0x7e ⊎ ◌≡◌ {A = ℕ} 0 0x3fa)
is_blocked-v6_iff_example = is_blocked-v6_iff 1 (omega arith)

-- A request with a body of three bytes, and another request behind it.
abbrev pipelined : List Text
pipelined = codes "Host: www.example" ∷ codes "Content-Length: 3" ∷ []

forward-IsFramed_example :
    IsFramed
      (codes "POST")
      (codes "http://www.example/form")
      (codes "HTTP/1.1")
      pipelined
      (codes "a=1GET ")
      (forward open_net []
        (codes "POST")
        (codes "http://www.example/form")
        (codes "HTTP/1.1")
        pipelined
        (codes "a=1GET "))
forward-IsFramed_example =
    forward-IsFramed open_net [] (codes "POST") (codes "http://www.example/form") (codes "HTTP/1.1")
      pipelined (codes "a=1GET ")

abbrev asked : List Text
asked = codes "Host: www.example" ∷ codes "Proxy-Connection: keep-alive" ∷ codes "Accept: */*" ∷ []

request_head-lines_example :
    (read_head (
        request_head (codes "GET") (codes "/") (codes "HTTP/1.1") (end_to_end asked)
        ++ codes "body")
      ≡ ok (join crlf (Upstream.sent_lines (codes "GET / HTTP/1.1") asked), codes "body"))
    × (lines (join crlf (Upstream.sent_lines (codes "GET / HTTP/1.1") asked))
        ≡ Upstream.sent_lines (codes "GET / HTTP/1.1") asked)
    × (keep is_hop (end_to_end asked ++ connection_close ∷ []) ≡ connection_close ∷ [])
    × (keep (λ h. not (is_hop h)) (end_to_end asked ++ connection_close ∷ [])
        ≡ keep (λ h. not (is_hop h)) asked)
unfolding join
request_head-lines_example =
    request_head-lines (codes "GET") (codes "/") (codes "HTTP/1.1") asked (codes "body")
      (ground arith) (ground arith) (unfold end_to_end in unfold header_name in ground arith)

-- The client sends three bytes and closes.
abbrev sent : Tunnel
sent = record new_tunnel { up = arrive (codes "abc") new_pipe }

abbrev hung_up : Tunnel
hung_up = record new_tunnel { up = hang_up (arrive (codes "abc") new_pipe) }

new_tunnel-IsTunnel : IsTunnel new_tunnel
new_tunnel-IsTunnel = record {
  up_in_order = refl;
  down_in_order = refl;
  quiet = λ e. cc;
  closed = refl;
}

hung_up-Reach : Reach new_tunnel hung_up
unfolding arrive hang_up
hung_up-Reach =
    next
      (next here
        (upward new_tunnel (arrive (codes "abc") new_pipe) (arrives (codes "abc") new_pipe refl)))
      (upward sent (hang_up (arrive (codes "abc") new_pipe))
        (hangs_up (arrive (codes "abc") new_pipe)))

Reach-IsTunnel_example : IsTunnel hung_up
Reach-IsTunnel_example = Reach-IsTunnel new_tunnel-IsTunnel hung_up-Reach

-- A proxy with a connection in flight, and then a call of `stop`.
abbrev with_connection : Proxy
with_connection = accept 7 (start (new_proxy []))

Reach-IsSound_example : IsSound (start (new_proxy []))
unfolding start new_proxy
Reach-IsSound_example =
    Reach-IsSound false [] (Lifecycle.next Lifecycle.here (Lifecycle.starts (new_proxy []) refl))
