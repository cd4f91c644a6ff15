-- ===== src/Egress/Address.antt =====
-- Which destinations the proxy may reach: `is_blocked_ip`, `check_host`, `_resolve`.
pub mod Laws
pub mod Ranges
use alex_claw.Prelude.{
  ℕ, ◌*◌, ◌^◌, Bool, true, false, Option, none, some, List, [], ◌∷◌, ◌++◌, map, if◌then◌else◌, any,
  is_empty, contains,
}
use alex_claw.Text.{Text, text_eq, partition}
use alex_claw.Text.Number.{decimal}
use alex_claw.Ip.{Address, v4, v6, quad, Network, in_network, ip_address, ipv4_mapped}
use alex_claw.Egress.Run.{Fault, Result, ok, raised, blocked, value_error}

abbrev net4 : ℕ → ℕ → ℕ → ℕ → Network
net4 a b c prefix = record { base = quad a b c 0; host_bits = prefix }

-- The version 4 rows of `_BLOCKED_NETWORKS`, with 32 less the prefix.
abbrev pub blocked_networks_v4 : List Network
blocked_networks_v4 =
    net4 0 0 0 24
    ∷ net4 10 0 0 24
    ∷ net4 100 64 0 22
    ∷ net4 127 0 0 24
    ∷ net4 169 254 0 16
    ∷ net4 172 16 0 20
    ∷ net4 192 168 0 16
    ∷ net4 198 18 0 17
    ∷ net4 224 0 0 28
    ∷ net4 240 0 0 28
    ∷ []

-- The version 6 rows, with 128 less the prefix.
abbrev pub blocked_networks_v6 : List Network
blocked_networks_v6 =
    record { base = 1; host_bits = 0 }
    ∷ record { base = 0; host_bits = 0 }
    ∷ record { base = 0xfc00 * 2 ^ 112; host_bits = 121 }
    ∷ record { base = 0xfe80 * 2 ^ 112; host_bits = 118 }
    ∷ []

unfoldable pub v4_is_blocked : ℕ → Bool
v4_is_blocked n = any (in_network n) blocked_networks_v4

unfoldable pub v6_is_blocked : ℕ → Bool
v6_is_blocked n = any (in_network n) blocked_networks_v6

v6_or_mapped_is_blocked : Option ℕ → ℕ → Bool
v6_or_mapped_is_blocked none n = v6_is_blocked n
v6_or_mapped_is_blocked (some m) n = v4_is_blocked m

-- `is_blocked_ip` on a parsed address: the IPv4-mapped form counts as the address in it.
unfoldable pub is_blocked : Address → Bool
unfolding v6_or_mapped_is_blocked v4_is_blocked v6_is_blocked ipv4_mapped
is_blocked (v4 n) = v4_is_blocked n
is_blocked (v6 n) = v6_or_mapped_is_blocked (ipv4_mapped n) n

judge : Option Address → Result Bool
judge none = raised value_error
judge (some a) = ok (is_blocked a)

unfoldable pub is_blocked_ip : Text → Result Bool
unfolding judge is_blocked ip_address
is_blocked_ip ip = judge (ip_address ip)

-- What the operating system answers: the address texts of `getaddrinfo`, `none` for its error;
-- whether a connection opens; what the server at an address sends; how the streams from the client
-- and from a server end, `none` when they are closed; and whether the task is cancelled while it opens a
-- connection, or while it waits for a tunnel to end.
pub record Net : Type 0 where
  pub getaddrinfo : Text → ℕ → Option (List Text)
  pub opens : Text → ℕ → Bool
  pub upstream : Text → ℕ → Text
  pub client_ends : Option Fault
  pub upstream_ends : Text → ℕ → Option Fault
  pub cancels_open : Text → ℕ → Bool
  pub cancels_relay : Text → ℕ → Bool

-- `list(dict.fromkeys(…))`: the first occurrences, in order.
from_keys : List Text → List Text → List Text
from_keys seen [] = seen
from_keys seen (x ∷ xs) = from_keys (if contains seen x then seen else seen ++ x ∷ []) xs

without_zones : Option (List Text) → List Text
without_zones none = []
without_zones (some infos) = from_keys [] (map (λ a. (partition b'%' a).before) infos)

unfoldable pub resolve : Net → Text → ℕ → List Text
unfolding without_zones from_keys partition
resolve net host port = without_zones (net.getaddrinfo host port)

-- `any(is_blocked_ip(a) for a in addresses)`, which stops at the first blocked address.
unfoldable pub any_blocked : List Text → Result Bool
any_blocked [] = ok false
any_blocked (a ∷ rest) = elim (is_blocked_ip a) [
  | raised x ↦ raised x
  | ok true ↦ ok true
  | ok false ↦ any_blocked rest
]

-- "host:port"
unfoldable pub host_port : Text → ℕ → Text
unfolding decimal
host_port host port = host ++ (b':' ∷ decimal port)

verdict : List Text → Result Bool → Result (List Text)
verdict addresses (raised x) = raised x
verdict addresses (ok true) = raised blocked
verdict addresses (ok false) = ok addresses

unfoldable pub check_host : Net → List Text → Text → ℕ → Result (List Text)
unfolding verdict host_port any_blocked is_blocked_ip resolve
check_host net allow host port =
    let addresses = resolve net host port in
    if is_empty addresses
    then raised blocked
    else if contains allow (host_port host port)
    then ok addresses
    else verdict addresses (any_blocked addresses)
