-- ===== src/Egress/Address/Ranges.antt =====
-- The blocked networks, read as ranges of octets and of the leading bits.
use alex_claw.Prelude.{ℕ, ◌+◌, ◌*◌, ◌/◌, ◌%◌, ◌^◌, ◌≤◌, ◌<◌, ◌≡◌, ◌≢◌, ◌↔◌, ◌⊎◌, refl, true, arith}
use alex_claw.Ip.{v4, v6, quad}
use alex_claw.Egress.Address.{is_blocked}

-- Loopback, private, shared, link-local, benchmarking, multicast and reserved addresses.
abbrev pub IsInternal : ℕ → ℕ → Type 0
IsInternal a b =
    (a ≡ 0)
    ⊎ (a ≡ 10)
    ⊎ (a ≡ 127)
    ⊎ (224 ≤ a)
    ⊎ ((a ≡ 100) × (64 ≤ b) × (b < 128))
    ⊎ ((a ≡ 169) × (b ≡ 254))
    ⊎ ((a ≡ 172) × (16 ≤ b) × (b < 32))
    ⊎ ((a ≡ 192) × (b ≡ 168))
    ⊎ ((a ≡ 198) × (18 ≤ b) × (b < 20))

-- An IPv4 address of four octets below 256 is blocked exactly when its first two octets are
-- internal.
pub is_blocked-v4_iff :
    (a b c d : ℕ)
    → a < 256
    → b < 256
    → c < 256
    → d < 256
    → (is_blocked (v4 (quad a b c d)) ≡ true) ↔ IsInternal a b
unfolding is_blocked
is_blocked-v4_iff a b c d ha hb hc hd = ground arith

-- An IPv6 address that is not IPv4-mapped is blocked exactly when it is ::, ::1, in fc00::/7 or in
-- fe80::/10.
pub is_blocked-v6_iff :
    (n : ℕ)
    → n / 2 ^ 32 ≢ 0xffff
    → (is_blocked (v6 n) ≡ true)
      ↔ ((n ≡ 0) ⊎ (n ≡ 1) ⊎ (n / 2 ^ 121 ≡ 0x7e) ⊎ (n / 2 ^ 118 ≡ 0x3fa))
unfolding is_blocked
is_blocked-v6_iff n h = ground arith

-- The IPv4-mapped form of an address, a number below 2^32, is blocked exactly when the address is.
pub is_blocked_mapped :
    (n : ℕ) → n < 2 ^ 32 → is_blocked (v6 (0xffff * 2 ^ 32 + n)) ≡ is_blocked (v4 n)
unfolding is_blocked
is_blocked_mapped n h =
    let high : (0xffff * 2 ^ 32 + n) / 2 ^ 32 ≡ 0xffff = omega arith in
    let low : (0xffff * 2 ^ 32 + n) % 2 ^ 32 ≡ n = omega arith in rw (high, low) refl
