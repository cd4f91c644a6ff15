-- ===== src/Egress/Address/Laws.antt =====
-- What `check_host` lets through.
use alex_claw.Prelude.{
  ℕ, ◌≡◌, ◌≢◌, ◌↔◌, ◌⊎◌, inl, inr, refl, true, false, List, [], ◌∷◌, All, All-const, All-map, arith,
  contains,
}
use alex_claw.Text.{Text, text_eq}
use alex_claw.Egress.Run.{ok}
use alex_claw.Egress.Address.{Net, resolve, any_blocked, is_blocked_ip, host_port, check_host}

-- A text that parses to an address outside every blocked network.
abbrev pub IsPublic : Text → Type 0
IsPublic a = is_blocked_ip a ≡ ok false

pub any_blocked-ok_false_iff :
    (addrs : List Text) → (any_blocked addrs ≡ ok false) ↔ All IsPublic addrs
unfolding any_blocked
any_blocked-ok_false_iff [] = (λ h. tt, λ h. refl)
any_blocked-ok_false_iff (a ∷ addrs) = ground (arith, any_blocked-ok_false_iff addrs)

-- The proxy may connect to `a` for this host and port.
abbrev pub Permitted : List Text → Text → ℕ → Text → Type 0
Permitted allow host p a = IsPublic a ⊎ (contains allow (host_port host p) ≡ true)

module _ (net : Net) (allow : List Text) (host : Text) (p : ℕ) where
  -- check_host returns addresses exactly when the name resolves to them, at least one, and the
  -- origin is allowed or each of them is public.
  pub check_host-ok_iff :
      (addrs : List Text)
      → (check_host net allow host p ≡ ok addrs) ↔ (
          (resolve net host p ≡ addrs)
          × (addrs ≢ [])
          × ((contains allow (host_port host p) ≡ true) ⊎ All IsPublic addrs))
  unfolding check_host
  check_host-ok_iff addrs = ground (arith, any_blocked-ok_false_iff (resolve net host p))

  -- Every address that `check_host` returns may be connected to.
  pub check_host-Permitted :
      (addrs : List Text)
      → check_host net allow host p ≡ ok addrs
      → All (Permitted allow host p) addrs
  check_host-Permitted addrs h = elim ((check_host-ok_iff addrs).0 h).2 [
    | inl allowed ↦ All-const (Permitted allow host p) addrs (λ a. inr allowed)
    | inr public ↦ All-map IsPublic (Permitted allow host p) (λ a h. inl h) addrs public
  ]
