-- ===== src/Egress/Proxy/Refusal.antt =====
-- How a connection ends, and how a tunnel is refused.
use alex_claw.Prelude.{
  ◌⊎◌, inl, inr, Bool, true, false, All, contains, is_empty, arith, ℕ, ◌≡◌, refl, some, List, [],
  ◌∷◌, ◌++◌,
}
use mathlib.Core.List.{append-nil, Memᴰ}
use alex_claw.Text.{Text, text_eq, codes}
use alex_claw.Egress.Run.{
  Exception, Result, ok, raised, blocked, connection_error, value_error, incomplete_read,
  limit_overrun, os_error, cancelled, os_failure, cancellation, reply, close_client, ◌>>=◌, finally,
}
use alex_claw.Egress.Address.{Net, resolve, is_blocked_ip, any_blocked, host_port, check_host}
use alex_claw.Egress.Wire.{split_authority, refusal, read_head, lines}
use alex_claw.Egress.Proxy.{refuse, open_host, settle, tunnel_to, tunnel, serve, swallow, handle}
use alex_claw.Egress.Proxy.Faults.{Meets, Escapes}
use alex_claw.Egress.Proxy.Escaping.{serve-Raises}

-- A text that `ip_address` reads.
abbrev pub IsAddress : Text → Type 0
IsAddress a = (b : Bool) × (is_blocked_ip a ≡ ok b)

any_blocked-true :
    (addrs : List Text) (a : Text)
    → All IsAddress addrs
    → Memᴰ a addrs
    → is_blocked_ip a ≡ ok true
    → any_blocked addrs ≡ ok true
unfolding any_blocked
any_blocked-true [] a h m hit = elim m [ ]
any_blocked-true (x ∷ addrs) a ((b, e), sound) (Memᴰ.head same) hit = ground arith
any_blocked-true (x ∷ addrs) a ((true, e), sound) (Memᴰ.tail m) hit = rw (e, any_blocked) refl
any_blocked-true (x ∷ addrs) a ((false, e), sound) (Memᴰ.tail m) hit =
    rw (e, any_blocked) (any_blocked-true addrs a sound m hit)

is_empty-false : (addrs : List Text) (a : Text) → Memᴰ a addrs → is_empty addrs ≡ false
is_empty-false [] a m = elim m [ ]
is_empty-false (x ∷ addrs) a m = refl

module _ (net : Net) (allow : List Text) where
  -- The ways in which a connection may end.
  abbrev pub Ends : Result Unit → Type 0
  Ends r =
      (r ≡ ok tt)
      ⊎ ((r ≡ raised os_error) × Meets net os_failure)
      ⊎ ((r ≡ raised cancelled) × Meets net cancellation)

  swallow-Ends :
      (r : Result Unit)
      → ((x : Exception) → r ≡ raised x → Escapes net x)
      → Ends (swallow net allow r).outcome × ((swallow net allow r).trace ≡ [])
  unfolding swallow
  swallow-Ends (ok _) h = (inl refl, refl)
  swallow-Ends (raised blocked) h = absurd (h blocked refl)
  swallow-Ends (raised connection_error) h = (inl refl, refl)
  swallow-Ends (raised value_error) h = (inl refl, refl)
  swallow-Ends (raised incomplete_read) h = (inl refl, refl)
  swallow-Ends (raised limit_overrun) h = (inl refl, refl)
  swallow-Ends (raised os_error) h = (inr (inl (refl, h os_error refl)), refl)
  swallow-Ends (raised cancelled) h = (inr (inr (refl, h cancelled refl)), refl)

  -- Whatever the client sends, however its stream and those of the servers end, and wherever an
  -- opening of a connection or the wait for a tunnel is cancelled: the last thing that is done is
  -- to close the client's socket, and the connection ends without an exception, or with an OSError
  -- that is no ConnectionError, which one of the streams broke with, or with a cancellation that
  -- arrived in one of these waits. Writes and the resolution of names neither fail so nor are
  -- cancelled here.
  pub handle-completes :
      (stream : Text)
      → Ends (handle net allow stream).outcome
        × ((handle net allow stream).trace ≡ (serve net allow stream).trace ++ close_client ∷ [])
  unfolding handle ◌>>=◌ finally
  handle-completes stream =
      let (ended, same) =
        swallow-Ends (serve net allow stream).outcome (serve-Raises net allow stream).holds in
      (ended, rw (same, append-nil) refl)

  -- The name of this host resolves to nothing; or the origin is not allowed, and one of the addresses
  -- is internal, each of them being an address.
  abbrev pub Forbidden : Text → ℕ → Type 0
  Forbidden host p =
      (resolve net host p ≡ [])
      ⊎ ((contains allow (host_port host p) ≡ false)
          × All IsAddress (resolve net host p)
          × ((a : Text) × Memᴰ a (resolve net host p) × (is_blocked_ip a ≡ ok true)))

  check_host-blocked :
      (host : Text) (p : ℕ) → Forbidden host p → check_host net allow host p ≡ raised blocked
  unfolding check_host
  check_host-blocked host p (inl e) = rw e refl
  check_host-blocked host p (inr (outside, sound, (a, m, hit))) =
      let found = any_blocked-true (resolve net host p) a sound m hit in
      let some_address = is_empty-false (resolve net host p) a m in
      rw (some_address, outside, found) refl

  -- A CONNECT whose target splits, to a host that resolves to nothing, or whose origin is not
  -- allowed and which has an internal address among its addresses: the client reads one answer,
  -- with the status line of a 403, the header x-alexclaw-egress: refused and no body, and nothing
  -- else is done: no connection is opened.
  pub tunnel-refuses :
      (target host : Text) (p : ℕ)
      → split_authority target ≡ ok (some (host, p))
      → Forbidden host p
      → ((tunnel net allow target).outcome ≡ ok tt)
        × ((answer : Text) × (head : Text) × ((tunnel net allow target).trace ≡ reply answer ∷ [])
            × (read_head answer ≡ ok (head, []))
            × (lines head
                ≡ codes "HTTP/1.1 403 Forbidden"
                  ∷ codes "x-alexclaw-egress: refused"
                  ∷ codes "Content-Length: 0"
                  ∷ codes "Connection: close"
                  ∷ []))
  unfolding tunnel tunnel_to open_host settle refuse ◌>>=◌ refusal read_head lines
  tunnel-refuses target host p s h =
      rw (s, check_host-blocked host p h)
        (refl, (refusal 403 (codes "Forbidden"), _, refl, refl, refl))
