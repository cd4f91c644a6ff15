-- ===== src/Contract/Urls.antt =====
-- What an accepted URL and an accepted origin are.
use alex_claw.Prelude.{
  ◌≡◌, ◌↔◌, ◌⊎◌, ◌≢◌, refl, true, false, Option, none, some, [], ◌∷◌, arith, ==_iff, is_empty,
  Option-cases, inl, inr,
}
use alex_claw.Text.{Text, text_eq, codes, has_char}
use alex_claw.Url.{SplitResult, urlsplit, hostname}
use alex_claw.Contract.{http_url, origin, has_http_host, checked_url, bare_origin, is_host}

-- An http or https scheme, and a host.
abbrev pub IsHttp : SplitResult → Type 0
IsHttp u =
    ((u.scheme ≡ codes "http") ⊎ (u.scheme ≡ codes "https"))
    × ((h : Text) × (hostname u ≡ some h) × (h ≢ []))

-- Nothing but a scheme, a host and a port.
abbrev pub IsBare : SplitResult → Type 0
IsBare u = (u.path ≡ []) × (u.query ≡ []) × (u.fragment ≡ []) × (has_char u.netloc b'@' ≡ false)

is_host_iff : (o : Option Text) → (is_host o ≡ true) ↔ ((h : Text) × (o ≡ some h) × (h ≢ []))
unfolding is_host
is_host_iff none = (λ e. cc, λ (h, e, n). cc)
is_host_iff (some []) = (λ e. cc, λ (h, e, n). absurd (n (cc)))
is_host_iff (some (c ∷ s)) = (λ e. (c ∷ s, refl, λ x. cc), λ _. refl)

has_http_host_iff : (u : SplitResult) → (has_http_host u ≡ true) ↔ IsHttp u
unfolding has_http_host
has_http_host_iff u = ground (
  arith,
  ==_iff u.scheme (codes "http"),
  ==_iff u.scheme (codes "https"),
  is_host_iff (hostname u),
)

empty_iff : (s : Text) → (is_empty s ≡ true) ↔ (s ≡ [])
empty_iff [] = (λ h. refl, λ h. refl)
empty_iff (c ∷ s) = (λ h. cc, λ h. cc)

-- A URL is accepted exactly when it splits into an http or https scheme and a host that is not
-- empty.
pub http_url_iff :
    (s : Text) → (http_url s ≡ true) ↔ ((u : SplitResult) × (urlsplit s ≡ some u) × IsHttp u)
unfolding http_url checked_url
http_url_iff s = elim (Option-cases (urlsplit s)) [
  | inl refused ↦ (λ h. ground arith, λ (u, e, h). cc)
  | inr (u, e) ↦ (
    λ h. (u, e, (has_http_host_iff u).0 (rw e at h)),
    λ (v, e', h). rw e' ((has_http_host_iff v).1 h),
  )
]

-- An origin is accepted exactly when it is an http or https URL with a host that is not empty and
-- with no path, query, fragment or user information.
pub origin_iff :
    (s : Text)
    → (origin s ≡ true) ↔ ((u : SplitResult) × (urlsplit s ≡ some u) × IsBare u × IsHttp u)
unfolding origin http_url checked_url bare_origin
origin_iff s = elim (Option-cases (urlsplit s)) [
  | inl refused ↦ (λ h. ground arith, λ (u, e, b, h). cc)
  | inr (u, e) ↦ (
    λ h. (
      u,
      e,
      ground (arith, empty_iff u.path, empty_iff u.query, empty_iff u.fragment),
      (has_http_host_iff u).0 (ground arith),
    ),
    λ (v, e', bare, http). rw e' (
        ground (
          arith,
          (has_http_host_iff v).1 http,
          empty_iff v.path,
          empty_iff v.query,
          empty_iff v.fragment,
        )),
  )
]
