-- ===== src/Server/Auth/Token.antt =====
-- Who gets past the token.
use mathlib.Core.Path.{ap₂}
use alex_claw.Prelude.{
  ℕ, ◌≡◌, ◌≢◌, ◌↔◌, ◌⊎◌, refl, true, [], ◌∷◌, ◌++◌, is_empty, ◌==◌, arith, ==_iff, ◌∙◌, ◌&&◌,
}
use alex_claw.Text.{Text, text_eq, codes, partition}
use alex_claw.Text.Laws.{Lacks, partition-append}
use alex_claw.Server.Auth.{
  Scope, Environment, configured_token, bearer_matches, granted, require_token,
}

partition_found :
    (c : ℕ) (s : Text)
    → (partition c s).after ≢ []
    → s ≡ (partition c s).before ++ c ∷ (partition c s).after
unfolding partition
partition_found c [] h = absurd (h refl)
partition_found c (x ∷ s) h = ground (arith, partition_found c s)

bearer_matches_iff :
    (header token : Text)
    → token ≢ []
    → (bearer_matches header token ≡ true) ↔ (header ≡ codes "Bearer" ++ 32 ∷ token)
unfolding bearer_matches
bearer_matches_iff header token n = (
  λ h.
      let (first, second) = both h in
      partition_found 32 header (rw second n) ∙ ap₂ (λ s t. s ++ 32 ∷ t) first second,
  λ e.
      rw
        (
          e,
          partition-append 32 (codes "Bearer") token lacking,
          (==_iff token token).1 refl,
          (==_iff (codes "Bearer") (codes "Bearer")).1 refl,
        )
        refl,
)
  where
    both :
        (((partition 32 header).before == codes "Bearer") && ((partition 32 header).after == token))
          ≡ true
        → ((partition 32 header).before ≡ codes "Bearer") × ((partition 32 header).after ≡ token)
    both h = ground (
      arith,
      ==_iff (partition 32 header).before (codes "Bearer"),
      ==_iff (partition 32 header).after token,
    )

    lacking : Lacks 32 (codes "Bearer")
    lacking = ground arith

is_empty_iff : (s : Text) → (is_empty s ≡ true) ↔ (s ≡ [])
is_empty_iff [] = (λ h. refl, λ h. refl)
is_empty_iff (c ∷ s) = (λ h. cc, λ h. cc)

-- A request reaches its endpoint exactly when it is no HTTP request, asks for /health, or a token
-- is configured and the header is "Bearer", one space, and that token.
pub require_token-granted_iff :
    (env : Environment) (scope : Scope)
    → (require_token env scope ≡ granted) ↔ (
        (scope.kind ≢ codes "http")
        ⊎ (scope.path ≡ codes "/health")
        ⊎ ((configured_token env ≢ [])
            × (scope.authorization ≡ codes "Bearer" ++ 32 ∷ configured_token env)))
unfolding require_token
require_token-granted_iff env scope = ground (
  arith,
  ==_iff scope.kind (codes "http"),
  ==_iff scope.path (codes "/health"),
  is_empty_iff (configured_token env),
  bearer_matches_iff scope.authorization (configured_token env),
)
