-- ===== src/Server/Auth.antt =====
-- `RequireToken`, `_configured_token` and `_bearer_matches`.
pub mod Token
use alex_claw.Prelude.{
  ℕ, Bool, true, false, ◌&&◌, ◌||◌, not, Option, none, some, List, [], ◌∷◌, if◌then◌else◌, is_empty,
  ◌==◌,
}
use alex_claw.Text.{Text, text_eq, codes, partition, strip_where, is_space}

-- What an ASGI scope says of a request; a missing header reads as "".
pub record Scope : Type 0 where
  pub kind : Text
  pub path : Text
  pub authorization : Text

-- The variable WEB_AUTOMATOR_TOKEN_FILE, "" when it is not set, and the files; `none` is an `OSError`.
pub record Environment : Type 0 where
  pub token_file : Text
  pub read : Text → Option Text

stripped : Option Text → Text
stripped none = []
stripped (some content) = strip_where is_space content

-- `_configured_token`
unfoldable pub configured_token : Environment → Text
unfolding stripped
configured_token env = if is_empty env.token_file then [] else stripped (env.read env.token_file)

-- `_bearer_matches`; `compare_digest` of the encodings is equality of the texts.
unfoldable pub bearer_matches : Text → Text → Bool
bearer_matches header expected =
    let p = partition 32 header in p.before == codes "Bearer" && p.after == expected

-- Whether the request goes on to its endpoint, or the status that is answered.
pub data Access : Type 0 where
  granted : Access
  refused : ℕ → Access

-- `RequireToken.__call__`
pub require_token : Environment → Scope → Access
require_token env scope =
    let expected = configured_token env in
    if not (scope.kind == codes "http") || scope.path == codes "/health"
    then granted
    else if is_empty expected
    then refused 503
    else if not (bearer_matches scope.authorization expected)
    then refused 401
    else granted
