-- ===== src/Api/Access.antt =====
-- The bearer token and the scopes of a request, internal/api/middleware.go and respond.go.
use scuttlebot.Common.{
  trim_prefix, trim_space, has_prefix, ℕ, Text, bytes, text_eq, [], ◌++◌, not, Option, none, some,
  if◌then◌else◌,
}
use scuttlebot.Auth.ApiKeys.{ApiKey, KeyStore, Fresh, lookup, has_scope}

-- What a handler answers with: a status and a message for an error, a status and a body otherwise.
pub data Response {ℓ} (A : Type ℓ) : Type ℓ where
  write_error : ℕ → Text → Response A
  write_json : ℕ → A → Response A

-- bearerToken, of the header Authorization
unfoldable pub bearer_token : Text → Text
bearer_token authorization =
    if has_prefix authorization (bytes "Bearer ")
    then trim_space (trim_prefix authorization (bytes "Bearer "))
    else []

-- authMiddleware around a handler that takes the key found. What sets the time of the key's last use is
-- started beside the handler, which finds the keys as they were: it is the last part of the result, the
-- id of the key that `TouchLastUsed` was started for.
unfoldable pub auth_middleware :
    {A : Type 0}
    → (Text → Text)
    → Fresh
    → Text
    → (ApiKey → KeyStore → Response A × KeyStore)
    → KeyStore
    → (Response A × KeyStore) × Option Text
unfolding bearer_token
auth_middleware hash o authorization next s =
    let token = bearer_token authorization in
    if text_eq token []
    then ((write_error 401 (bytes "missing authorization header"), s), none)
    else (elim (lookup hash o.now token s) [
      | none ↦ ((write_error 401 (bytes "invalid token"), s), none)
      | some key ↦ (next key s, some key.id)
    ])

-- requireScope
unfoldable pub require_scope :
    {A : Type 0}
    → Text
    → (ApiKey → KeyStore → Response A × KeyStore)
    → Option ApiKey
    → KeyStore
    → Response A × KeyStore
require_scope scope next key s = elim key [
  | none ↦ (write_error 401 (bytes "missing authentication"), s)
  | some k ↦
      if not (has_scope k.scopes scope)
      then (write_error 403 (bytes "insufficient scope: requires " ++ scope), s)
      else next k s
]

-- A route that the server guards: authMiddleware around requireScope.
unfoldable pub guarded :
    {A : Type 0}
    → (Text → Text)
    → Fresh
    → Text
    → Text
    → (ApiKey → KeyStore → Response A × KeyStore)
    → KeyStore
    → (Response A × KeyStore) × Option Text
unfolding auth_middleware require_scope
guarded hash o authorization scope next =
    auth_middleware hash o authorization (λ key. require_scope scope next (some key))
