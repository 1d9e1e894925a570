-- ===== src/Api/Handlers.antt =====
-- The handlers of API keys, internal/api/apikeys.go.
use scuttlebot.Common.{
  map, ℤ, contains_text, ℕ, Text, bytes, text_eq, List, [], ◌∷◌, ◌++◌, Bool, not, Option, none,
  some, Result, ok, err, if◌then◌else◌, ◌==◌, length,
}
use scuttlebot.Auth.ApiKeys.{
  ApiKey, KeyStore, Fresh, KeyError, Scope, create, rotate, revoke, list, valid_scopes,
}
use scuttlebot.Common.Windows.{after}
use scuttlebot.Api.Access.{Response, write_error, write_json}

pub record CreateRequest : Type 0 where
  pub name : Text
  pub scopes : List Text
  pub expires_in : Text
  pub team : Text

-- apiKeyListEntry, and without the token also what createAPIKeyResponse shows. Times that are not set are left out.
pub record ApiKeyView : Type 0 where
  pub id : Text
  pub name : Text
  pub scopes : List Scope
  pub team : Text
  pub created_at : ℕ
  pub last_used : Option ℕ
  pub expires_at : Option ℕ
  pub active : Bool

abbrev if_set : ℕ → Option ℕ
if_set t = if t == 0 then none else some t

unfoldable pub view : ApiKey → ApiKeyView
view k = record {
  id = k.id;
  name = k.name;
  scopes = k.scopes;
  team = k.team;
  created_at = k.created_at;
  last_used = if_set k.last_used;
  expires_at = if_set k.expires_at;
  active = k.active;
}

-- handleListAPIKeys
unfoldable pub handle_list_api_keys : KeyStore → Response (List ApiKeyView)
unfolding view
handle_list_api_keys s = write_json 200 (map view (list s))

-- The first scope that is not a known one.
unfoldable pub unknown_scope : List Text → Option Text
unknown_scope [] = none
unknown_scope (scope ∷ scopes) =
    let later = unknown_scope scopes in
    if not (contains_text valid_scopes scope) then some scope else later

-- The expiry that a request asks for, where 0 is never.
unfoldable pub expiry : (Text → Result Text ℤ) → ℕ → Text → Result Text ℕ
unfolding after
expiry parse_duration now expires_in =
    if text_eq expires_in [] then ok 0 else (elim (parse_duration expires_in) [
      | err e ↦ err (bytes "invalid expires_in duration: " ++ e)
      | ok d ↦ ok (after now d)
    ])

-- handleCreateAPIKey
unfoldable pub handle_create_api_key :
    (Text → Text)
    → (Text → Result Text ℤ)
    → Fresh
    → Option CreateRequest
    → KeyStore
    → Response (Text × ApiKeyView) × KeyStore
unfolding unknown_scope expiry view
handle_create_api_key hash parse_duration o body s = elim body [
  | none ↦ (write_error 400 (bytes "invalid request body"), s)
  | some req ↦
      if text_eq req.name []
      then (write_error 400 (bytes "name is required"), s)
      else (elim (unknown_scope req.scopes) [
        | some scope ↦ (write_error 400 (bytes "unknown scope: " ++ scope), s)
        | none ↦
            if length req.scopes == 0
            then (write_error 400 (bytes "at least one scope is required"), s)
            else (elim (expiry parse_duration o.now req.expires_in) [
              | err e ↦ (write_error 400 e, s)
              | ok expires ↦
                  let (created, s') = create hash o req.name req.scopes expires req.team s in
                  elim created [
                    | err _ ↦ (write_error 500 (bytes "failed to create API key"), s')
                    | ok made ↦ (write_json 201 (made.0, view made.1), s')
                  ]
            ])
      ])
]

-- The text of an error of the key store is a parameter.
-- handleRotateAPIKey
unfoldable pub handle_rotate_api_key :
    (Text → Text)
    → (KeyError → Text)
    → Fresh
    → Text
    → KeyStore
    → Response (Text × ApiKeyView) × KeyStore
unfolding view
handle_rotate_api_key hash message o id s =
    let (rotated, s') = rotate hash o id s in
    elim rotated [
      | err e ↦ (write_error 404 (message e), s')
      | ok made ↦ (write_json 200 (made.0, view made.1), s')
    ]

-- handleRevokeAPIKey
unfoldable pub handle_revoke_api_key :
    (KeyError → Text) → Fresh → Text → KeyStore → Response (Unit {0}) × KeyStore
handle_revoke_api_key message o id s =
    let (revoked, s') = revoke o id s in
    elim revoked [ err e ↦ (write_error 404 (message e), s') | ok _ ↦ (write_json 204 tt, s') ]
