-- ===== src/Api/Guarded.antt =====
-- What a guarded route lets through.
use scuttlebot.Common.{
  Text, bytes, text_eq, [], ◌++◌, true, false, none, some, ◌≡◌, ◌⊎◌, inl, inr, refl, Option-cases,
  Bool-cases,
}
use scuttlebot.Auth.ApiKeys.{ApiKey, KeyStore, Fresh, lookup, has_scope}
use scuttlebot.Auth.ApiKeys.Tokens.{Holds, Grants, lookup_sound}
use scuttlebot.Api.Access.{
  Response, write_error, bearer_token, auth_middleware, require_scope, guarded,
}

-- A guarded route answers with 401, or it answers with 403 to a key of the store that grants the token
-- but has not the scope the route asks for; in both cases the handler does not run and the keys stay as
-- they were. Else it is what the handler does with a key of the store that grants the token now and has
-- the scope. What sets the time of last use is started, beside the handler, for the key found, and with
-- 401 for none.
pub guarded_lem :
    {A : Type 0} (hash : Text → Text) (o : Fresh) (authorization scope : Text)
    (next : ApiKey → KeyStore → Response A × KeyStore) (s : KeyStore)
    → ((message : Text) × (guarded hash o authorization scope next s
          ≡ ((write_error 401 message, s), none)))
      ⊎ ((k : ApiKey) × Holds k s.keys
          × Grants hash o.now (bearer_token authorization) k
          × (((has_scope k.scopes scope ≡ false)
                × (guarded hash o authorization scope next s ≡ (
                  (write_error 403 (bytes "insufficient scope: requires " ++ scope), s),
                  some k.id,
                )))
              ⊎ ((has_scope k.scopes scope ≡ true)
                  × (guarded hash o authorization scope next s ≡ (next k s, some k.id)))))
unfolding guarded auth_middleware require_scope
guarded_lem hash o authorization scope next s =
    elim (Bool-cases (text_eq (bearer_token authorization) [])) [
      | inl missing ↦ rw missing (inl (bytes "missing authorization header", refl))
      | inr given ↦ elim (Option-cases (lookup hash o.now (bearer_token authorization) s)) [
        | inl unknown ↦ rw (given, unknown) (inl (bytes "invalid token", refl))
        | inr (k, found) ↦
            let (held, granted) = lookup_sound hash o.now (bearer_token authorization) s found in
            elim (Bool-cases (has_scope k.scopes scope)) [
              | inl allowed ↦
                  rw (given, found, allowed) (inr (k, held, granted, inr (allowed, refl)))
              | inr lacking ↦
                  rw (given, found, lacking) (inr (k, held, granted, inl (lacking, refl)))
            ]
      ]
    ]
