-- ===== src/Auth/ApiKeys/Tokens.antt =====
-- Which tokens the store accepts.
use scuttlebot.Common.{
  Member, ℕ, ◌≤◌, Text, text_eq_iff, List, [], ◌∷◌, true, false, none, some, ◌≡◌, ◌↔◌, ◌⊎◌, inl,
  inr, arith, Bool-cases,
}
use scuttlebot.Auth.ApiKeys.{
  ApiKey, KeyStore, lookup, accepts, find_token, has_scope, Scope, scope_admin,
}

-- `k` is one of the keys.
abbrev pub Holds : ApiKey → List ApiKey → Type 0
Holds k [] = ⊥
Holds k (x ∷ xs) = (x ≡ k) ⊎ Holds k xs

module _ (hash : Text → Text) where
  -- The key is active, not past its expiry, and has the digest of the token.
  pub record Grants (now : ℕ) (token : Text) (k : ApiKey) : Type 0 where
    pub digest : k.hash ≡ hash token
    pub is_active : k.active ≡ true
    pub in_time : (k.expires_at ≡ 0) ⊎ (now ≤ k.expires_at)

  accepts-Grants :
      (now : ℕ) (token : Text) (k : ApiKey) → accepts hash now token k ≡ true → Grants now token k
  unfolding accepts
  accepts-Grants now token k h = record {
    digest = ground (arith, text_eq_iff k.hash (hash token));
    is_active = ground arith;
    in_time = ground arith;
  }

  pub Grants-accepts :
      (now : ℕ) (token : Text) (k : ApiKey) → Grants now token k → accepts hash now token k ≡ true
  unfolding accepts
  Grants-accepts now token k g = ground (arith, text_eq_iff k.hash (hash token))

  found :
      (now : ℕ) (token : Text) (ks : List ApiKey) {k : ApiKey}
      → find_token hash now token ks ≡ some k
      → Holds k ks × (accepts hash now token k ≡ true)
  unfolding find_token
  found now token [] h = absurd (ground arith)
  found now token (x ∷ xs) {k} h = elim (Bool-cases (accepts hash now token x)) [
    | inl good ↦ (inl (ground arith), ground arith)
    | inr bad ↦ let (held, good) = found now token xs {k = k} (ground arith) in (inr held, good)
  ]

  -- A key that Lookup returns is one of the store's, is active, is not past its expiry, and has the
  -- digest of the token.
  pub lookup_sound :
      (now : ℕ) (token : Text) (s : KeyStore) {k : ApiKey}
      → lookup hash now token s ≡ some k
      → Holds k s.keys × Grants now token k
  unfolding lookup
  lookup_sound now token s {k} h =
      let (held, good) = found now token s.keys h in (held, accepts-Grants now token k good)

  missed :
      (now : ℕ) (token : Text) (ks : List ApiKey) (k : ApiKey)
      → find_token hash now token ks ≡ none
      → Holds k ks
      → accepts hash now token k ≡ false
  unfolding find_token
  missed now token [] k h m = absurd m
  missed now token (x ∷ xs) k h (inl e) = ground arith
  missed now token (x ∷ xs) k h (inr m) = missed now token xs k (ground arith) m

  -- Where Lookup returns nothing, no key of the store grants the token.
  pub lookup_complete :
      (now : ℕ) (token : Text) (s : KeyStore) (k : ApiKey)
      → lookup hash now token s ≡ none
      → Holds k s.keys
      → ¬ Grants now token k
  unfolding lookup
  lookup_complete now token s k h m g =
      ground (arith, missed now token s.keys k h m, Grants-accepts now token k g)

-- A list of scopes gives a scope exactly when it has that scope or `admin`.
pub has_scope_iff :
    (scopes : List Scope) (s : Scope)
    → (has_scope scopes s ≡ true) ↔ (Member scope_admin scopes ⊎ Member s scopes)
unfolding has_scope
has_scope_iff [] s = (λ h. absurd (ground arith), λ m. ground arith)
has_scope_iff (x ∷ xs) s = (
  λ h. ground (arith, (has_scope_iff xs s).0, text_eq_iff x scope_admin, text_eq_iff x s),
  λ m. ground (arith, (has_scope_iff xs s).1, text_eq_iff x scope_admin, text_eq_iff x s),
)
