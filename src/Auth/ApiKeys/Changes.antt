-- ===== src/Auth/ApiKeys/Changes.antt =====
-- What creation, rotation and revocation do to the tokens that are accepted.
use scuttlebot.Common.{
  ℕ, ◌≤◌, Text, text_eq, text_eq_refl, text_eq_iff, List, [], ◌∷◌, ◌++◌, true, false, ◌||◌, none,
  some, ok, err, ◌≡◌, ◌≢◌, ◌⊎◌, inl, inr, refl, sym, ap, ◌∙◌, arith, Bool-cases, if◌then◌else◌, All,
}
use scuttlebot.Auth.ApiKeys.{
  KeyError, write_failed, new_key, rotate, Scope, create, revoke, ApiKey, KeyStore, Fresh, lookup,
  accepts, find_token, find_id, update_id,
}
use scuttlebot.Auth.ApiKeys.Tokens.{lookup_sound, Holds}

-- A creation that fails leaves the keys and the file as they were: the appended key is taken back.
pub create_err :
    (hash : Text → Text) (o : Fresh) (name : Text) (scopes : List Scope) (expires : ℕ) (team : Text)
    (s : KeyStore) {e : KeyError}
    → (create hash o name scopes expires team s).0 ≡ err e
    → (create hash o name scopes expires team s).1 ≡ s
unfolding create
create_err hash o name scopes expires team s h = ground arith

find_append :
    (hash : Text → Text) (now : ℕ) (token : Text) (ks : List ApiKey) (key : ApiKey)
    → All (λ k. k.hash ≢ hash token) ks
    → accepts hash now token key ≡ true
    → find_token hash now token (ks ++ key ∷ []) ≡ some key
unfolding find_token
find_append hash now token [] key other good = ground arith
find_append hash now token (k ∷ ks) key other good =
    unfold accepts in
    ground (arith, text_eq_iff k.hash (hash token), find_append hash now token ks key other.1 good)

-- A creation that goes through appends one active key, with the digest of the returned token and the
-- given name, scopes, expiry and team. Until its expiry the store gives that key for the token, where no
-- older key has the same digest.
pub create_ok :
    (hash : Text → Text) (o : Fresh) (name : Text) (scopes : List Scope) (expires : ℕ) (team : Text)
    (s : KeyStore) {token : Text} {key : ApiKey}
    → (create hash o name scopes expires team s).0 ≡ ok (token, key)
    → let s' = (create hash o name scopes expires team s).1 in
      (o.token ≡ some token)
      × (s'.keys ≡ s.keys ++ key ∷ [])
      × (key ≡ new_key hash o name token scopes expires team)
      × ((now : ℕ)
          → (expires ≡ 0) ⊎ (now ≤ expires)
          → All (λ k. k.hash ≢ hash token) s.keys
          → lookup hash now token s' ≡ some key)
create_ok hash o name scopes expires team s {token} {key} h =
    let shape : (create hash o name scopes expires team s).1.keys ≡ s.keys ++ key ∷ [] =
      unfold create in ground arith in
    let made : key ≡ new_key hash o name token scopes expires team =
      unfold create in ground arith in
    (
      unfold create in ground arith,
      shape,
      made,
      λ now in_time other.
          unfold lookup in
          rw shape (
            find_append hash now token s.keys key other
              (rw made (unfold accepts new_key in ground (arith, text_eq_refl (hash token))))),
    )

-- No two keys have the same id.
abbrev pub DistinctIds : List ApiKey → Type 0
DistinctIds [] = Unit
DistinctIds (k ∷ ks) = (find_id k.id ks ≡ none) × DistinctIds ks

absent : (id : Text) (ks : List ApiKey) (q : ApiKey) → find_id id ks ≡ none → Holds q ks → q.id ≢ id
unfolding find_id
absent id [] q e m = absurd m
absent id (k ∷ ks) q e (inl same) = ground (arith, text_eq_iff k.id id)
absent id (k ∷ ks) q e (inr m) = absent id ks q (ground arith) m

-- After a write that keeps the id, the key with the id is the one written.
updated :
    (id : Text) (f : ApiKey → ApiKey) (ks : List ApiKey) (q : ApiKey)
    → ((k : ApiKey) → (f k).id ≡ k.id)
    → DistinctIds ks
    → Holds q (update_id id f ks)
    → q.id ≡ id
    → (k : ApiKey) × (q ≡ f k)
unfolding find_id update_id
updated id f [] q keeps d m e = absurd m
updated id f (k ∷ ks) q keeps d m e = elim (Bool-cases (text_eq k.id id)) [
  | inl same ↦ elim (in_head (rw same at m)) [
    | inl e' ↦ (k, sym e')
    | inr m' ↦ absurd (absent k.id ks q d.0 m' (e ∙ sym ((text_eq_iff k.id id).0 same)))
  ]
  | inr other ↦ elim (in_tail (rw other at m)) [
    | inl e' ↦ absurd (ground (arith, text_eq_iff k.id id))
    | inr m' ↦ updated id f ks q keeps d.1 m' e
  ]
]
  where
    in_head : Holds q (f k ∷ ks) → (f k ≡ q) ⊎ Holds q ks
    in_head m = m

    in_tail : Holds q (k ∷ update_id id f ks) → (k ≡ q) ⊎ Holds q (update_id id f ks)
    in_tail m = m

-- After a rotation for which a token was generated, the store accepts no token for the key but the
-- ones with the new digest. That holds also where saving fails and the caller gets an error in
-- place of the new token.
pub rotate_replaces :
    (hash : Text → Text) (o : Fresh) (id : Text) (s : KeyStore) (k : ApiKey) (fresh : Text)
    → DistinctIds s.keys
    → find_id id s.keys ≡ some k
    → o.token ≡ some fresh
    → (now : ℕ) (token : Text) (q : ApiKey) → lookup hash now token (rotate hash o id s).1 ≡ some q
    → q.id ≡ id
    → hash token ≡ hash fresh
rotate_replaces hash o id s k fresh d e e' now token q h same =
    let (held, g) = lookup_sound hash now token (rotate hash o id s).1 h in
    let shape : (rotate hash o id s).1.keys
        ≡ update_id id (λ x. record x { hash = hash fresh }) s.keys =
      unfold rotate in ground arith in
    let (x, e'') =
      updated id (λ x. record x { hash = hash fresh }) s.keys q (λ x. refl) d (rw shape at held)
        same in
    sym g.digest ∙ ap (λ (y : ApiKey). y.hash) e''

-- A rotation reports success exactly when the save succeeds, and then returns the generated token.
pub rotate_result :
    (hash : Text → Text) (o : Fresh) (id : Text) (s : KeyStore) (k : ApiKey) (fresh : Text)
    → find_id id s.keys ≡ some k
    → o.token ≡ some fresh
    → (rotate hash o id s).0 ≡ (
        if text_eq s.path [] || o.writes
        then ok (fresh, record k { hash = hash fresh })
        else err write_failed)
unfolding rotate
rotate_result hash o id s k fresh e e' = ground arith

held_unique :
    (id : Text) (ks : List ApiKey) (q k : ApiKey)
    → DistinctIds ks
    → Holds q ks
    → q.id ≡ id
    → find_id id ks ≡ some k
    → k ≡ q
unfolding find_id
held_unique id [] q k d m e h = absurd m
held_unique id (x ∷ xs) q k d (inl same) e h = ground (arith, text_eq_iff x.id id)
held_unique id (x ∷ xs) q k d (inr m) e h =
    ground (arith, text_eq_iff x.id id, absent x.id xs q d.0 m, held_unique id xs q k d.1 m e)

revoked_keys :
    (o : Fresh) (id : Text) (s : KeyStore) (k : ApiKey)
    → find_id id s.keys ≡ some k
    → k.active ≡ true
    → (revoke o id s).1.keys ≡ update_id id (λ q. record q { active = false }) s.keys
unfolding revoke
revoked_keys o id s k e a = ground arith

-- After a revocation of a key that is there, whatever it returns, the store accepts no token for it.
pub revoke_ends :
    (hash : Text → Text) (o : Fresh) (id : Text) (s : KeyStore) (k : ApiKey)
    → DistinctIds s.keys
    → find_id id s.keys ≡ some k
    → (now : ℕ) (token : Text) (q : ApiKey) → lookup hash now token (revoke o id s).1 ≡ some q
    → q.id ≢ id
revoke_ends hash o id s k d e now token q h same =
    let (held, g) = lookup_sound hash now token (revoke o id s).1 h in
    elim (Bool-cases k.active) [
      | inl active ↦
          let off = λ (x : ApiKey). record x { active = false } in
          let shape = revoked_keys o id s k e active in
          let (x, e') = updated id off s.keys q (λ x. refl) d (rw shape at held) same in
          ground (arith, e', g.is_active)
      | inr inactive ↦
          let kept : (revoke o id s).1.keys ≡ s.keys = unfold revoke in ground arith in
          ground (arith, held_unique id s.keys q k d (rw kept at held) same e, g.is_active)
    ]
