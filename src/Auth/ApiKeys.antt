-- ===== src/Auth/ApiKeys.antt =====
-- internal/auth/apikeys.go: the store of API keys. SHA-256 is the parameter `hash`; what a call receives
-- from outside is a `Fresh`.
pub mod Tokens
pub mod Changes
pub mod Scopes
use scuttlebot.Common.{
  ℕ, zero, suc, ◌+◌, ◌-◌, ◌*◌, ◌≤◌, ◌<◌, Text, bytes, text_eq, text_eq_refl, text_eq_iff, List, [],
  ◌∷◌, ◌++◌, Bool, true, false, ◌&&◌, ◌||◌, not, Option, none, some, Result, ok, err, ◌≡◌, ◌≢◌, ◌↔◌,
  ◌⊎◌, inl, inr, refl, sym, ap, ◌∙◌, arith, Option-cases, Bool-cases, if◌then◌else◌, ltb, leb, ◌==◌,
  length, All, count,
}
use scuttlebot.Common.Op.{Op}

-- The recognised scopes are texts, as in the code.
abbrev pub Scope : Type 0
Scope = Text

abbrev pub scope_admin : Scope
scope_admin = bytes "admin"

abbrev pub valid_scopes : List Scope
valid_scopes =
    bytes "admin"
    ∷ bytes "agents"
    ∷ bytes "channels"
    ∷ bytes "topology"
    ∷ bytes "bots"
    ∷ bytes "config"
    ∷ bytes "read"
    ∷ bytes "chat"
    ∷ []

-- A time of 0 is Go's zero time.
pub record ApiKey : Type 0 where
  pub id : Text
  pub name : Text
  pub hash : Text
  pub scopes : List Scope
  pub team : Text
  pub created_at : ℕ
  pub last_used : ℕ
  pub expires_at : ℕ
  pub active : Bool

-- `file` is what the file at `path` holds after the last write.
pub record KeyStore : Type 0 where
  pub path : Text
  pub keys : List ApiKey
  pub file : List ApiKey

-- The clock, a random token and a fresh id, where `none` is a failed random source, and whether a
-- write of the file succeeds.
pub record Fresh : Type 0 where
  pub now : ℕ
  pub token : Option Text
  pub ulid : Text
  pub writes : Bool

pub data KeyError : Type 0 where
  no_token write_failed : KeyError
  key_not_found already_revoked : Text → KeyError

-- HasScope
unfoldable pub has_scope : List Scope → Scope → Bool
has_scope [] s = false
has_scope (scope ∷ scopes) s = text_eq scope scope_admin || text_eq scope s || has_scope scopes s

-- IsExpired
unfoldable pub is_expired : ℕ → ApiKey → Bool
is_expired now k = not (k.expires_at == 0) && ltb k.expires_at now

-- save
unfoldable pub save : Fresh → Op KeyError KeyStore (Unit {0})
save o s =
    if text_eq s.path []
    then (ok tt, s)
    else if o.writes
    then (ok tt, record s { file = s.keys })
    else (err write_failed, s)

module _ (hash : Text → Text) where
  -- What Create and Insert append.
  unfoldable pub new_key : Fresh → Text → Text → List Scope → ℕ → Text → ApiKey
  new_key o name token scopes expires team = record {
    id = o.ulid;
    name = name;
    hash = hash token;
    scopes = scopes;
    team = team;
    created_at = o.now;
    last_used = 0;
    expires_at = expires;
    active = true;
  }

  -- `s.data = append(s.data, key)`, the save, and the roll back.
  unfoldable pub append_key : Fresh → ApiKey → Op KeyError KeyStore ApiKey
  unfolding save
  append_key o key s =
      let (saved, s') = save o (record s { keys = s.keys ++ key ∷ [] }) in
      elim saved [ ok _ ↦ (ok key, s') | err e ↦ (err e, record s' { keys = s.keys }) ]

  -- Create
  unfoldable pub create :
      Fresh → Text → List Scope → ℕ → Text → Op KeyError KeyStore (Text × ApiKey)
  unfolding append_key new_key
  create o name scopes expires team s = elim o.token [
    | none ↦ (err no_token, s)
    | some token ↦
        let (added, s') = append_key o (new_key o name token scopes expires team) s in
        elim added [ ok key ↦ (ok (token, key), s') | err e ↦ (err e, s') ]
  ]

  -- Insert
  unfoldable pub insert : Fresh → Text → Text → List Scope → Op KeyError KeyStore ApiKey
  unfolding append_key new_key
  insert o name plaintext scopes = append_key o (new_key o name plaintext scopes 0 [])

  -- The test of Lookup.
  unfoldable pub accepts : ℕ → Text → ApiKey → Bool
  unfolding is_expired
  accepts now token k = text_eq k.hash (hash token) && k.active && not (is_expired now k)

  find_token : ℕ → Text → List ApiKey → Option ApiKey
  unfolding accepts
  find_token now token [] = none
  find_token now token (k ∷ ks) = if accepts now token k then some k else find_token now token ks

  -- Lookup
  unfoldable pub lookup : ℕ → Text → KeyStore → Option ApiKey
  unfolding find_token
  lookup now token s = find_token now token s.keys

  -- ValidToken
  unfoldable pub valid_token : ℕ → Text → KeyStore → Bool
  unfolding lookup
  valid_token now token s = elim (lookup now token s) [ none ↦ false | some _ ↦ true ]

-- The first key with the id, in the loops of TouchLastUsed, Get, Rotate and Revoke.
unfoldable pub find_id : Text → List ApiKey → Option ApiKey
find_id id [] = none
find_id id (k ∷ ks) = if text_eq k.id id then some k else find_id id ks

-- A write to that key.
unfoldable pub update_id : Text → (ApiKey → ApiKey) → List ApiKey → List ApiKey
update_id id f [] = []
update_id id f (k ∷ ks) = if text_eq k.id id then f k ∷ ks else k ∷ update_id id f ks

unfoldable pub set_keys : List ApiKey → KeyStore → KeyStore
set_keys ks s = record s { keys = ks }

-- TouchLastUsed
unfoldable pub touch_last_used : Fresh → Text → KeyStore → KeyStore
unfolding find_id update_id save
touch_last_used o id s = elim (find_id id s.keys) [
  | none ↦ s
  | some _ ↦
      (save o (record s { keys = update_id id (λ k. record k { last_used = o.now }) s.keys })).1
]

-- Get
unfoldable pub get : Text → KeyStore → Option ApiKey
unfolding find_id
get id s = find_id id s.keys

-- List
unfoldable pub list : KeyStore → List ApiKey
list s = s.keys

-- Rotate: the key keeps the new hash also where the save fails.
unfoldable pub rotate : (Text → Text) → Fresh → Text → Op KeyError KeyStore (Text × ApiKey)
unfolding find_id update_id save
rotate hash o id s = elim (find_id id s.keys) [
  | none ↦ (err (key_not_found id), s)
  | some k ↦ elim o.token [
    | none ↦ (err no_token, s)
    | some token ↦
        let k' = record k { hash = hash token } in
        let (saved, s') =
          save o (record s { keys = update_id id (λ q. record q { hash = hash token }) s.keys }) in
        elim saved [ ok _ ↦ (ok (token, k'), s') | err _ ↦ (err write_failed, s') ]
  ]
]

-- Revoke
unfoldable pub revoke : Fresh → Text → Op KeyError KeyStore (Unit {0})
unfolding find_id update_id save
revoke o id s = elim (find_id id s.keys) [
  | none ↦ (err (key_not_found id), s)
  | some k ↦
      if not k.active
      then (err (already_revoked id), s)
      else save o (record s { keys = update_id id (λ q. record q { active = false }) s.keys })
]

-- IsEmpty
unfoldable pub is_empty : KeyStore → Bool
is_empty s = elim s.keys [ [] ↦ true | _ ∷ _ ↦ false ]
