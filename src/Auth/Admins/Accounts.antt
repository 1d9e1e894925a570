-- ===== src/Auth/Admins/Accounts.antt =====
-- Who can log in after an account is added, changed or removed.
use scuttlebot.Common.{
  Text, text_eq, text_eq_refl, text_eq_iff, List, [], ◌∷◌, ◌++◌, Bool, false, none, some, ok, err,
  ◌≡◌, ◌≢◌, ◌⊎◌, inl, inr, refl, arith, Option-cases, Bool-cases, if◌then◌else◌,
}
use scuttlebot.Auth.Admins.{
  not_written, Supplied, AdminStore, Admin, add, remove, set_password, authenticate, find_admin,
  update_admin, remove_admin,
}

-- Usernames are taken once.
abbrev pub DistinctNames : List Admin → Type 0
DistinctNames [] = Unit
DistinctNames (a ∷ rest) = (find_admin a.username rest ≡ none) × DistinctNames rest

find-append :
    (name : Text) (admins : List Admin) (a : Admin)
    → find_admin name (admins ++ a ∷ []) ≡ (elim (find_admin name admins) [
      | some b ↦ some b
      | none ↦ if text_eq a.username name then some a else none
    ])
unfolding find_admin
find-append name [] a = refl
find-append name (b ∷ rest) a = ground (arith, find-append name rest a)

find-update :
    (name other : Text) (hash : Text) (admins : List Admin)
    → find_admin other (update_admin name (λ b. record b { hash = hash }) admins)
      ≡ (elim (find_admin other admins) [
        | none ↦ none
        | some b ↦ if text_eq name other then some (record b { hash = hash }) else some b
      ])
unfolding find_admin update_admin
find-update name other hash [] = refl
find-update name other hash (b ∷ rest) = ground (
  arith,
  find-update name other hash rest,
  text_eq_iff b.username name,
  text_eq_iff b.username other,
  text_eq_iff name other,
)

find-remove_ne :
    (name other : Text) (admins : List Admin)
    → name ≢ other
    → find_admin other (remove_admin name admins) ≡ find_admin other admins
unfolding find_admin remove_admin
find-remove_ne name other [] ne = refl
find-remove_ne name other (b ∷ rest) ne = ground (
  arith,
  find-remove_ne name other rest ne,
  text_eq_iff b.username name,
  text_eq_iff b.username other,
)

find-remove_self :
    (name : Text) (admins : List Admin)
    → DistinctNames admins
    → find_admin name (remove_admin name admins) ≡ none
unfolding find_admin remove_admin
find-remove_self name [] d = refl
find-remove_self name (b ∷ rest) d =
    ground (arith, find-remove_self name rest d.1, text_eq_iff b.username name, d.0)

DistinctNames-append :
    (admins : List Admin) (a : Admin)
    → DistinctNames admins
    → find_admin a.username admins ≡ none
    → DistinctNames (admins ++ a ∷ [])
unfolding find_admin
DistinctNames-append [] a d e = (refl, tt)
DistinctNames-append (b ∷ rest) a d e = (
  ground (
    arith,
    find-append b.username rest a,
    d.0,
    text_eq_iff a.username b.username,
    text_eq_refl b.username,
  ),
  DistinctNames-append rest a d.1 (ground arith),
)

DistinctNames-update :
    (name hash : Text) (admins : List Admin)
    → DistinctNames admins
    → DistinctNames (update_admin name (λ b. record b { hash = hash }) admins)
unfolding update_admin
DistinctNames-update name hash [] d = tt
DistinctNames-update name hash (b ∷ rest) d = elim (Bool-cases (text_eq b.username name)) [
  | inl same ↦ rw same d
  | inr other ↦ rw other (
    ground (arith, find-update name b.username hash rest, d.0),
    DistinctNames-update name hash rest d.1,
  )
]

DistinctNames-remove :
    (name : Text) (admins : List Admin)
    → DistinctNames admins
    → DistinctNames (remove_admin name admins)
unfolding remove_admin
DistinctNames-remove name [] d = tt
DistinctNames-remove name (b ∷ rest) d = elim (Bool-cases (text_eq b.username name)) [
  | inl same ↦ rw same d.1
  | inr other ↦ rw other (
    ground (arith, find-remove_ne name b.username rest, text_eq_iff b.username name, d.0),
    DistinctNames-remove name rest d.1,
  )
]

added_admin : Supplied → Text → Text → Admin
added_admin o name hash = record { username = name; hash = hash; created = o.now }

add_shape :
    (o : Supplied) (name hash : Text) (s : AdminStore)
    → find_admin name s.admins ≡ none
    → o.hashed ≡ some hash
    → (add o name s).1.admins ≡ s.admins ++ added_admin o name hash ∷ []
unfolding add added_admin
add_shape o name hash s e h = ground arith

set_password_shape :
    (o : Supplied) (name hash : Text) (s : AdminStore) (a : Admin)
    → find_admin name s.admins ≡ some a
    → o.hashed ≡ some hash
    → (set_password o name s).1.admins ≡ update_admin name (λ b. record b { hash = hash }) s.admins
unfolding set_password
set_password_shape o name hash s a e h = ground arith

remove_shape :
    (o : Supplied) (name : Text) (s : AdminStore) (a : Admin)
    → find_admin name s.admins ≡ some a
    → (remove o name s).1.admins ≡ remove_admin name s.admins
unfolding remove
remove_shape o name s a e = ground arith

remove_absent :
    (o : Supplied) (name : Text) (s : AdminStore)
    → find_admin name s.admins ≡ none
    → (remove o name s).1.admins ≡ s.admins
unfolding remove
remove_absent o name s e = ground arith

-- Where nothing is to be changed, or no hash was made, the accounts stay.
add_other :
    (o : Supplied) (name : Text) (s : AdminStore)
    → (o.hashed ≡ none) ⊎ ((a : Admin) × (find_admin name s.admins ≡ some a))
    → (add o name s).1.admins ≡ s.admins
unfolding add
add_other o name s (inl e) = ground arith
add_other o name s (inr (a, e)) = ground arith

set_password_other :
    (o : Supplied) (name : Text) (s : AdminStore)
    → (o.hashed ≡ none) ⊎ (find_admin name s.admins ≡ none)
    → (set_password o name s).1.admins ≡ s.admins
unfolding set_password
set_password_other o name s (inl e) = ground arith
set_password_other o name s (inr e) = ground arith

add-DistinctNames :
    (o : Supplied) (name : Text) (s : AdminStore)
    → DistinctNames s.admins
    → DistinctNames (add o name s).1.admins
add-DistinctNames o name s d = elim (Option-cases o.hashed) [
  | inl e ↦ rw (add_other o name s (inl e)) d
  | inr (hash, h) ↦ elim (Option-cases (find_admin name s.admins)) [
    | inl e ↦
        rw (add_shape o name hash s e h)
          (DistinctNames-append s.admins (added_admin o name hash) d (unfold added_admin in e))
    | inr (a, e) ↦ rw (add_other o name s (inr (a, e))) d
  ]
]

set_password-DistinctNames :
    (o : Supplied) (name : Text) (s : AdminStore)
    → DistinctNames s.admins
    → DistinctNames (set_password o name s).1.admins
set_password-DistinctNames o name s d = elim (Option-cases o.hashed) [
  | inl e ↦ rw (set_password_other o name s (inl e)) d
  | inr (hash, h) ↦ elim (Option-cases (find_admin name s.admins)) [
    | inl e ↦ rw (set_password_other o name s (inr e)) d
    | inr (a, e) ↦
        rw (set_password_shape o name hash s a e h) (DistinctNames-update name hash s.admins d)
  ]
]

remove-DistinctNames :
    (o : Supplied) (name : Text) (s : AdminStore)
    → DistinctNames s.admins
    → DistinctNames (remove o name s).1.admins
remove-DistinctNames o name s d = elim (Option-cases (find_admin name s.admins)) [
  | inl e ↦ rw (remove_absent o name s e) d
  | inr (a, e) ↦ rw (remove_shape o name s a e) (DistinctNames-remove name s.admins d)
]

-- Add, SetPassword and Remove keep the usernames distinct, whatever they return.
pub changes-DistinctNames :
    (o : Supplied) (name : Text) (s : AdminStore)
    → DistinctNames s.admins
    → DistinctNames (add o name s).1.admins
      × DistinctNames (set_password o name s).1.admins
      × DistinctNames (remove o name s).1.admins
changes-DistinctNames o name s d = (
  add-DistinctNames o name s d,
  set_password-DistinctNames o name s d,
  remove-DistinctNames o name s d,
)

-- An added admin can log in with exactly the passwords that match the stored hash, and for every other
-- username nothing changes. So it is also where the account could not be saved: the caller then
-- gets an error, and the account is there.
pub authenticate-add :
    (compare : Text → Text → Bool) (o : Supplied) (name hash : Text) (s : AdminStore)
    → find_admin name s.admins ≡ none
    → o.hashed ≡ some hash
    → ((add o name s).0 ≡ (if o.writes then ok tt else err not_written))
      × ((other password : Text)
          → authenticate compare other password (add o name s).1 ≡ (
              if text_eq name other
              then compare hash password
              else authenticate compare other password s))
authenticate-add compare o name hash s e h = (
  unfold add in ground arith,
  λ other password.
      unfold authenticate added_admin in
      ground (
        arith,
        add_shape o name hash s e h,
        find-append other s.admins (added_admin o name hash),
        text_eq_iff name other,
      ),
)

-- After SetPassword an admin can log in with exactly the passwords that match the new hash, and for
-- every other username nothing changes; also where the change could not be saved.
pub authenticate-set_password :
    (compare : Text → Text → Bool) (o : Supplied) (name hash : Text) (s : AdminStore) (a : Admin)
    → find_admin name s.admins ≡ some a
    → o.hashed ≡ some hash
    → (other password : Text)
    → authenticate compare other password (set_password o name s).1 ≡ (
        if text_eq name other then compare hash password else authenticate compare other password s)
unfolding authenticate
authenticate-set_password compare o name hash s a e h other password = ground (
  arith,
  set_password_shape o name hash s a e h,
  find-update name other hash s.admins,
  text_eq_iff name other,
)

-- After Remove no password logs the admin in, and for every other username nothing changes.
pub authenticate-remove :
    (compare : Text → Text → Bool) (o : Supplied) (name : Text) (s : AdminStore)
    → DistinctNames s.admins
    → (other password : Text)
    → authenticate compare other password (remove o name s).1
      ≡ (if text_eq name other then false else authenticate compare other password s)
unfolding authenticate
authenticate-remove compare o name s d other password =
    elim (Option-cases (find_admin name s.admins)) [
      | inl e ↦ ground (arith, remove_absent o name s e, text_eq_iff name other)
      | inr (a, e) ↦ ground (
        arith,
        remove_shape o name s a e,
        find-remove_self name s.admins d,
        find-remove_ne name other s.admins,
        text_eq_iff name other,
      )
    ]
