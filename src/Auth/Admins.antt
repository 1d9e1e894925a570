-- ===== src/Auth/Admins.antt =====
-- internal/auth/admin.go: the admin accounts. bcrypt is the parameter `compare`, with the hash that
-- GenerateFromPassword gave (or its error) in what a call receives from outside.
pub mod Accounts
use scuttlebot.Common.{
  map, ℕ, zero, suc, ◌+◌, ◌-◌, ◌*◌, ◌≤◌, ◌<◌, Text, bytes, text_eq, text_eq_refl, text_eq_iff, List,
  [], ◌∷◌, ◌++◌, Bool, true, false, ◌&&◌, ◌||◌, not, Option, none, some, Result, ok, err, ◌≡◌, ◌≢◌,
  ◌↔◌, ◌⊎◌, inl, inr, refl, sym, ap, ◌∙◌, arith, Option-cases, Bool-cases, if◌then◌else◌, ltb, leb,
  ◌==◌, length, All, count,
}
use scuttlebot.Common.Dict
use scuttlebot.Common.Dict.{Dict}
use scuttlebot.Common.Op.{Op}

pub record Admin : Type 0 where
  pub username : Text
  pub hash : Text
  pub created : ℕ

-- `rows` is the table of admins where the database is used, `file` what the file holds otherwise.
pub record AdminStore : Type 0 where
  pub admins : List Admin
  pub rows : Option (Dict Admin)
  pub file : List Admin

-- The clock, the hash of the password of this call, and whether a write succeeds.
pub record Supplied : Type 0 where
  pub now : ℕ
  pub hashed : Option Text
  pub writes : Bool

pub data AdminError : Type 0 where
  already_exists admin_not_found : Text → AdminError
  not_hashed not_written : AdminError

unfoldable pub find_admin : Text → List Admin → Option Admin
find_admin username [] = none
find_admin username (a ∷ as') =
    if text_eq a.username username then some a else find_admin username as'

unfoldable pub update_admin : Text → (Admin → Admin) → List Admin → List Admin
update_admin username f [] = []
update_admin username f (a ∷ as') =
    if text_eq a.username username then f a ∷ as' else a ∷ update_admin username f as'

unfoldable pub remove_admin : Text → List Admin → List Admin
remove_admin username [] = []
remove_admin username (a ∷ as') =
    if text_eq a.username username then as' else a ∷ remove_admin username as'

-- `return s.db.AdminUpsert(...)` or `return s.save()`.
unfoldable pub write_admin : Supplied → Admin → Op AdminError AdminStore (Unit {0})
write_admin o a s = if not o.writes then (err not_written, s) else (elim s.rows [
  | none ↦ (ok tt, record s { file = s.admins })
  | some rows ↦ (ok tt, record s { rows = some (Dict.put rows a.username a) })
])

-- `return s.db.AdminDelete(username)` or `return s.save()`.
unfoldable pub erase_admin : Supplied → Text → Op AdminError AdminStore (Unit {0})
erase_admin o username s = if not o.writes then (err not_written, s) else (elim s.rows [
  | none ↦ (ok tt, record s { file = s.admins })
  | some rows ↦ (ok tt, record s { rows = some (Dict.remove rows username) })
])

-- Add
unfoldable pub add : Supplied → Text → Op AdminError AdminStore (Unit {0})
unfolding find_admin write_admin
add o username s = elim (find_admin username s.admins) [
  | some _ ↦ (err (already_exists username), s)
  | none ↦ elim o.hashed [
    | none ↦ (err not_hashed, s)
    | some hash ↦
        let a : Admin = record { username = username; hash = hash; created = o.now } in
        write_admin o a (record s { admins = s.admins ++ a ∷ [] })
  ]
]

-- SetPassword
unfoldable pub set_password : Supplied → Text → Op AdminError AdminStore (Unit {0})
unfolding find_admin update_admin write_admin
set_password o username s = elim (find_admin username s.admins) [
  | none ↦ (err (admin_not_found username), s)
  | some a ↦ elim o.hashed [
    | none ↦ (err not_hashed, s)
    | some hash ↦
        write_admin o (record a { hash = hash })
          (record s { admins = update_admin username (λ b. record b { hash = hash }) s.admins })
  ]
]

-- Remove
unfoldable pub remove : Supplied → Text → Op AdminError AdminStore (Unit {0})
unfolding find_admin remove_admin erase_admin
remove o username s = elim (find_admin username s.admins) [
  | none ↦ (err (admin_not_found username), s)
  | some _ ↦ erase_admin o username (record s { admins = remove_admin username s.admins })
]

-- Authenticate
unfoldable pub authenticate : (Text → Text → Bool) → Text → Text → AdminStore → Bool
unfolding find_admin
authenticate compare username password s = elim (find_admin username s.admins) [
  | none ↦ false
  | some a ↦ compare a.hash password
]

-- IsEmpty and List
unfoldable pub is_empty : AdminStore → Bool
is_empty s = elim s.admins [ [] ↦ true | _ ∷ _ ↦ false ]

-- SetStore, with the rows of the query.
unfoldable pub set_store : Option (Dict Admin) → Op AdminError AdminStore (Unit {0})
set_store none s = (err not_written, s)
set_store (some rows) s = (ok tt, record s { rows = some rows; admins = map (λ e. e.1) rows })
