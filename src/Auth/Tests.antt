-- ===== src/Auth/Tests.antt =====
-- The theorems on API keys and on admin accounts at concrete inputs.
use scuttlebot.Auth.ApiKeys.Tokens.{lookup_sound, Grants}
use scuttlebot.Auth.ApiKeys.Tokens.{Holds}
use scuttlebot.Auth.Admins.Accounts.{changes-DistinctNames, authenticate-add}
use scuttlebot.Auth.Admins.Accounts.{DistinctNames}
use scuttlebot.Auth.Admins.Accounts.{authenticate-remove}
use scuttlebot.Auth.ApiKeys.Scopes.{parse_scopes}
use scuttlebot.Auth.ApiKeys.Changes.{revoke_ends, rotate_replaces}
use scuttlebot.Auth.ApiKeys.Changes.{DistinctIds}
use scuttlebot.Common.{
  contains_text_iff, trim_space, split_on, contains_text, Member, ℕ, Text, bytes, text_eq, [], ◌∷◌,
  true, false, none, some, ok, err, ◌≡◌, ◌≢◌, refl, if◌then◌else◌, All,
}
use scuttlebot.Auth.ApiKeys.{
  valid_scopes, is_expired, ApiKey, KeyStore, Fresh, rotate, revoke, lookup, save, find_id,
  update_id,
}
use scuttlebot.Auth.Admins.{
  not_written, Admin, AdminStore, Supplied, add, set_password, remove, authenticate, find_admin,
}

abbrev hash1 : Text → Text
hash1 t = 104 ∷ t

abbrev key1 : ApiKey
key1 = record {
  id = bytes "k1";
  name = bytes "ci";
  hash = bytes "ht";
  scopes = [];
  team = [];
  created_at = 1;
  last_used = 0;
  expires_at = 10;
  active = true;
}

abbrev rotated1 : ApiKey
rotated1 = record key1 { hash = bytes "hnew" }

abbrev key2 : ApiKey
key2 = record {
  id = bytes "k2";
  name = bytes "ci";
  hash = bytes "hnew";
  scopes = [];
  team = [];
  created_at = 7;
  last_used = 0;
  expires_at = 0;
  active = true;
}

abbrev key3 : ApiKey
key3 = record key2 { hash = bytes "hu" }

abbrev keys1 : KeyStore
keys1 = record { path = bytes "keys.json"; keys = key1 ∷ []; file = key1 ∷ [] }

abbrev keys2 : KeyStore
keys2 = record { path = bytes "keys.json"; keys = key1 ∷ key3 ∷ []; file = [] }

abbrev fresh1 : Fresh
fresh1 = record { now = 7; token = some (bytes "new"); ulid = bytes "k2"; writes = true }

abbrev unwritten1 : Fresh
unwritten1 = record fresh1 { writes = false }

abbrev failing1 : Fresh
failing1 = record fresh1 { token = none }

abbrev never : ℕ
never = 0

abbrev admin1 : Admin
admin1 = record { username = bytes "root"; hash = bytes "old"; created = 1 }

abbrev admins1 : AdminStore
admins1 = record { admins = admin1 ∷ []; rows = none; file = admin1 ∷ [] }

abbrev supplied1 : Supplied
supplied1 = record { now = 9; hashed = some (bytes "h"); writes = true }

distinct1 : DistinctIds keys1.keys
unfolding text_eq find_id
distinct1 = (refl, tt)

distinct2 : DistinctIds keys2.keys
unfolding text_eq find_id
distinct2 = (refl, (refl, tt))

distinct_admins1 : DistinctNames admins1.admins
unfolding text_eq find_admin
distinct_admins1 = (refl, tt)

parsed1 : parse_scopes (bytes "chat, read") ≡ ok (bytes "chat" ∷ bytes "read" ∷ [])
unfolding parse_scopes split_on trim_space text_eq contains_text
parsed1 = refl

scopes1 : All (λ q. Member q valid_scopes) (bytes "chat" ∷ bytes "read" ∷ [])
unfolding contains_text text_eq
scopes1 = (
  (contains_text_iff valid_scopes (bytes "chat")).0 refl,
  ((contains_text_iff valid_scopes (bytes "read")).0 refl, tt),
)

lookup_sound_example : Holds key1 keys1.keys × Grants hash1 5 (bytes "t") key1
unfolding lookup text_eq is_expired
lookup_sound_example = lookup_sound hash1 5 (bytes "t") keys1 refl

rotate_replaces_example : hash1 (bytes "new") ≡ hash1 (bytes "new")
unfolding find_id rotate update_id save lookup text_eq is_expired
rotate_replaces_example =
    rotate_replaces hash1 unwritten1 (bytes "k1") keys1 key1 (bytes "new") distinct1 refl refl 5
      (bytes "new") rotated1 refl refl

revoke_ends_example : key3.id ≢ (bytes "k1")
unfolding find_id revoke update_id save lookup text_eq is_expired
revoke_ends_example =
    revoke_ends hash1 fresh1 (bytes "k1") keys2 key1 distinct2 refl 5 (bytes "u") key3 refl

changes-DistinctNames_example :
    DistinctNames (add supplied1 (bytes "eve") admins1).1.admins
    × DistinctNames (set_password supplied1 (bytes "eve") admins1).1.admins
    × DistinctNames (remove supplied1 (bytes "eve") admins1).1.admins
changes-DistinctNames_example =
    changes-DistinctNames supplied1 (bytes "eve") admins1 distinct_admins1

authenticate-add_example :
    ((add supplied1 (bytes "eve") admins1).0
      ≡ (if supplied1.writes then ok tt else err not_written))
    × ((other password : Text)
        → authenticate text_eq other password (add supplied1 (bytes "eve") admins1).1 ≡ (
            if text_eq (bytes "eve") other
            then text_eq (bytes "h") password
            else authenticate text_eq other password admins1))
unfolding find_admin text_eq
authenticate-add_example =
    authenticate-add text_eq supplied1 (bytes "eve") (bytes "h") admins1 refl refl

authenticate-remove_example :
    authenticate text_eq (bytes "root") (bytes "h") (remove supplied1 (bytes "root") admins1).1 ≡ (
      if text_eq (bytes "root") (bytes "root")
      then false
      else authenticate text_eq (bytes "root") (bytes "h") admins1)
authenticate-remove_example =
    authenticate-remove text_eq supplied1 (bytes "root") admins1 distinct_admins1 (bytes "root")
      (bytes "h")
