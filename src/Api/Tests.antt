-- ===== src/Api/Tests.antt =====
-- The theorems on the API at concrete inputs.
use scuttlebot.Common.{
  contains_byte, has_prefix, lower_byte, to_lower, is_space, drop_while, trim_right, trim_left,
  trim_space, ℕ, ◌+◌, Text, bytes, text_eq, List, [], ◌∷◌, ◌++◌, true, false, none, some, ◌≡◌, ◌⊎◌,
  refl, arith, leb, length,
}
use scuttlebot.Common.Windows.{within}
use scuttlebot.Auth.ApiKeys.{ApiKey, KeyStore, Fresh, has_scope}
use scuttlebot.Auth.ApiKeys.Tokens.{Holds, Grants}
use scuttlebot.Api.Access.{Response, write_error, write_json, guarded, bearer_token}
use scuttlebot.Api.Login.{minute, max_attempts, new_login_rate_limiter, allow}
use scuttlebot.Api.Team.{normalize_scoped_channel, channel_allowed_for_team}
use scuttlebot.Api.Guarded.{guarded_lem}
use scuttlebot.Api.Attempts.{attempt_all, times_of, allow-attempt_all}
use scuttlebot.Api.Isolation.{channel_allowed_for_team-plain, channel_allowed_for_team-dashed}

abbrev hash1 : Text → Text
hash1 t = t

abbrev key1 : ApiKey
key1 = record {
  id = bytes "k1";
  name = bytes "ci";
  hash = bytes "t";
  scopes = bytes "read" ∷ [];
  team = [];
  created_at = 1;
  last_used = 0;
  expires_at = 9;
  active = true;
}

abbrev keys1 : KeyStore
keys1 = record { path = []; keys = key1 ∷ []; file = [] }

abbrev fresh1 : Fresh
fresh1 = record { now = 5; token = none; ulid = []; writes = true }

abbrev next1 : ApiKey → KeyStore → Response Text × KeyStore
next1 k s = (write_json 200 k.name, s)

guarded_lem_example :
    ((message : Text) × (guarded hash1 fresh1 (bytes "Bearer t") (bytes "read") next1 keys1
        ≡ ((write_error 401 message, keys1), none)))
    ⊎ ((k : ApiKey) × Holds k keys1.keys
        × Grants hash1 fresh1.now (bearer_token (bytes "Bearer t")) k
        × (((has_scope k.scopes (bytes "read") ≡ false)
              × (guarded hash1 fresh1 (bytes "Bearer t") (bytes "read") next1 keys1 ≡ (
                (write_error 403 (bytes "insufficient scope: requires " ++ bytes "read"), keys1),
                some k.id,
              )))
            ⊎ ((has_scope k.scopes (bytes "read") ≡ true)
                × (guarded hash1 fresh1 (bytes "Bearer t") (bytes "read") next1 keys1
                    ≡ (next1 k keys1, some k.id)))))
guarded_lem_example = guarded_lem hash1 fresh1 (bytes "Bearer t") (bytes "read") next1 keys1

abbrev tries1 : List (Text × ℕ)
tries1 = (bytes "10.0.0.1", 1) ∷ (bytes "10.0.0.2", 2) ∷ (bytes "10.0.0.1", 3) ∷ []

allow-attempt_all_example :
    (allow (bytes "10.0.0.1") 4 (attempt_all tries1 new_login_rate_limiter)).0
    ≡ leb (length (within 4 minute (times_of (bytes "10.0.0.1") tries1)) + 1) max_attempts
allow-attempt_all_example =
    allow-attempt_all (bytes "10.0.0.1") tries1 4 (omega arith, (omega arith, (omega arith, tt)))
      (omega arith)

channel_allowed_for_team-plain_example :
    channel_allowed_for_team (bytes "#team-red-x") (bytes "Blue") []
    ≡ text_eq (to_lower (bytes "red")) (to_lower (trim_space (bytes "Blue")))
unfolding text_eq trim_space trim_left trim_right drop_while is_space normalize_scoped_channel
    to_lower lower_byte has_prefix contains_byte
channel_allowed_for_team-plain_example =
    channel_allowed_for_team-plain (bytes "#team-red-x") (bytes "Blue") (bytes "red") (bytes "x") []
      refl refl refl refl refl

channel_allowed_for_team-dashed_example :
    channel_allowed_for_team (bytes "#team-red-x-y") (bytes "Red") [] ≡ true
unfolding text_eq trim_space trim_left trim_right drop_while is_space normalize_scoped_channel
    to_lower lower_byte has_prefix contains_byte
channel_allowed_for_team-dashed_example =
    channel_allowed_for_team-dashed (bytes "#team-red-x-y") (bytes "Red") (bytes "red-x")
      (bytes "x") (bytes "y") [] refl refl refl refl
