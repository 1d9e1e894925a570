-- ===== src/Registry/Tests.antt =====
-- The theorems on the registry at concrete inputs.
use scuttlebot.Registry.Reaping.{reap-outlived, unless_outlived, is_outlived}
use scuttlebot.Registry.Persist.{run-IsConsistent}
use scuttlebot.Registry.Steps.{revokes, registers, Call}
use scuttlebot.Registry.Recovery.{recovery, all_decode, shown}
use scuttlebot.Registry.Steps.{run}
use scuttlebot.Registry.Register.{register_ok, register_refused, IsTaken}
use scuttlebot.Registry.Model.{
  set_agent, save, save_one, values, AgentRow, new, is_revoked, change_password, Registry,
}
use scuttlebot.Registry.Ops.{touch, update_channels, signed_payload, minute, new_agent, delete}
use scuttlebot.Registry.Ops.{rotate}
use scuttlebot.Registry.Payload.{verify_payload-signed, verify_payload, payload_of, SignedPayload}
use scuttlebot.Registry.Ops.{Credentials}
use scuttlebot.Registry.Model.{set_store}
use scuttlebot.Registry.Sweep.{get_online_timeout}
use scuttlebot.Registry.Payload.{sign_payload}
use scuttlebot.Registry.Sweep.{reap}
use scuttlebot.Registry.Ops.{revoke}
use scuttlebot.Registry.Model.{Outside}
use scuttlebot.Registry.Ops.{register}
use scuttlebot.Registry.Payload.{Crypto}
use scuttlebot.Engagement.Valid.{validate_iff, IsWellFormed}
use scuttlebot.Registry.Heartbeats.{touch_starves, last_time, touch_all}
use scuttlebot.Registry.Model.{Agent}
use scuttlebot.Registry.Access.{revoked_is_refused, delete_ok, IsRevoked}
use scuttlebot.Registry.Mirror.{durable_of, IsConsistent}
use scuttlebot.Common.{
  ◌↔◌, contains_text, contains_byte, contains_any, is_err, has_prefix, pos, ◌+◌, ◌*◌, ◌≤◌, Text,
  bytes, text_eq, List, [], ◌∷◌, ◌++◌, true, false, none, some, ok, err, ◌≡◌, ◌≢◌, ◌⊎◌, inr, refl,
  arith, count,
}
use scuttlebot.Common.Dict
use scuttlebot.Common.Dict.{map_option, IsMap, Dict}
use scuttlebot.Engagement.{float_negative, check_channel, validate, EngagementConfig}

abbrev config1 : EngagementConfig
config1 = record {
  channels = bytes "#general" ∷ [];
  ops_channels = [];
  permissions = [];
  rate_limit = record { messages_per_second = 0; burst = pos 5 };
  rules = record { respond_to_types = []; ignore_nicks = [] };
  system_prompt = [];
  model = [];
  temperature = none;
  tool_allowlist = [];
}

abbrev crypto1 : Crypto
crypto1 = record { marshal = λ p. some p.nick; mac = λ key t. key ++ t }

abbrev outside1 : Outside
outside1 = record {
  now = 500 * minute;
  signed_at = 500 * minute + 1;
  passphrase = some (bytes "pass");
  on_register_account = λ nick pass. none;
  on_change_password = λ nick pass. none;
  db_writes = true;
  file_writes = true;
}

abbrev agent1 : Agent
agent1 = record {
  nick = bytes "ada";
  agent_type = bytes "worker";
  team = [];
  channels = bytes "#general" ∷ [];
  permissions = [];
  config = config1;
  skills = [];
  created_at = 1;
  revoked = false;
  last_seen = some minute;
  online = true;
}

abbrev agent2 : Agent
agent2 = record agent1 { nick = bytes "bob"; revoked = true }

abbrev empty1 : Registry
empty1 = record {
  agents = [];
  signing_key = bytes "key";
  data_path = [];
  db = none;
  file = [];
  online_timeout = pos 0;
  account_calls = [];
}

abbrev consistent1 : Registry
consistent1 = record empty1 { db = some [] }

abbrev registry1 : Registry
registry1 = record empty1 { agents = (bytes "ada", agent1) ∷ (bytes "bob", agent2) ∷ [] }

valid_config1 : validate config1 ≡ ok tt
unfolding validate check_channel has_prefix contains_any contains_byte float_negative contains_text
    text_eq
valid_config1 = refl

WellFormed_config1 : IsWellFormed config1
WellFormed_config1 = (validate_iff config1).0 valid_config1

abbrev signed1 : SignedPayload
signed1 = record {
  payload = record {
    version = 1;
    nick = bytes "ada";
    agent_type = bytes "worker";
    team = [];
    config = config1;
    issued_at = 5;
  };
  signature = bytes "keyada";
}

abbrev credentials_eve : Credentials
credentials_eve = record { nick = bytes "eve"; passphrase = bytes "pass" }

abbrev credentials_ada : Credentials
credentials_ada = record { nick = bytes "ada"; passphrase = bytes "pass" }

abbrev signed_eve : SignedPayload
signed_eve = record {
  payload = record {
    version = 1;
    nick = bytes "eve";
    agent_type = bytes "worker";
    team = [];
    config = config1;
    issued_at = 500 * minute + 1;
  };
  signature = bytes "keyeve";
}

IsConsistent-empty1 : IsConsistent consistent1
unfolding Dict.get
IsConsistent-empty1 = record { is_map = tt; keyed = λ k a h. cc; mirrored = (tt, λ k. refl) }

abbrev steps1 : List (Outside × Call)
steps1 =
    (outside1, registers (bytes "eve") (bytes "worker") config1)
    ∷ (outside1, revokes (bytes "eve"))
    ∷ []

IsMap-registry1 : IsMap registry1.agents
unfolding Dict.get text_eq
IsMap-registry1 = (refl, (refl, tt))

holds_ada : Dict.get registry1.agents (bytes "ada") ≡ some agent1
unfolding Dict.get text_eq
holds_ada = refl

holds_bob : Dict.get registry1.agents (bytes "bob") ≡ some agent2
unfolding Dict.get text_eq
holds_bob = refl

IsTaken-ada : IsTaken registry1 (bytes "ada")
IsTaken-ada = (agent1, holds_ada, refl)

IsRevoked-bob : IsRevoked registry1 (bytes "bob")
IsRevoked-bob = (agent2, holds_bob, refl)

free_eve : ¬ IsTaken empty1 (bytes "eve")
unfolding Dict.get
free_eve (a, held, active) = cc

short_timeout : get_online_timeout registry1 ≤ 3 * minute
unfolding get_online_timeout
short_timeout = omega arith

registers_eve :
    (register crypto1 outside1 (bytes "eve") (bytes "worker") config1 empty1).0
    ≡ ok (credentials_eve, signed_eve)
unfolding register Dict.get sign_payload payload_of validate check_channel has_prefix contains_any
    contains_byte float_negative contains_text text_eq save_one save set_agent
registers_eve = refl

register_ok_example :
    let r' = (register crypto1 outside1 (bytes "eve") (bytes "worker") config1 empty1).1 in
    let a = new_agent outside1.now (bytes "eve") (bytes "worker") config1 in
    IsWellFormed config1
    × ¬ IsTaken empty1 (bytes "eve")
    × (credentials_eve.nick ≡ (bytes "eve"))
    × (outside1.passphrase ≡ some credentials_eve.passphrase)
    × (Dict.get r'.agents (bytes "eve") ≡ some a)
    × ((k : Text) → k ≢ (bytes "eve") → Dict.get r'.agents k ≡ Dict.get empty1.agents k)
    × (verify_payload crypto1 signed_eve empty1.signing_key ≡ ok tt)
    × (signed_eve.payload ≡ payload_of outside1.signed_at a)
register_ok_example =
    register_ok crypto1 outside1 (bytes "eve") (bytes "worker") config1 empty1 registers_eve

register_refused_example :
    ((register crypto1 outside1 (bytes "ada") (bytes "worker") config1 registry1).1 ≡ registry1)
    × (is_err (register crypto1 outside1 (bytes "ada") (bytes "worker") config1 registry1).0 ≡ true)
register_refused_example =
    register_refused crypto1 outside1 (bytes "ada") (bytes "worker") config1 registry1
      (inr IsTaken-ada)

revoked_is_refused_example :
    (rotate outside1 (bytes "bob") registry1 ≡ (err (is_revoked (bytes "bob")), registry1))
    × (signed_payload crypto1 outside1 (bytes "bob") registry1
        ≡ (err (is_revoked (bytes "bob")), registry1))
    × (update_channels outside1 (bytes "bob") [] registry1
        ≡ (err (is_revoked (bytes "bob")), registry1))
    × (revoke outside1 (bytes "bob") registry1 ≡ (err (is_revoked (bytes "bob")), registry1))
    × (touch outside1 (bytes "bob") registry1 ≡ registry1)
revoked_is_refused_example =
    revoked_is_refused crypto1 outside1 (bytes "bob") [] registry1 IsRevoked-bob

delete_ok_example :
    let r' = (delete outside1 (bytes "ada") registry1).1 in
    (Dict.get r'.agents (bytes "ada") ≡ none)
    × ((k : Text) → k ≢ (bytes "ada") → Dict.get r'.agents k ≡ Dict.get registry1.agents k)
    × (IsRevoked registry1 (bytes "ada")
        ⊎ ((lockout : Text) × (outside1.passphrase ≡ some lockout)
            × (outside1.on_change_password (bytes "ada") lockout ≡ none)
            × (r'.account_calls ≡ change_password (bytes "ada") lockout ∷ registry1.account_calls)))
unfolding delete text_eq Dict.get
delete_ok_example = delete_ok outside1 (bytes "ada") registry1 refl

reap-outlived_example :
    ((k : Text)
      → Dict.get (reap outside1 (pos minute) registry1).1.agents k
        ≡ unless_outlived outside1.now minute (Dict.get registry1.agents k))
    × ((reap outside1 (pos minute) registry1).0
        ≡ count (is_outlived outside1.now minute) (values registry1.agents))
reap-outlived_example = reap-outlived outside1 minute registry1 (omega arith) IsMap-registry1

recovery_example :
    let start = (set_store all_decode (some []) (new (bytes "key"))).1 in
    let before = run crypto1 steps1 start in
    (rows : Dict AgentRow) × (before.db ≡ some rows)
    × (((set_store all_decode (some rows) (new (bytes "new"))).0 ≡ ok tt)
        × ((k : Text)
            → map_option shown
                (Dict.get (set_store all_decode (some rows) (new (bytes "new"))).1.agents k)
              ≡ map_option durable_of (Dict.get before.agents k)))
recovery_example = recovery crypto1 (bytes "key") (bytes "new") steps1 (refl, (refl, tt))

run-IsConsistent_example : IsConsistent (run crypto1 steps1 consistent1)
run-IsConsistent_example =
    run-IsConsistent crypto1 steps1 consistent1 (refl, (refl, tt)) IsConsistent-empty1

touch_starves_example :
    let r' = touch_all outside1 (bytes "ada") (90000000000 ∷ 120000000000 ∷ []) registry1 in
    (r'.db ≡ registry1.db)
    × (r'.file ≡ registry1.file)
    × (Dict.get r'.agents (bytes "ada")
        ≡ some (record agent1 {
          last_seen = some (last_time minute (90000000000 ∷ 120000000000 ∷ []));
        }))
touch_starves_example =
    touch_starves outside1 (bytes "ada") (90000000000 ∷ 120000000000 ∷ []) registry1 agent1 minute
      holds_ada refl refl (omega arith, (omega arith, tt))

verify_payload-signed_example :
    (verify_payload crypto1 (record signed1 { signature = bytes "other" }) (bytes "key") ≡ ok tt)
    ↔ (bytes "other" ≡ signed1.signature)
unfolding sign_payload
verify_payload-signed_example =
    verify_payload-signed crypto1 (bytes "key") 5 agent1 signed1 (bytes "other") refl
