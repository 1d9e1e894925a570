-- ===== src/Registry/Model.antt =====
-- internal/registry/registry.go: the agents, their credentials and their persistence. Each method is
-- an operation on the state under the mutex. What a call receives from outside (the clock, the
-- random passphrase, the answers of the account server, of the database and of the file system) is
-- an `Outside`, and the calls it makes to the account server are appended to `account_calls`.
use scuttlebot.Common.{
  ℕ, ◌*◌, ◌/◌, Text, text_eq, List, [], ◌∷◌, Bool, false, Option, none, some, if◌then◌else◌, Result,
  ok, err, ℤ, pos, map,
}
use scuttlebot.Common.Dict
use scuttlebot.Common.Dict.{Dict}
use scuttlebot.Common.Op.{Op}
use scuttlebot.Engagement.{EngagementConfig, ConfigError}

-- Times are nanoseconds from the zero time of Go's package time.
pub record Agent : Type 0 where
  pub nick : Text
  pub agent_type : Text
  pub team : Text
  pub channels : List Text
  pub permissions : List Text
  pub config : EngagementConfig
  pub skills : List Text
  pub created_at : ℕ
  pub revoked : Bool
  pub last_seen : Option ℕ
  pub online : Bool

-- store.AgentRow: one row of the table of agents.
pub record AgentRow : Type 0 where
  pub nick : Text
  pub agent_type : Text
  pub team : Text
  pub config : EngagementConfig
  pub created_at : ℕ
  pub revoked : Bool
  pub last_seen : Option ℕ

pub data AccountCall : Type 0 where
  register_account change_password : Text → Text → AccountCall

-- `file` is what the file at `data_path` holds after the last write, `db` the table of agents.
pub record Registry : Type 0 where
  pub agents : Dict Agent
  pub signing_key : Text
  pub data_path : Text
  pub db : Option (Dict AgentRow)
  pub file : List Agent
  pub online_timeout : ℤ
  pub account_calls : List AccountCall

pub data RegistryError : Type 0 where
  invalid_config : ConfigError → RegistryError
  already_registered not_found is_revoked : Text → RegistryError
  no_passphrase account_refused sign_failed : RegistryError
  load_failed : RegistryError

-- What one call receives from outside: the clock when the agent is changed and when its payload is
-- signed, the passphrase that was generated, and the answers of the account server, where `none` is
-- Go's nil error.
pub record Outside : Type 0 where
  pub now : ℕ
  pub signed_at : ℕ
  pub passphrase : Option Text
  pub on_register_account : Text → Text → Option Text
  pub on_change_password : Text → Text → Option Text
  pub db_writes : Bool
  pub file_writes : Bool

abbrev pub values {ℓ} : {V : Type ℓ} → Dict V → List V
values d = map (λ e. e.1) d

-- The row that `saveOne` writes for an agent.
unfoldable pub to_row : Agent → AgentRow
to_row a = record {
  nick = a.nick;
  agent_type = a.agent_type;
  team = a.team;
  config = a.config;
  created_at = a.created_at;
  revoked = a.revoked;
  last_seen = a.last_seen;
}

-- A time as RFC3339 shows it, in whole seconds.
unfoldable pub whole_seconds : ℕ → ℕ
whole_seconds t = t / 1_000_000_000 * 1_000_000_000

-- The row that `AgentUpsert` writes, as it is read back: the creation time loses its nanoseconds, the
-- time of the last heartbeat keeps them.
unfoldable pub upserted : AgentRow → AgentRow
unfolding whole_seconds
upserted row = record row { created_at = whole_seconds row.created_at }

-- The agent that `SetStore` makes of a row.
unfoldable pub of_row : AgentRow → Agent
of_row r = record {
  nick = r.nick;
  agent_type = r.agent_type;
  team = r.team;
  channels = r.config.channels;
  permissions = r.config.permissions;
  config = r.config;
  skills = [];
  created_at = r.created_at;
  revoked = r.revoked;
  last_seen = r.last_seen;
  online = false;
}

-- A failed write is ignored by the code, and leaves what was there.
unfoldable pub save : Outside → Registry → Registry
save o r =
    if text_eq r.data_path []
    then r
    else if o.file_writes
    then record r { file = values r.agents }
    else r

unfoldable pub save_one : Outside → Agent → Registry → Registry
unfolding save to_row upserted
save_one o a r = elim r.db [
  | none ↦ save o r
  | some rows ↦
      if o.db_writes then record r { db = some (Dict.put rows a.nick (upserted (to_row a))) } else r
]

unfoldable pub delete_one : Outside → Text → Registry → Registry
unfolding save
delete_one o nick r = elim r.db [
  | none ↦ save o r
  | some rows ↦ if o.db_writes then record r { db = some (Dict.remove rows nick) } else r
]

-- The private `get`: an agent that is there and not revoked.
unfoldable pub find : Registry → Text → Result RegistryError Agent
find r nick = elim (Dict.get r.agents nick) [
  | none ↦ err (not_found nick)
  | some a ↦ if a.revoked then err (is_revoked nick) else ok a
]

unfoldable pub set_agent : Text → Agent → Registry → Registry
set_agent nick a r = record r { agents = Dict.put r.agents nick a }

unfoldable pub drop_agent : Text → Registry → Registry
drop_agent nick r = record r { agents = Dict.remove r.agents nick }

-- One call of `ChangePassword`, noted and answered.
unfoldable pub call_change_password : Outside → Text → Text → Registry → Option Text × Registry
call_change_password o nick pass r = (
  o.on_change_password nick pass,
  record r { account_calls = change_password nick pass ∷ r.account_calls },
)

unfoldable pub call_register_account : Outside → Text → Text → Registry → Option Text × Registry
call_register_account o nick pass r = (
  o.on_register_account nick pass,
  record r { account_calls = register_account nick pass ∷ r.account_calls },
)

-- New
pub new : Text → Registry
new key = record {
  agents = [];
  signing_key = key;
  data_path = [];
  db = none;
  file = [];
  online_timeout = pos 0;
  account_calls = [];
}

-- SetDataPath, with what reading the file gave: `none` for a file that is not there, an error for
-- one that cannot be read or decoded.
put_all : List Agent → Dict Agent → Dict Agent
put_all [] d = d
put_all (a ∷ more) d = put_all more (Dict.put d a.nick a)

unfoldable pub set_data_path :
    Text → Option (Result RegistryError (List Agent)) → Op RegistryError Registry (Unit {0})
unfolding put_all
set_data_path path none r = (ok tt, record r { data_path = path; file = [] })
set_data_path path (some (err e)) r = (err load_failed, record r { data_path = path })
set_data_path path (some (ok stored)) r =
    (ok tt, record r { data_path = path; file = stored; agents = put_all stored r.agents })

-- The loop of SetStore over the rows. It stops at the first row whose configuration is not decoded.
unfoldable pub load_rows :
    (AgentRow → Bool) → Dict AgentRow → Dict Agent → Result RegistryError (Unit {0}) × Dict Agent
unfolding of_row
load_rows decodes [] d = (ok tt, d)
load_rows decodes ((k, row) ∷ rows) d =
    let rest = load_rows decodes rows (Dict.put d row.nick (of_row row)) in
    if decodes row then rest else (err load_failed, d)

-- SetStore, with the table that the query gave, or `none` if it failed.
unfoldable pub set_store :
    (AgentRow → Bool) → Option (Dict AgentRow) → Op RegistryError Registry (Unit {0})
set_store decodes none r = (err load_failed, r)
set_store decodes (some rows) r =
    let (result, loaded) = load_rows decodes rows [] in
    (result, record r { db = some rows; data_path = []; agents = loaded })
