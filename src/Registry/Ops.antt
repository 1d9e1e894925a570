-- ===== src/Registry/Ops.antt =====
-- The methods of the registry. Each is what the code does between taking the mutex and giving it up.
use scuttlebot.Common.{
  ℕ, ◌-◌, ◌*◌, Text, bytes, contains, List, [], Bool, true, false, Option, none, some, leb,
  if◌then◌else◌, ok, err,
}
use scuttlebot.Common.Dict
use scuttlebot.Common.Dict.{Dict}
use scuttlebot.Common.Op.{Op, return, attempt, change, ◌>>=◌, ◌>>◌}
use scuttlebot.Engagement.{EngagementConfig, validate}
use scuttlebot.Registry.Model.{
  Agent, Registry, RegistryError, Outside, invalid_config, already_registered, not_found,
  no_passphrase, account_refused, save, save_one, delete_one, find, set_agent, drop_agent,
  call_change_password, call_register_account,
}
use scuttlebot.Registry.Payload.{Crypto, SignedPayload, sign_payload}

pub record Credentials : Type 0 where
  pub nick : Text
  pub passphrase : Text

-- A method with the errors and the state of the registry.
abbrev pub Method : Type 0 → Type 0
Method A = Op RegistryError Registry A

check_config : EngagementConfig → Method (Unit {0})
check_config cfg r = elim (validate cfg) [ ok _ ↦ (ok tt, r) | err e ↦ (err (invalid_config e), r) ]

-- `if existing, ok := r.agents[nick]; ok && !existing.Revoked`
check_free : Text → Method (Unit {0})
check_free nick r = elim (Dict.get r.agents nick) [
  | none ↦ (ok tt, r)
  | some a ↦ if a.revoked then (ok tt, r) else (err (already_registered nick), r)
]

generate_passphrase : Outside → Method Text
generate_passphrase o r = elim o.passphrase [ none ↦ (err no_passphrase, r) | some p ↦ (ok p, r) ]

unfoldable pub set_password : Outside → Text → Text → Method (Unit {0})
unfolding call_change_password
set_password o nick pass r =
    let (answer, r') = call_change_password o nick pass r in
    elim answer [ none ↦ (ok tt, r') | some _ ↦ (err account_refused, r') ]

-- The account is made, or its password is set where the account server has it already.
unfoldable pub provision : Outside → Text → Text → Method (Unit {0})
unfolding call_register_account set_password contains
provision o nick pass r =
    let (answer, r') = call_register_account o nick pass r in
    elim answer [
      | none ↦ (ok tt, r')
      | some e ↦
          if contains e (bytes "ACCOUNT_EXISTS")
          then set_password o nick pass r'
          else (err account_refused, r')
    ]

unfoldable pub new_agent : ℕ → Text → Text → EngagementConfig → Agent
new_agent now nick ty cfg = record {
  nick = nick;
  agent_type = ty;
  team = [];
  channels = cfg.channels;
  permissions = cfg.permissions;
  config = cfg;
  skills = [];
  created_at = now;
  revoked = false;
  last_seen = none;
  online = false;
}

-- `r.agents[nick] = agent; r.saveOne(agent)`
store_agent : Outside → Text → Agent → Method (Unit {0})
unfolding save_one set_agent
store_agent o nick a = change (λ r. save_one o a (set_agent nick a r))

sign : Crypto → Outside → Agent → Method SignedPayload
sign c o a r = attempt (sign_payload c r.signing_key o.signed_at a) r

-- Register
unfoldable pub register :
    Crypto → Outside → Text → Text → EngagementConfig → Method (Credentials × SignedPayload)
unfolding check_config check_free generate_passphrase provision new_agent store_agent sign
register c o nick ty cfg = do
  check_config cfg
  check_free nick
  pass ← generate_passphrase o
  provision o nick pass
  let agent = new_agent o.now nick ty cfg
  store_agent o nick agent
  payload ← sign c o agent
  return (record { nick = nick; passphrase = pass }, payload)

-- Adopt
unfoldable pub adopt : Crypto → Outside → Text → Text → EngagementConfig → Method SignedPayload
unfolding check_config check_free new_agent store_agent sign
adopt c o nick ty cfg = do
  check_config cfg
  check_free nick
  let agent = new_agent o.now nick ty cfg
  store_agent o nick agent
  sign c o agent

get_active : Text → Method Agent
unfolding find
get_active nick r = attempt (find r nick) r

-- Rotate
unfoldable pub rotate : Outside → Text → Method Credentials
unfolding get_active generate_passphrase set_password save
rotate o nick = do
  get_active nick >>= λ a. return tt
  pass ← generate_passphrase o
  set_password o nick pass
  change (save o)
  return (record { nick = nick; passphrase = pass })

-- Revoke
unfoldable pub revoke : Outside → Text → Method (Unit {0})
unfolding get_active generate_passphrase set_password store_agent
revoke o nick = do
  agent ← get_active nick
  lockout ← generate_passphrase o
  set_password o nick lockout
  store_agent o nick (record agent { revoked = true })

-- The lockout step of Delete, for an agent that is not revoked.
lock_out : Outside → Text → Agent → Method (Unit {0})
unfolding generate_passphrase set_password
lock_out o nick a =
    if a.revoked then return tt else (do pass ← generate_passphrase o; set_password o nick pass)

-- Delete
unfoldable pub delete : Outside → Text → Method (Unit {0})
unfolding lock_out drop_agent delete_one
delete o nick r = elim (Dict.get r.agents nick) [
  | none ↦ (err (not_found nick), r)
  | some a ↦ (lock_out o nick a >> change (λ q. delete_one o nick (drop_agent nick q))) r
]

-- Update
unfoldable pub update : Outside → Agent → Method (Unit {0})
unfolding store_agent
update o a r = elim (Dict.get r.agents a.nick) [
  | none ↦ (err (not_found a.nick), r)
  | some _ ↦ store_agent o a.nick a r
]

-- UpdateChannels
unfoldable pub update_channels : Outside → Text → List Text → Method (Unit {0})
unfolding get_active store_agent
update_channels o nick channels = do
  agent ← get_active nick
  let cfg = agent.config
  store_agent o nick
      (record agent { channels = channels; config = record cfg { channels = channels } })

-- SignedPayload
unfoldable pub signed_payload : Crypto → Outside → Text → Method SignedPayload
unfolding get_active sign
signed_payload c o nick = do agent ← get_active nick; sign c o agent

abbrev pub minute : ℕ
minute = 60 * 1_000_000_000

-- `a.LastSeen == nil || now.Sub(*a.LastSeen) >= time.Minute`
unfoldable pub should_persist : ℕ → Option ℕ → Bool
should_persist now none = true
should_persist now (some seen) = leb minute (now - seen)

-- Touch
unfoldable pub touch : Outside → Text → Registry → Registry
unfolding should_persist set_agent save_one
touch o nick r = elim (Dict.get r.agents nick) [
  | none ↦ r
  | some a ↦
      if a.revoked
      then r
      else let seen = record a { last_seen = some o.now } in
        let r' = set_agent nick seen r in
        if should_persist o.now a.last_seen then save_one o seen r' else r'
]
