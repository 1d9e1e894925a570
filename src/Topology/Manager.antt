-- ===== src/Topology/Manager.antt =====
-- The manager of channels, internal/topology/topology.go: what it provisions, drops and reaps. A command is
-- sent by a client that is connected; a nil client stops the program, which is `none`. What runs in a
-- goroutine of its own is taken at the place where it starts. Delays are left out.
mod Tests
pub mod Reaping
use scuttlebot.Common.{
  contains, quote, positive?, to_upper, map, has_prefix, ℕ, zero, suc, ◌+◌, ◌-◌, ◌*◌, ◌≤◌, ◌<◌,
  Text, bytes, text_eq, text_eq_refl, text_eq_iff, List, [], ◌∷◌, ◌++◌, Bool, true, false, ◌&&◌,
  ◌||◌, not, Option, none, some, Result, ok, err, ◌≡◌, ◌≢◌, ◌↔◌, ◌⊎◌, inl, inr, refl, sym, ap, ◌∙◌,
  arith, Option-cases, Bool-cases, if◌then◌else◌, ltb, leb, ◌==◌, length, All, count,
}
use scuttlebot.Common.Dict
use scuttlebot.Common.Dict.{Dict}
use scuttlebot.Topology.{Policy, type_name, is_ephemeral, ttl_for}

pub record ChannelConfig : Type 0 where
  pub name : Text
  pub topic : Text
  pub ops : List Text
  pub voice : List Text
  pub autojoin : List Text
  pub modes : List Text

pub record ChannelRecord : Type 0 where
  pub name : Text
  pub provisioned_at : ℕ

pub data Command : Type 0 where
  join : Text → Command
  mode : Text → Text → Command
  mode_for : Text → Text → Text → Command
  invite : Text → Text → Command
  chanserv : Text → Command

-- `sent` are the commands sent so far, the last one first.
pub record Manager : Type 0 where
  pub nick : Text
  pub oper_pass : Text
  pub policy : Option Policy
  pub connected : Bool
  pub sent : List Command
  pub channels : Dict ChannelRecord

-- NewManager
unfoldable pub new_manager : Text → Text → Option Policy → Manager
new_manager nick oper_pass policy = record {
  nick = nick;
  oper_pass = oper_pass;
  policy = policy;
  connected = false;
  sent = [];
  channels = [];
}

-- ValidateName
unfoldable pub validate_name : Text → Result Text (Unit {0})
validate_name name =
    if not (has_prefix name (bytes "#"))
    then err (bytes "topology: channel name must start with #: " ++ quote name)
    else if ltb (length name) 2
    then err (bytes "topology: channel name too short: " ++ quote name)
    else if contains name (bytes " ")
    then err (bytes "topology: channel name must not contain spaces: " ++ quote name)
    else ok tt

unfoldable pub send : Command → Manager → Option Manager
send c m = if m.connected then some (record m { sent = c ∷ m.sent }) else none

unfoldable pub send_all : List Command → Manager → Option Manager
unfolding send
send_all [] m = some m
send_all (c ∷ cs) m = elim (send c m) [ none ↦ none | some m' ↦ send_all cs m' ]

abbrev amode : Text → Text → Text → Command
amode channel change nick = chanserv (bytes "AMODE " ++ (channel ++ (change ++ nick)))

-- Invite: nothing without a client.
unfoldable pub invite_all : Text → List Text → Manager → Option Manager
unfolding send_all
invite_all channel nicks m =
    if m.connected then send_all (map (λ nick. invite nick channel) nicks) m else some m

-- The commands of provision, in order.
unfoldable pub provision_commands : Text → ChannelConfig → List Command
provision_commands self ch =
    join ch.name
    ∷ chanserv (bytes "REGISTER " ++ ch.name)
    ∷ ((if text_eq ch.topic []
          then []
          else chanserv (bytes "TOPIC " ++ (ch.name ++ (bytes " " ++ ch.topic))) ∷ [])
        ++ (map (λ change. mode ch.name change) ch.modes
            ++ (amode ch.name (bytes " +v ") self
                ∷ (map (λ nick. amode ch.name (bytes " +o ") nick) ch.ops
                    ++ (map (λ nick. amode ch.name (bytes " +v ") nick) ch.voice
                        ++ map (λ nick. invite nick ch.name) ch.autojoin)))))

-- provision
unfoldable pub provision : ChannelConfig → ℕ → Manager → Option Manager
unfolding provision_commands send_all
provision ch now m = elim (send_all (provision_commands m.nick ch) m) [
  | none ↦ none
  | some m' ↦ some (record m' {
    channels = Dict.put m'.channels ch.name (record { name = ch.name; provisioned_at = now });
  })
]

-- The loop of Provision, which stops at the first channel with a name that is not allowed.
unfoldable pub provision_each :
    List ChannelConfig → ℕ → Manager → Option (Result Text (Unit {0}) × Manager)
unfolding validate_name provision
provision_each [] now m = some (ok tt, m)
provision_each (ch ∷ chs) now m = elim (validate_name ch.name) [
  | err e ↦ some (err e, m)
  | ok _ ↦ elim (provision ch now m) [ none ↦ none | some m' ↦ provision_each chs now m' ]
]

-- Provision
unfoldable pub provision_all :
    List ChannelConfig → ℕ → Manager → Option (Result Text (Unit {0}) × Manager)
unfolding provision_each
provision_all channels now m =
    if not m.connected
    then some (
      err (bytes "topology: not connected " ++ (0xE2 ∷ 0x80 ∷ 0x94 ∷ bytes " call Connect first")),
      m,
    )
    else provision_each channels now m

-- SetTopic
unfoldable pub set_topic : Text → Text → Manager → Result Text Manager
set_topic channel topic m =
    elim (send (chanserv (bytes "TOPIC " ++ (channel ++ (bytes " " ++ topic)))) m) [
      | none ↦ err (bytes "topology: not connected")
      | some m' ↦ ok m'
    ]

-- ProvisionChannel
unfoldable pub provision_channel :
    ChannelConfig → ℕ → Manager → Option (Result Text (Unit {0}) × Manager)
unfolding validate_name provision invite_all
provision_channel ch now m = elim (validate_name ch.name) [
  | err e ↦ some (err e, m)
  | ok _ ↦ elim (provision ch now m) [
    | none ↦ none
    | some m' ↦
        elim (if ltb 0 (length ch.autojoin) then invite_all ch.name ch.autojoin m' else some m') [
          | none ↦ none
          | some m2 ↦ some (ok tt, m2)
        ]
  ]
]

-- ProvisionEphemeral
unfoldable pub provision_ephemeral : Text → ℕ → Manager → Option (Result Text Text × Manager)
unfolding validate_name provision
provision_ephemeral id now m =
    let name = bytes "#task." ++ id in
    elim (validate_name name) [
      | err e ↦ some (err e, m)
      | ok _ ↦
          elim (provision
            (record { name = name; topic = []; ops = []; voice = []; autojoin = []; modes = [] })
            now m) [ none ↦ none | some m' ↦ some (ok name, m') ]
    ]

-- DestroyEphemeral
unfoldable pub destroy_ephemeral : Text → Manager → Option Manager
unfolding send
destroy_ephemeral channel m = send (chanserv (bytes "DROP " ++ channel)) m

-- DropChannel
unfoldable pub drop_channel : Text → Manager → Option Manager
unfolding send
drop_channel channel m = elim (send (chanserv (bytes "DROP " ++ channel)) m) [
  | none ↦ none
  | some m' ↦ some (record m' { channels = Dict.remove m'.channels channel })
]

-- SetChannelMode
unfoldable pub set_channel_mode : Text → Text → Text → Manager → Manager
unfolding send
set_channel_mode channel change target m = elim (send (mode_for channel change target) m) [
  | none ↦ m
  | some m' ↦ m'
]

-- The test of reap.
unfoldable pub is_overdue : Policy → ℕ → ChannelRecord → Bool
is_overdue p now rec = elim (positive? (ttl_for p rec.name)) [
  | none ↦ false
  | some ttl ↦ is_ephemeral p rec.name && ltb ttl (now - rec.provisioned_at)
]

-- The names of the records to reap, in the order of the map.
unfoldable pub overdue : Policy → ℕ → Dict ChannelRecord → List Text
overdue p now [] = []
overdue p now ((name, rec) ∷ d) =
    let rest = overdue p now d in if is_overdue p now rec then rec.name ∷ rest else rest

unfoldable pub drop_all : List Text → Manager → Option Manager
unfolding drop_channel
drop_all [] m = some m
drop_all (name ∷ names) m = elim (drop_channel name m) [ none ↦ none | some m' ↦ drop_all names m' ]

-- reap; without a policy the reaper does not run
unfoldable pub reap : ℕ → Manager → Option Manager
unfolding overdue drop_all
reap now m = elim m.policy [ none ↦ some m | some p ↦ drop_all (overdue p now m.channels) m ]

-- The mode that GrantAccess takes for a level.
unfoldable pub level_change : Text → Option Text
level_change level =
    let l = to_upper level in
    if text_eq l (bytes "OP")
    then some (bytes " +o ")
    else if text_eq l (bytes "VOICE")
    then some (bytes " +v ")
    else none

-- GrantAccess
unfoldable pub grant_access : Text → Text → Text → Manager → Manager
unfolding send level_change
grant_access nick channel level m = elim (level_change level) [
  | none ↦ m
  | some change ↦ elim (send (amode channel change nick) m) [ none ↦ m | some m' ↦ m' ]
]

-- RevokeAccess
unfoldable pub revoke_access : Text → Text → Manager → Manager
unfolding send_all
revoke_access nick channel m =
    elim (send_all (amode channel (bytes " -o ") nick ∷ amode channel (bytes " -v ") nick ∷ []) m) [
      | none ↦ m
      | some m' ↦ m'
    ]

-- ListChannels: the record, the name of its type, whether it is ephemeral, and its time to live if it has one
unfoldable pub list_channels : Manager → List (ChannelRecord × Text × Bool × Option ℕ)
list_channels m =
    map
      (λ (e : Text × ChannelRecord). elim m.policy [
        | none ↦ (e.1, [], false, none)
        | some p ↦
            (e.1, type_name p e.1.name, is_ephemeral p e.1.name, positive? (ttl_for p e.1.name))
      ])
      m.channels
