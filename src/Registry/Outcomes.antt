-- ===== src/Registry/Outcomes.antt =====
-- The states that each method can leave: the one it found, as far as agents and table go, or the one
-- that its last write makes.
use scuttlebot.Registry.Register.{agents-provision}
use scuttlebot.Engagement.{EngagementConfig}
use scuttlebot.Registry.Payload.{Crypto}
use scuttlebot.Common.{Text, List, [], ◌∷◌, true, Option, none, some, ◌≡◌, ◌⊎◌, arith}
use scuttlebot.Common.Dict
use scuttlebot.Common.Dict.{Dict}
use scuttlebot.Registry.Model.{
  drop_agent, save, delete_one, change_password, Registry, Agent, Outside, set_agent, save_one,
  find,
}
use scuttlebot.Registry.Ops.{
  update, rotate, update_channels, revoke, delete, adopt, register, provision, new_agent, touch,
}

abbrev pub pass_or : Option Text → Text
pass_or none = []
pass_or (some p) = p

-- A method leaves the agents and the table, or ends in the write of one agent.
abbrev pub Same : Registry → Registry → Type 0
Same r q = (q.agents ≡ r.agents) × (q.db ≡ r.db)

pub db-provision :
    (o : Outside) (nick pass : Text) (r : Registry) → (provision o nick pass r).1.db ≡ r.db
unfolding provision
db-provision o nick pass r = ground arith

pub register_cases :
    (c : Crypto) (o : Outside) (nick ty : Text) (cfg : EngagementConfig) (r : Registry)
    → let a = new_agent o.now nick ty cfg in
      Same r (register c o nick ty cfg r).1
      ⊎ ((register c o nick ty cfg r).1
          ≡ save_one o a (set_agent nick a (provision o nick (pass_or o.passphrase) r).1))
unfolding register
register_cases c o nick ty cfg r = ground (
  arith,
  agents-provision o nick (pass_or o.passphrase) r,
  db-provision o nick (pass_or o.passphrase) r,
)

pub adopt_cases :
    (c : Crypto) (o : Outside) (nick ty : Text) (cfg : EngagementConfig) (r : Registry)
    → let a = new_agent o.now nick ty cfg in
      Same r (adopt c o nick ty cfg r).1
      ⊎ ((adopt c o nick ty cfg r).1 ≡ save_one o a (set_agent nick a r))
unfolding adopt
adopt_cases c o nick ty cfg r = ground arith

pub rotate_cases : (o : Outside) (nick : Text) (r : Registry) → Same r (rotate o nick r).1
unfolding rotate save
rotate_cases o nick r = (ground arith, ground arith)

-- What the password change of a lockout leaves.
unfoldable pub called : Outside → Text → Registry → Registry
called o nick r = record r {
  account_calls = change_password nick (pass_or o.passphrase) ∷ r.account_calls;
}

pub revoke_cases :
    (o : Outside) (nick : Text) (r : Registry) (a : Agent)
    → Dict.get r.agents nick ≡ some a
    → Same r (revoke o nick r).1
      ⊎ ((revoke o nick r).1
          ≡ save_one o
              (record a { revoked = true })
              (set_agent nick (record a { revoked = true }) (called o nick r)))
unfolding revoke find called
revoke_cases o nick r a e = ground arith

pub revoke_absent :
    (o : Outside) (nick : Text) (r : Registry)
    → Dict.get r.agents nick ≡ none
    → Same r (revoke o nick r).1
unfolding revoke find
revoke_absent o nick r e = (ground arith, ground arith)

abbrev pub with_channels : List Text → Agent → Agent
with_channels channels a =
    let cfg = a.config in
    record a { channels = channels; config = record cfg { channels = channels } }

pub update_channels_cases :
    (o : Outside) (nick : Text) (channels : List Text) (r : Registry) (a : Agent)
    → Dict.get r.agents nick ≡ some a
    → Same r (update_channels o nick channels r).1
      ⊎ ((update_channels o nick channels r).1
          ≡ save_one o (with_channels channels a) (set_agent nick (with_channels channels a) r))
unfolding update_channels find
update_channels_cases o nick channels r a e = ground arith

pub update_channels_absent :
    (o : Outside) (nick : Text) (channels : List Text) (r : Registry)
    → Dict.get r.agents nick ≡ none
    → Same r (update_channels o nick channels r).1
unfolding update_channels find
update_channels_absent o nick channels r e = (ground arith, ground arith)

pub delete_cases :
    (o : Outside) (nick : Text) (r : Registry)
    → Same r (delete o nick r).1
      ⊎ ((delete o nick r).1 ≡ delete_one o nick (drop_agent nick r))
      ⊎ ((delete o nick r).1 ≡ delete_one o nick (drop_agent nick (called o nick r)))
unfolding delete called
delete_cases o nick r = ground arith

pub update_cases :
    (o : Outside) (a : Agent) (r : Registry)
    → Same r (update o a r).1 ⊎ ((update o a r).1 ≡ save_one o a (set_agent a.nick a r))
unfolding update
update_cases o a r = ground arith

pub touch_cases :
    (o : Outside) (nick : Text) (r : Registry) (a : Agent)
    → Dict.get r.agents nick ≡ some a
    → let b = record a { last_seen = some o.now } in
      Same r (touch o nick r)
      ⊎ (touch o nick r ≡ set_agent nick b r)
      ⊎ (touch o nick r ≡ save_one o b (set_agent nick b r))
unfolding touch
touch_cases o nick r a e = ground arith

pub touch_absent :
    (o : Outside) (nick : Text) (r : Registry) → Dict.get r.agents nick ≡ none → touch o nick r ≡ r
unfolding touch
touch_absent o nick r e = ground arith
