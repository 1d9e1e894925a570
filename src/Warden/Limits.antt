-- ===== src/Warden/Limits.antt =====
-- internal/bots/warden/warden.go: the limits of a channel, the token bucket of each nick and the
-- escalation of its violations. Times are nanoseconds, and 0 is Go's zero time.
use scuttlebot.Common.{
  positive?, ℤ, ℕ, ◌+◌, ◌-◌, Text, List, [], Bool, ◌&&◌, not, none, some, if◌then◌else◌, ltb, ◌==◌,
}
use scuttlebot.Common.Dict
use scuttlebot.Common.Dict.{Dict}

-- Go's float64, as far as the bucket uses it: a conversion of whole numbers, the seconds of a
-- duration, and the operations. `less a b` is `a < b`, and `at_most a b` is `a <= b`.
pub record Floats : Type 1 where
  pub Float : Type 0
  pub of_nat : ℕ → Float
  pub seconds : ℕ → Float
  pub plus : Float → Float → Float
  pub minus : Float → Float → Float
  pub times : Float → Float → Float
  pub less : Float → Float → Bool
  pub at_most : Float → Float → Bool

pub data Action : Type 0 where
  warn : Action
  mute : Action
  kick : Action

-- ChannelConfig
pub record ChannelConfig (fl : Floats) : Type 0 where
  pub messages_per_second : fl.Float
  pub burst : ℤ
  pub cool_down : ℤ

-- A configuration after `defaults`: what is not above 0 has been replaced.
pub record Limits (fl : Floats) : Type 0 where
  pub messages_per_second : fl.Float
  pub burst : ℕ
  pub cool_down : ℕ

-- defaults
unfoldable pub defaults : (fl : Floats) → ChannelConfig fl → Limits fl
defaults fl c = record {
  messages_per_second =
      if fl.at_most c.messages_per_second (fl.of_nat 0) then fl.of_nat 5 else c.messages_per_second;
  burst = elim (positive? c.burst) [ none ↦ 10 | some n ↦ n ];
  cool_down = elim (positive? c.cool_down) [ none ↦ 60000000000 | some n ↦ n ];
}

pub record NickState (fl : Floats) : Type 0 where
  pub tokens : fl.Float
  pub last_refill : ℕ
  pub violations : ℕ
  pub last_action : ℕ
  pub recent_msgs : List Text

pub record ChannelMsg : Type 0 where
  pub nick : Text
  pub text : Text

pub record ChannelState (fl : Floats) : Type 0 where
  pub cfg : Limits fl
  pub nicks : Dict (NickState fl)
  pub recent_msgs : List ChannelMsg

-- newChannelState
unfoldable pub new_channel_state : (fl : Floats) → ChannelConfig fl → ChannelState fl
unfolding defaults
new_channel_state fl cfg = record { cfg = defaults fl cfg; nicks = []; recent_msgs = [] }

-- The entry of a nick, made when there is none. `created` is the clock at that moment.
unfoldable pub entry : {fl : Floats} → ChannelState fl → Text → ℕ → NickState fl
entry {fl} cs nick created = elim (Dict.get cs.nicks nick) [
  | none ↦ record {
    tokens = fl.of_nat cs.cfg.burst;
    last_refill = created;
    violations = 0;
    last_action = 0;
    recent_msgs = [];
  }
  | some ns ↦ ns
]

unfoldable pub store : {fl : Floats} → ChannelState fl → Text → NickState fl → ChannelState fl
store cs nick ns = record {
  cfg = cs.cfg;
  nicks = Dict.put cs.nicks nick ns;
  recent_msgs = cs.recent_msgs;
}

-- minF
unfoldable pub min_f : (fl : Floats) → fl.Float → fl.Float → fl.Float
min_f fl a b = if fl.less a b then a else b

-- The tokens after the refill of `consume` for the time since the last one.
unfoldable pub refilled : {fl : Floats} → Limits fl → NickState fl → ℕ → fl.Float
unfolding min_f
refilled {fl} cfg ns now =
    min_f fl (fl.of_nat cfg.burst)
      (fl.plus ns.tokens (fl.times (fl.seconds (now - ns.last_refill)) cfg.messages_per_second))

-- consume: the clock is read when the entry is made and again for the refill.
unfoldable pub consume : {fl : Floats} → ChannelState fl → Text → ℕ → ℕ → Bool × ChannelState fl
unfolding entry store refilled
consume {fl} cs nick created now =
    let ns = entry cs nick created in
    let full = refilled cs.cfg ns now in
    let allowed = fl.at_most (fl.of_nat 1) full in
    (
      allowed,
      store cs nick (record {
        tokens = if allowed then fl.minus full (fl.of_nat 1) else full;
        last_refill = now;
        violations = ns.violations;
        last_action = ns.last_action;
        recent_msgs = ns.recent_msgs;
      }),
    )

-- The violations that still count at `now`: none after the cool-down.
unfoldable pub standing : {fl : Floats} → Limits fl → NickState fl → ℕ → ℕ
standing cfg ns now =
    if not (ns.last_action == 0) && ltb cfg.cool_down (now - ns.last_action)
    then 0
    else ns.violations

-- The action for the n-th violation in a row.
unfoldable pub action_for : ℕ → Action
action_for n = if n == 1 then warn else if n == 2 then mute else kick

-- violation
unfoldable pub violation : {fl : Floats} → ChannelState fl → Text → ℕ → ℕ → Action × ChannelState fl
unfolding entry store standing action_for
violation cs nick created now =
    let ns = entry cs nick created in
    let n = standing cs.cfg ns now + 1 in
    (
      action_for n,
      store cs nick (record {
        tokens = ns.tokens;
        last_refill = ns.last_refill;
        violations = n;
        last_action = now;
        recent_msgs = ns.recent_msgs;
      }),
    )
