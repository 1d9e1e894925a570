-- ===== src/Warden/Tests.antt =====
-- The theorems on the warden at concrete inputs, with whole numbers in place of floats.
use scuttlebot.Warden.Moderation.{Bot}
use scuttlebot.Warden.Escalation.{violations_escalate, Close}
use scuttlebot.Warden.Escalation.{actions}
use scuttlebot.Common.{
  min, replicate, pos, ◌/◌, ℕ, ◌+◌, ◌-◌, ◌*◌, ◌<◌, Text, bytes, text_eq, List, [], ◌∷◌, Bool, true,
  false, Option, none, ◌≡◌, ◌≢◌, inl, refl, arith, ltb, leb, length,
}
use scuttlebot.Common.Dict
use scuttlebot.Common.Dict.{Dict}
use scuttlebot.Warden.Limits.{
  Floats, warn, mute, kick, ChannelState, NickState, ChannelConfig, Limits, entry,
}
use scuttlebot.Warden.Burst.{burst_allowed, allowed, Exact}
use scuttlebot.CmdParse.Router.{Context}
use scuttlebot.Protocol.{Envelope}

abbrev floats1 : Floats
floats1 = record {
  Float = ℕ;
  of_nat = λ n. n;
  seconds = λ d. d / 1000000000;
  plus = λ a b. a + b;
  minus = λ a b. a - b;
  times = λ a b. a * b;
  less = ltb;
  at_most = leb;
}

exact1 : Exact floats1 100 5
exact1 = record {
  no_time = λ a h. omega arith;
  less_of_nat = λ a b h h'. refl;
  at_most_of_nat = λ a b h h'. refl;
  minus_one = λ a h. omega arith;
}

abbrev limits1 : Limits floats1
limits1 = record { messages_per_second = 5; burst = 3; cool_down = 10 }

abbrev state1 : ChannelState floats1
state1 = record { cfg = limits1; nicks = []; recent_msgs = [] }

abbrev ada1 : NickState floats1
ada1 = record { tokens = 0; last_refill = 1; violations = 2; last_action = 5; recent_msgs = [] }

abbrev state2 : ChannelState floats1
state2 = record { cfg = limits1; nicks = (bytes "ada", ada1) ∷ []; recent_msgs = [] }

abbrev config3 : ChannelConfig floats1
config3 = record { messages_per_second = 5; burst = pos 3; cool_down = pos 10 }

abbrev bot1 : Bot floats1
bot1 = record { channel_configs = []; default_config = config3; channels = [] }

abbrev op1 : Text → Text → Bool
op1 channel nick = true

abbrev decode1 : Text → Option Envelope
decode1 raw = none

abbrev context1 : Context
context1 = record { nick = bytes "ada"; channel = bytes "#ops"; is_dm = false }

abbrev later1 : List (ℕ × Text)
later1 = (3, bytes "c") ∷ []

close1 : Close 10 1 ((2, bytes "b") ∷ later1)
unfolding Close
close1 = (omega arith, (omega arith, tt))

known : entry state2 (bytes "ada") 50 ≡ ada1
unfolding entry Dict.get text_eq
known = refl

acted : (entry state2 (bytes "ada") 50).last_action ≢ 0
unfolding entry Dict.get text_eq
acted h = ground arith

late : 10 < 50 - (entry state2 (bytes "ada") 50).last_action
unfolding entry Dict.get text_eq
late = omega arith

abbrev words1 : List Text
words1 = bytes "a" ∷ bytes "b" ∷ bytes "c" ∷ bytes "d" ∷ bytes "e" ∷ []

burst_allowed_example : allowed state1 (bytes "ada") 7 words1 ≡ min (length words1) state1.cfg.burst
unfolding Dict.get
burst_allowed_example =
    burst_allowed 100 5 exact1 state1 (bytes "ada") 7 words1 (inl refl) refl (omega arith)
      (omega arith)

violations_escalate_example :
    actions state1 (bytes "ada") ((1, bytes "a") ∷ (2, bytes "b") ∷ later1)
    ≡ warn ∷ mute ∷ replicate (length later1) kick
unfolding entry Dict.get
violations_escalate_example =
    violations_escalate state1 (bytes "ada") (1, bytes "a") (2, bytes "b") later1 refl close1
