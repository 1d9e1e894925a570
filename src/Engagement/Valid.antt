-- ===== src/Engagement/Valid.antt =====
-- Which configurations `EngagementConfig.Validate` accepts.
use scuttlebot.Common.{
  contains_text_iff, Member, Text, has_prefix, contains_any, text_eq_iff, List, [], ◌∷◌, false,
  Result, ok, ◌≡◌, ◌≢◌, ◌↔◌, All, arith, refl,
}
use scuttlebot.Engagement.{
  EngagementConfig, ConfigError, validate, check_channel, check_each, check_type, check_ops_channel,
  float_negative, int_negative,
}

-- "#", then at least one byte, and no blank, tab, line break or comma.
pub record IsChannelName (ch : Text) : Type 0 where
  pub name : Text
  pub hash : ch ≡ b'#' ∷ name
  pub nonempty : name ≢ []
  pub clean : contains_any ch (32 ∷ 9 ∷ 13 ∷ 10 ∷ 44 ∷ []) ≡ false

check_channel-IsChannelName : (ch : Text) → check_channel ch ≡ ok tt → IsChannelName ch
unfolding check_channel has_prefix
check_channel-IsChannelName [] h = cc
check_channel-IsChannelName (c ∷ []) h = ground arith
check_channel-IsChannelName (c ∷ d ∷ name) h = record {
  name = d ∷ name;
  hash = ground arith;
  nonempty = ground arith;
  clean = ground arith;
}

IsChannelName-check_channel : (ch : Text) → IsChannelName ch → check_channel ch ≡ ok tt
unfolding check_channel has_prefix
IsChannelName-check_channel [] h = ground arith
IsChannelName-check_channel (c ∷ []) h = ground arith
IsChannelName-check_channel (c ∷ d ∷ name) h = ground arith

check_each-All :
    (P : Text → Type 0) (check : Text → Result ConfigError (Unit {0}))
    → ((t : Text) → check t ≡ ok tt → P t)
    → (ts : List Text) → check_each check ts ≡ ok tt
    → All P ts
check_each-All P check sound [] h = tt
check_each-All P check sound (t ∷ ts) h =
    let ih = check_each-All P check sound ts in ground (arith, sound t, ih)

All-check_each :
    (P : Text → Type 0) (check : Text → Result ConfigError (Unit {0}))
    → ((t : Text) → P t → check t ≡ ok tt)
    → (ts : List Text) → All P ts
    → check_each check ts ≡ ok tt
All-check_each P check complete [] h = refl
All-check_each P check complete (t ∷ ts) h =
    ground (arith, complete t h.0, All-check_each P check complete ts h.1)

-- The rules that a configuration has to meet, as the documentation of its fields states them.
pub record IsWellFormed (c : EngagementConfig) : Type 0 where
  pub channels_named : All IsChannelName c.channels
  pub ops_joined : All (λ ch. Member ch c.channels) c.ops_channels
  pub rate_nonnegative : float_negative c.rate_limit.messages_per_second ≡ false
  pub burst_nonnegative : int_negative c.rate_limit.burst ≡ false
  pub types_nonempty : All (λ t. t ≢ []) c.rules.respond_to_types

check_ops_sound : (xs : List Text) (ch : Text) → check_ops_channel xs ch ≡ ok tt → Member ch xs
check_ops_sound xs ch h = (contains_text_iff xs ch).0 (ground arith)

check_ops_complete : (xs : List Text) (ch : Text) → Member ch xs → check_ops_channel xs ch ≡ ok tt
check_ops_complete xs ch m = rw ((contains_text_iff xs ch).1 m) refl

check_type_sound : (t : Text) → check_type t ≡ ok tt → t ≢ []
check_type_sound t h = ground (arith, text_eq_iff t [])

check_type_complete : (t : Text) → t ≢ [] → check_type t ≡ ok tt
check_type_complete t h = ground (arith, text_eq_iff t [])

validate-IsWellFormed : (c : EngagementConfig) → validate c ≡ ok tt → IsWellFormed c
unfolding validate
validate-IsWellFormed c h = record {
  channels_named =
      check_each-All IsChannelName check_channel check_channel-IsChannelName c.channels
        (ground arith);
  ops_joined =
      check_each-All (λ ch. Member ch c.channels) (check_ops_channel c.channels)
        (check_ops_sound c.channels) c.ops_channels (ground arith);
  rate_nonnegative = ground arith;
  burst_nonnegative = ground arith;
  types_nonempty =
      check_each-All (λ t. t ≢ []) check_type check_type_sound c.rules.respond_to_types
        (ground arith);
}

IsWellFormed-validate : (c : EngagementConfig) → IsWellFormed c → validate c ≡ ok tt
unfolding validate
IsWellFormed-validate c w = ground (
  arith,
  All-check_each IsChannelName check_channel IsChannelName-check_channel c.channels
      w.channels_named,
  All-check_each (λ ch. Member ch c.channels) (check_ops_channel c.channels)
      (check_ops_complete c.channels) c.ops_channels w.ops_joined,
  All-check_each (λ t. t ≢ []) check_type check_type_complete c.rules.respond_to_types
      w.types_nonempty,
)

-- Validation accepts a configuration exactly when every channel is "#", at least one more byte and no
-- separator, every operator channel is one of the channels, neither rate is negative, and no
-- message type is empty.
pub validate_iff : (c : EngagementConfig) → (validate c ≡ ok tt) ↔ IsWellFormed c
validate_iff c = (validate-IsWellFormed c, IsWellFormed-validate c)
