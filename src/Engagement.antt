-- ===== src/Engagement.antt =====
-- internal/registry/engagement.go: the rules of engagement of an agent and their validation.
-- A float64 is its bit pattern, of which the code reads the sign only.
mod Tests
pub mod Valid
use scuttlebot.Common.{
  contains_text, ℕ, ◌/◌, ◌%◌, ◌^◌, Text, bytes, has_prefix, contains_any, text_eq, List, [], ◌∷◌,
  Bool, true, false, ◌&&◌, ◌||◌, not, Option, none, some, ltb, ==_iff, ◌==◌, leb, length, exists,
  if◌then◌else◌, Result, ok, err, ℤ, pos, negsuc,
}

abbrev pub Float64 : Type 0
Float64 = ℕ

-- x < 0: the sign bit, and neither a zero nor a NaN.
unfoldable pub float_negative : Float64 → Bool
float_negative x =
    let magnitude = x % 2 ^ 63 in
    (x / 2 ^ 63 == 1) && ltb 0 magnitude && leb magnitude 0x7FF0000000000000

abbrev pub int_negative : ℤ → Bool
int_negative (pos n) = false
int_negative (negsuc n) = true

pub record RateLimitConfig : Type 0 where
  pub messages_per_second : Float64
  pub burst : ℤ

pub record EngagementRules : Type 0 where
  pub respond_to_types : List Text
  pub ignore_nicks : List Text

pub record EngagementConfig : Type 0 where
  pub channels : List Text
  pub ops_channels : List Text
  pub permissions : List Text
  pub rate_limit : RateLimitConfig
  pub rules : EngagementRules
  pub system_prompt : Text
  pub model : Text
  pub temperature : Option Float64
  pub tool_allowlist : List Text

pub data ConfigError : Type 0 where
  must_start_with_hash invalid_characters too_short ops_not_joined : Text → ConfigError
  negative_rate negative_burst empty_respond_type : ConfigError

-- One round of the loop over `Channels`.
unfoldable pub check_channel : Text → Result ConfigError (Unit {0})
check_channel ch =
    if not (has_prefix ch (bytes "#"))
    then err (must_start_with_hash ch)
    else if contains_any ch (32 ∷ 9 ∷ 13 ∷ 10 ∷ 44 ∷ [])
    then err (invalid_characters ch)
    else if ltb (length ch) 2
    then err (too_short ch)
    else ok tt

abbrev pub check_ops_channel : List Text → Text → Result ConfigError (Unit {0})
check_ops_channel channels ch = if contains_text channels ch then ok tt else err (ops_not_joined ch)

abbrev pub check_type : Text → Result ConfigError (Unit {0})
check_type t = if text_eq t [] then err empty_respond_type else ok tt

-- A loop that returns at the first error.
abbrev pub check_each :
    (Text → Result ConfigError (Unit {0})) → List Text → Result ConfigError (Unit {0})
check_each check [] = ok tt
check_each check (t ∷ ts) =
    let rest = check_each check ts in elim (check t) [ ok _ ↦ rest | err e ↦ err e ]

abbrev and_then :
    Result ConfigError (Unit {0}) → Result ConfigError (Unit {0}) → Result ConfigError (Unit {0})
and_then (ok _) next = next
and_then (err e) next = err e

-- EngagementConfig.Validate
unfoldable pub validate : EngagementConfig → Result ConfigError (Unit {0})
validate c = and_then (check_each check_channel c.channels) (
    and_then (check_each (check_ops_channel c.channels) c.ops_channels) (
      if float_negative c.rate_limit.messages_per_second
      then err negative_rate
      else if int_negative c.rate_limit.burst
      then err negative_burst
      else check_each check_type c.rules.respond_to_types))
