-- ===== src/Topology.antt =====
-- The policy of channels: internal/topology/policy.go. A channel is matched against the configured
-- types by the prefix of its name, the first type that fits.
pub mod Manager
pub mod Matching
use scuttlebot.Common.{
  pos, trim_prefix, ℤ, to_lower, has_prefix, ℕ, zero, suc, ◌+◌, ◌-◌, ◌*◌, ◌≤◌, ◌<◌, Text, bytes,
  text_eq, text_eq_refl, text_eq_iff, List, [], ◌∷◌, ◌++◌, Bool, true, false, ◌&&◌, ◌||◌, not,
  Option, none, some, Result, ok, err, ◌≡◌, ◌≢◌, ◌↔◌, ◌⊎◌, inl, inr, refl, sym, ap, ◌∙◌, arith,
  Option-cases, Bool-cases, if◌then◌else◌, ltb, leb, ◌==◌, length, All, count,
}
use scuttlebot.Common.Dict
use scuttlebot.Common.Dict.{Dict}

-- ChannelType
pub record ChannelType : Type 0 where
  pub name : Text
  pub prefix : Text
  pub autojoin : List Text
  pub modes : List Text
  pub supervision : Text
  pub ephemeral : Bool
  pub ttl : ℤ

-- config.StaticChannelConfig, what the policy reads of it.
pub record StaticChannel : Type 0 where
  pub name : Text
  pub autojoin : List Text

pub record Policy : Type 0 where
  pub static_channels : List StaticChannel
  pub types : List ChannelType

unfoldable pub first_type : List ChannelType → Text → Option ChannelType
first_type [] slug = none
first_type (t ∷ ts) slug =
    let later = first_type ts slug in if has_prefix slug t.prefix then some t else later

-- Match
unfoldable pub match_type : Policy → Text → Option ChannelType
unfolding first_type
match_type p channel = first_type p.types (trim_prefix channel (bytes "#"))

-- strings.EqualFold, of ASCII text.
unfoldable pub equal_fold : Text → Text → Bool
equal_fold a b = text_eq (to_lower a) (to_lower b)

unfoldable pub find_static : List StaticChannel → Text → Option StaticChannel
unfolding equal_fold
find_static [] channel = none
find_static (c ∷ cs) channel =
    let later = find_static cs channel in if equal_fold c.name channel then some c else later

-- AutojoinFor
unfoldable pub autojoin_for : Policy → Text → List Text
unfolding find_static match_type
autojoin_for p channel = elim (find_static p.static_channels channel) [
  | some c ↦ c.autojoin
  | none ↦ elim (match_type p channel) [ some t ↦ t.autojoin | none ↦ [] ]
]

-- SupervisionFor
unfoldable pub supervision_for : Policy → Text → Text
unfolding match_type
supervision_for p channel = elim (match_type p channel) [ some t ↦ t.supervision | none ↦ [] ]

-- TypeName
unfoldable pub type_name : Policy → Text → Text
unfolding match_type
type_name p channel = elim (match_type p channel) [ some t ↦ t.name | none ↦ [] ]

-- IsEphemeral
unfoldable pub is_ephemeral : Policy → Text → Bool
unfolding match_type
is_ephemeral p channel = elim (match_type p channel) [ some t ↦ t.ephemeral | none ↦ false ]

-- TTLFor
unfoldable pub ttl_for : Policy → Text → ℤ
unfolding match_type
ttl_for p channel = elim (match_type p channel) [ some t ↦ t.ttl | none ↦ pos 0 ]

-- ModesFor
unfoldable pub modes_for : Policy → Text → List Text
unfolding match_type
modes_for p channel = elim (match_type p channel) [ some t ↦ t.modes | none ↦ [] ]
