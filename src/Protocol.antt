-- ===== src/Protocol.antt =====
-- The message envelope: pkg/protocol/protocol.go, its validation and the agents it is addressed to.
-- Decoding JSON is encoding/json's and a parameter.
mod Tests
pub mod Recipients
use scuttlebot.Common.{
  negsuc, take, reverse, pos, trim_prefix, has_prefix, ℤ, ℕ, zero, suc, ◌+◌, ◌-◌, ◌*◌, ◌≤◌, ◌<◌,
  Text, bytes, text_eq, text_eq_refl, text_eq_iff, List, [], ◌∷◌, ◌++◌, Bool, true, false, ◌&&◌,
  ◌||◌, not, Option, none, some, Result, ok, err, ◌≡◌, ◌≢◌, ◌↔◌, ◌⊎◌, inl, inr, refl, sym, ap, ◌∙◌,
  arith, Option-cases, Bool-cases, if◌then◌else◌, ltb, leb, ◌==◌, length, All, count,
}
use scuttlebot.Common.Dict
use scuttlebot.Common.Dict.{Dict}

-- Envelope, its payload as the raw text.
pub record Envelope : Type 0 where
  pub v : ℤ
  pub type : Text
  pub id : Text
  pub from : Text
  pub to : List Text
  pub ts : ℤ
  pub payload : Text

pub data EnvelopeError : Type 0 where
  not_json : EnvelopeError
  unsupported_version : ℤ → EnvelopeError
  missing_type : EnvelopeError
  missing_id : EnvelopeError
  missing_from : EnvelopeError

-- Whether the version is `Version`.
unfoldable pub is_version : ℤ → Bool
is_version (pos n) = n == 1
is_version (negsuc n) = false

-- validate, the first error found.
unfoldable pub validate : Envelope → Option EnvelopeError
unfolding is_version
validate e =
    if not (is_version e.v)
    then some (unsupported_version e.v)
    else if text_eq e.type []
    then some missing_type
    else if text_eq e.id []
    then some missing_id
    else if text_eq e.from []
    then some missing_from
    else none

-- Unmarshal, over the decoder of JSON.
unfoldable pub unmarshal : (Text → Option Envelope) → Text → Result EnvelopeError Envelope
unfolding validate
unmarshal decode raw = elim (decode raw) [
  | none ↦ err not_json
  | some e ↦ elim (validate e) [ none ↦ ok e | some problem ↦ err problem ]
]

-- strings.HasSuffix
unfoldable pub has_suffix : Text → Text → Bool
has_suffix s p = has_prefix (reverse s) (reverse p)

-- The switch of MatchesRecipient on one token.
unfoldable pub token_matches : Text → Text → Text → Bool
unfolding has_suffix
token_matches nick agent_type token =
    if text_eq token (bytes "@all")
    then true
    else if text_eq token (bytes "@operators")
    then text_eq agent_type (bytes "operator")
    else if text_eq token (bytes "@orchestrators")
    then text_eq agent_type (bytes "orchestrator")
    else if text_eq token (bytes "@workers")
    then text_eq agent_type (bytes "worker")
    else if text_eq token (bytes "@observers")
    then text_eq agent_type (bytes "observer")
    else if has_prefix token (bytes "@")
    then has_suffix (trim_prefix token (bytes "@")) (bytes "-*")
      && has_prefix nick
          (take (length (trim_prefix token (bytes "@")) - 1) (trim_prefix token (bytes "@")))
    else text_eq token nick

unfoldable pub matches_any : Text → Text → List Text → Bool
unfolding token_matches
matches_any nick agent_type [] = false
matches_any nick agent_type (token ∷ tokens) =
    token_matches nick agent_type token || matches_any nick agent_type tokens

-- MatchesRecipient
unfoldable pub matches_recipient : Envelope → Text → Text → Bool
unfolding matches_any
matches_recipient env nick agent_type =
    if length env.to == 0 then true else matches_any nick agent_type env.to
