-- ===== src/Protocol/Recipients.antt =====
-- Which envelopes are accepted, and which agents they reach.
use scuttlebot.Common.{
  contains_text_iff, Member, pos, has_prefix, contains_text, ℕ, Text, bytes, text_eq, text_eq_iff,
  List, [], ◌∷◌, true, false, Option, none, some, ok, ◌≡◌, ◌≢◌, ◌↔◌, inl, inr, refl, sym, arith,
  Option-cases, ◌==◌, length, All,
}
use scuttlebot.Protocol.{
  Envelope, unmarshal, validate, is_version, matches_recipient, matches_any, token_matches,
}

validate_iff :
    (e : Envelope)
    → (validate e ≡ none) ↔ ((e.v ≡ pos 1) × (e.type ≢ []) × (e.id ≢ []) × (e.from ≢ []))
unfolding validate is_version
validate_iff e = ground (arith, text_eq_iff e.type [], text_eq_iff e.id [], text_eq_iff e.from [])

-- Text is accepted as an envelope exactly if it decodes to one of version 1 whose type, id and sender
-- are not empty, and it is then returned as decoded.
pub unmarshal_iff :
    (decode : Text → Option Envelope) (raw : Text) (e : Envelope)
    → (unmarshal decode raw ≡ ok e)
      ↔ ((decode raw ≡ some e) × (e.v ≡ pos 1) × (e.type ≢ []) × (e.id ≢ []) × (e.from ≢ []))
unfolding unmarshal
unmarshal_iff decode raw e = elim (Option-cases (decode raw)) [
  | inl absent ↦ (λ h. ground arith, λ h. ground arith)
  | inr (d, found) ↦ (
    λ h. (elim (Option-cases (validate d)) [
      | inl fine ↦
          let same : d ≡ e = ground arith in
          let (v, t, i, f) = (validate_iff e).0 (rw (sym same) fine) in (ground arith, v, t, i, f)
      | inr (p, bad) ↦ ground arith
    ]),
    λ (h, v, t, i, f).
        let fine : validate e ≡ none = (validate_iff e).1 (v, t, i, f) in
        rw (unmarshal, h, fine) refl,
  )
]

plain_token :
    (c : ℕ) (s token : Text) → has_prefix token (c ∷ []) ≡ false → text_eq token (c ∷ s) ≡ false
unfolding has_prefix text_eq
plain_token c s [] h = refl
plain_token c s (d ∷ token) h = ground arith

plain_token_matches :
    (nick agent_type token : Text)
    → has_prefix token (bytes "@") ≡ false
    → token_matches nick agent_type token ≡ text_eq token nick
unfolding token_matches
plain_token_matches nick agent_type token h = ground (
  arith,
  plain_token 64 (bytes "all") token,
  plain_token 64 (bytes "operators") token,
  plain_token 64 (bytes "orchestrators") token,
  plain_token 64 (bytes "workers") token,
  plain_token 64 (bytes "observers") token,
)

matches_any_names :
    (nick agent_type : Text) (tokens : List Text)
    → All (λ t. has_prefix t (bytes "@") ≡ false) tokens
    → matches_any nick agent_type tokens ≡ contains_text tokens nick
unfolding matches_any contains_text
matches_any_names nick agent_type [] h = refl
matches_any_names nick agent_type (t ∷ tokens) (plain, h) =
    rw (plain_token_matches nick agent_type t plain, matches_any_names nick agent_type tokens h)
      refl

to_someone : (xs : List Text) → xs ≢ [] → (length xs == 0) ≡ false
to_someone [] h = ground arith
to_someone (x ∷ xs) h = ground arith

-- An envelope whose recipients are given by name, none of them a token with "@", reaches exactly the
-- agents that are named, whatever their type.
pub matches_recipient_names :
    (env : Envelope) (nick agent_type : Text)
    → env.to ≢ []
    → All (λ t. has_prefix t (bytes "@") ≡ false) env.to
    → (matches_recipient env nick agent_type ≡ true) ↔ Member nick env.to
unfolding matches_recipient
matches_recipient_names env nick agent_type some_to names =
    rw (to_someone env.to some_to, matches_any_names nick agent_type env.to names)
      (contains_text_iff env.to nick)
