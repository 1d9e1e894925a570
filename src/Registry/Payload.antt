-- ===== src/Registry/Payload.antt =====
-- The signed rules of engagement: `signPayload` and `VerifyPayload`. The JSON encoder and the hex
-- HMAC-SHA256 are parameters.
use scuttlebot.Common.{
  ℕ, Text, text_eq, text_eq_iff, Option, none, some, Result, ok, err, if◌then◌else◌, ◌≡◌, ◌↔◌,
  arith, sym, ◌∙◌, Option-cases, inl, inr,
}
use scuttlebot.Engagement.{EngagementConfig}
use scuttlebot.Registry.Model.{Agent, RegistryError, sign_failed}

pub record EngagementPayload : Type 0 where
  pub version : ℕ
  pub nick : Text
  pub agent_type : Text
  pub team : Text
  pub config : EngagementConfig
  pub issued_at : ℕ

pub record SignedPayload : Type 0 where
  pub payload : EngagementPayload
  pub signature : Text

-- encoding/json and crypto/hmac: `none` is an encoding error, `mac key data` the hex digest.
pub record Crypto : Type 0 where
  pub marshal : EngagementPayload → Option Text
  pub mac : Text → Text → Text

pub data VerifyError : Type 0 where
  not_encoded bad_signature : VerifyError

unfoldable pub payload_of : ℕ → Agent → EngagementPayload
payload_of now a = record {
  version = 1;
  nick = a.nick;
  agent_type = a.agent_type;
  team = a.team;
  config = a.config;
  issued_at = now;
}

-- signPayload
unfoldable pub sign_payload : Crypto → Text → ℕ → Agent → Result RegistryError SignedPayload
unfolding payload_of
sign_payload c key now a = elim (c.marshal (payload_of now a)) [
  | none ↦ err sign_failed
  | some encoded ↦ ok (record { payload = payload_of now a; signature = c.mac key encoded })
]

-- VerifyPayload
unfoldable pub verify_payload : Crypto → SignedPayload → Text → Result VerifyError (Unit {0})
verify_payload c sp key = elim (c.marshal sp.payload) [
  | none ↦ err not_encoded
  | some encoded ↦ if text_eq sp.signature (c.mac key encoded) then ok tt else err bad_signature
]

-- A payload verifies exactly when it is encoded and carries the digest of its encoding.
pub verify_payload_iff :
    (c : Crypto) (sp : SignedPayload) (key : Text)
    → (verify_payload c sp key ≡ ok tt)
      ↔ ((t : Text) × (c.marshal sp.payload ≡ some t) × (sp.signature ≡ c.mac key t))
unfolding verify_payload
verify_payload_iff c sp key = elim (Option-cases (c.marshal sp.payload)) [
  | inl e ↦ (ground arith, ground arith)
  | inr (t, e) ↦ (
    λ v. (t, e, ground (arith, text_eq_iff sp.signature (c.mac key t))),
    λ (t', e', s). ground (arith, text_eq_iff sp.signature (c.mac key t)),
  )
]

-- What signing returns is encoded, carries the digest under the key, and tells of the agent.
pub sign_payload_lem :
    (c : Crypto) (key : Text) (now : ℕ) (a : Agent) {sp : SignedPayload}
    → sign_payload c key now a ≡ ok sp
    → (t : Text) × (c.marshal sp.payload ≡ some t)
      × (sp.signature ≡ c.mac key t)
      × (sp.payload ≡ payload_of now a)
unfolding sign_payload
sign_payload_lem c key now a h = elim (Option-cases (c.marshal (payload_of now a))) [
  | inl e ↦ absurd (ground arith)
  | inr (t, e) ↦ (t, ground arith, ground arith, ground arith)
]

-- What signing returns verifies under the same key.
pub verify_payload-sign_payload :
    (c : Crypto) (key : Text) (now : ℕ) (a : Agent) (sp : SignedPayload)
    → sign_payload c key now a ≡ ok sp
    → verify_payload c sp key ≡ ok tt
verify_payload-sign_payload c key now a sp h =
    let (t, e, s, _) = sign_payload_lem c key now a h in (verify_payload_iff c sp key).1 (t, e, s)

-- What signing returns, with any signature put in place of its own, verifies under the same key just
-- where the signature is its own.
pub verify_payload-signed :
    (c : Crypto) (key : Text) (now : ℕ) (a : Agent) (sp : SignedPayload) (signature : Text)
    → sign_payload c key now a ≡ ok sp
    → (verify_payload c (record sp { signature = signature }) key ≡ ok tt)
      ↔ (signature ≡ sp.signature)
verify_payload-signed c key now a sp signature h =
    let (t, e, s, _) = sign_payload_lem c key now a h in
    let both = verify_payload_iff c (record sp { signature = signature }) key in
    (λ v. let (t', e', s') = both.0 v in ground arith, λ same. both.1 (t, e, same ∙ s))

-- Where two encodings and two digests are equal only for equal inputs, two payloads that verify
-- under one key with the same signature are equal.
pub verify_payload_unique :
    (c : Crypto) (key : Text) (sp sp' : SignedPayload)
    → ((p q : EngagementPayload) (t : Text) → c.marshal p ≡ some t → c.marshal q ≡ some t → p ≡ q)
    → ((s t : Text) → c.mac key s ≡ c.mac key t → s ≡ t)
    → verify_payload c sp key ≡ ok tt
    → verify_payload c sp' key ≡ ok tt
    → sp'.signature ≡ sp.signature
    → sp'.payload ≡ sp.payload
verify_payload_unique c key sp sp' marshal_injective mac_injective v v' same =
    let (t, e, s) = (verify_payload_iff c sp key).0 v in
    let (t', e', s') = (verify_payload_iff c sp' key).0 v' in
    marshal_injective sp'.payload sp.payload t' e' (rw (mac_injective t' t (sym s' ∙ same ∙ s)) e)
