-- ===== src/Registry/Register.antt =====
-- What `Register` and `Adopt` do: on success, on each failure, and on a second call.
use scuttlebot.Engagement.Valid.{IsWellFormed, validate_iff}
use scuttlebot.Common.{
  Bool-cases, Option-cases, bytes, contains, ◌∷◌, inr, inl, none, some, true, is_err, ◌⊎◌, ◌∙◌,
  refl, text_eq_iff, text_eq, text_eq_refl, if◌then◌else◌, Result, Text, false, some, ok, err, ◌≡◌,
  ◌≢◌, arith,
}
use scuttlebot.Common.Dict
use scuttlebot.Common.Dict.{Dict, get-put, get-put_self, get-put_ne}
use scuttlebot.Engagement.{EngagementConfig, ConfigError, validate}
use scuttlebot.Registry.Model.{
  change_password, register_account, sign_failed, RegistryError, set_agent, Agent, Registry,
  Outside, save_one,
}
use scuttlebot.Registry.Payload.{
  verify_payload-sign_payload, sign_payload_lem, payload_of, sign_payload, Crypto, SignedPayload,
  verify_payload,
}
use scuttlebot.Registry.Ops.{adopt, new_agent, Credentials, register, provision}

-- The nick belongs to an agent that is not revoked.
abbrev pub IsTaken : Registry → Text → Type 0
IsTaken r nick = (a : Agent) × (Dict.get r.agents nick ≡ some a) × (a.revoked ≡ false)

not_valid :
    (cfg : EngagementConfig) → ¬ IsWellFormed cfg → (e : ConfigError) × (validate cfg ≡ err e)
not_valid cfg invalid = by_result (validate cfg) refl
  where
    by_result :
        (v : Result ConfigError (Unit {0}))
        → validate cfg ≡ v
        → (e : ConfigError) × (validate cfg ≡ err e)
    by_result (ok _) h = absurd (invalid ((validate_iff cfg).0 h))
    by_result (err e) h = (e, h)

-- What a write leaves alone.
pub agents-save_one : (o : Outside) (a : Agent) (r : Registry) → (save_one o a r).agents ≡ r.agents
unfolding save_one
agents-save_one o a r = ground arith

pub signing_key-save_one :
    (o : Outside) (a : Agent) (r : Registry) → (save_one o a r).signing_key ≡ r.signing_key
unfolding save_one
signing_key-save_one o a r = ground arith

pub agents-provision :
    (o : Outside) (nick pass : Text) (r : Registry) → (provision o nick pass r).1.agents ≡ r.agents
unfolding provision
agents-provision o nick pass r = ground arith

signing_key-provision :
    (o : Outside) (nick pass : Text) (r : Registry)
    → (provision o nick pass r).1.signing_key ≡ r.signing_key
unfolding provision
signing_key-provision o nick pass r = ground arith

register_shape :
    (c : Crypto) (o : Outside) (nick ty : Text) (cfg : EngagementConfig) (r : Registry)
    {cred : Credentials} {sp : SignedPayload}
    → (register c o nick ty cfg r).0 ≡ ok (cred, sp)
    → let a = new_agent o.now nick ty cfg in
      let q = (provision o nick cred.passphrase r).1 in
      ((register c o nick ty cfg r).1 ≡ save_one o a (set_agent nick a q))
      × (sign_payload c (save_one o a (set_agent nick a q)).signing_key o.signed_at a ≡ ok sp)
unfolding register
register_shape c o nick ty cfg r h = (ground arith, ground arith)

pub stored_lem :
    (o : Outside) (nick : Text) (a : Agent) (r : Registry) (k : Text)
    → Dict.get (save_one o a (set_agent nick a r)).agents k
      ≡ (if text_eq nick k then some a else Dict.get r.agents k)
unfolding set_agent
stored_lem o nick a r k = rw agents-save_one (get-put r.agents nick k a)

pub stored_key :
    (o : Outside) (nick : Text) (a : Agent) (r : Registry)
    → (save_one o a (set_agent nick a r)).signing_key ≡ r.signing_key
unfolding set_agent
stored_key o nick a r = rw signing_key-save_one refl

pub stored_ne :
    (o : Outside) (nick : Text) (a : Agent) (q r : Registry) (k : Text)
    → q.agents ≡ r.agents
    → k ≢ nick
    → Dict.get (save_one o a (set_agent nick a q)).agents k ≡ Dict.get r.agents k
stored_ne o nick a q r k same ne = rw (stored_lem o nick a q k) (ground (arith, text_eq_iff nick k))

-- A registration that goes through had a valid configuration and a nick that no active agent holds.
-- It returns the generated passphrase for the nick, stores the new agent under it and changes no other
-- agent, and its payload verifies under the signing key and tells of the new agent.
pub register_ok :
    (c : Crypto) (o : Outside) (nick ty : Text) (cfg : EngagementConfig) (r : Registry)
    {cred : Credentials} {sp : SignedPayload}
    → (register c o nick ty cfg r).0 ≡ ok (cred, sp)
    → let r' = (register c o nick ty cfg r).1 in
      let a = new_agent o.now nick ty cfg in
      IsWellFormed cfg
      × ¬ IsTaken r nick
      × (cred.nick ≡ nick)
      × (o.passphrase ≡ some cred.passphrase)
      × (Dict.get r'.agents nick ≡ some a)
      × ((k : Text) → k ≢ nick → Dict.get r'.agents k ≡ Dict.get r.agents k)
      × (verify_payload c sp r.signing_key ≡ ok tt)
      × (sp.payload ≡ payload_of o.signed_at a)
register_ok c o nick ty cfg r {cred} {sp} h =
    let a = new_agent o.now nick ty cfg in
    let q = (provision o nick cred.passphrase r).1 in
    let (shape, signed) = register_shape c o nick ty cfg r h in
    let same = agents-provision o nick cred.passphrase r in
    let (t, e, s, p) = sign_payload_lem c _ o.signed_at a signed in
    let key = stored_key o nick a q ∙ signing_key-provision o nick cred.passphrase r in
    (
      (validate_iff cfg).0 (unfold register in ground arith),
      unfold register in ground arith,
      unfold register in ground arith,
      unfold register in ground arith,
      rw (shape, stored_lem o nick a q nick, text_eq_refl nick) refl,
      λ k ne. rw shape (stored_ne o nick a q r k same ne),
      rw key at (verify_payload-sign_payload c _ o.signed_at a sp signed),
      p,
    )

-- A registration that fails otherwise than in signing leaves the agents, the table and the file as
-- they were.
pub register_err :
    (c : Crypto) (o : Outside) (nick ty : Text) (cfg : EngagementConfig) (r : Registry)
    {e : RegistryError}
    → (register c o nick ty cfg r).0 ≡ err e
    → e ≢ sign_failed
    → let r' = (register c o nick ty cfg r).1 in
      (r'.agents ≡ r.agents) × (r'.db ≡ r.db) × (r'.file ≡ r.file)
unfolding register sign_payload
register_err c o nick ty cfg r h ne = (ground arith, ground arith, ground arith)

-- A configuration that is not valid, or a nick that an active agent holds, is refused before anything
-- is done: no account is touched, nothing is written, and the state is as it was.
pub register_refused :
    (c : Crypto) (o : Outside) (nick ty : Text) (cfg : EngagementConfig) (r : Registry)
    → (¬ IsWellFormed cfg) ⊎ IsTaken r nick
    → ((register c o nick ty cfg r).1 ≡ r) × (is_err (register c o nick ty cfg r).0 ≡ true)
register_refused c o nick ty cfg r (inl invalid) =
    let rejected : (e : ConfigError) × (validate cfg ≡ err e) = not_valid cfg invalid in
    unfold register in (ground arith, ground arith)
register_refused c o nick ty cfg r (inr (a, e, active)) =
    unfold register in (ground arith, ground arith)

free_cases :
    (r : Registry) (nick : Text)
    → ¬ IsTaken r nick
    → (Dict.get r.agents nick ≡ none)
      ⊎ ((a : Agent) × (Dict.get r.agents nick ≡ some a) × (a.revoked ≡ true))
free_cases r nick free = elim (Option-cases (Dict.get r.agents nick)) [
  | inl e ↦ inl e
  | inr (a, e) ↦ elim (Bool-cases a.revoked) [
    | inl revoked ↦ inr (a, e, revoked)
    | inr active ↦ absurd (free (a, e, active))
  ]
]

pub stored_calls :
    (o : Outside) (nick : Text) (a : Agent) (r : Registry)
    → (save_one o a (set_agent nick a r)).account_calls ≡ r.account_calls
unfolding set_agent save_one
stored_calls o nick a r = ground arith

provision_calls :
    (o : Outside) (nick pass : Text) (r : Registry)
    → (provision o nick pass r).1.account_calls ≡ (elim (o.on_register_account nick pass) [
      | none ↦ register_account nick pass ∷ r.account_calls
      | some answer ↦
          if contains answer (bytes "ACCOUNT_EXISTS")
          then change_password nick pass ∷ register_account nick pass ∷ r.account_calls
          else register_account nick pass ∷ r.account_calls
    ])
unfolding provision
provision_calls o nick pass r = ground arith

-- Once the checks are passed, all that calls accounts is `provision`.
register-provision :
    (c : Crypto) (o : Outside) (nick ty : Text) (cfg : EngagementConfig) (r : Registry)
    {pass : Text}
    → o.passphrase ≡ some pass
    → validate cfg ≡ ok tt
    → (Dict.get r.agents nick ≡ none)
      ⊎ ((a : Agent) × (Dict.get r.agents nick ≡ some a) × (a.revoked ≡ true))
    → (register c o nick ty cfg r).1.account_calls ≡ (provision o nick pass r).1.account_calls
unfolding register
register-provision c o nick ty cfg r {pass} h v (inl e) =
    let q = (provision o nick pass r).1 in
    ground (arith, stored_calls o nick (new_agent o.now nick ty cfg) q)
register-provision c o nick ty cfg r {pass} h v (inr (a, e, revoked)) =
    let q = (provision o nick pass r).1 in
    ground (arith, stored_calls o nick (new_agent o.now nick ty cfg) q)

-- For a valid configuration and a free nick, a generated passphrase is offered to the account server
-- as a new account and, where the server answers that the account exists, set as its password.
pub register_calls :
    (c : Crypto) (o : Outside) (nick ty : Text) (cfg : EngagementConfig) (r : Registry)
    {pass : Text}
    → o.passphrase ≡ some pass
    → IsWellFormed cfg
    → ¬ IsTaken r nick
    → (register c o nick ty cfg r).1.account_calls ≡ (elim (o.on_register_account nick pass) [
      | none ↦ register_account nick pass ∷ r.account_calls
      | some answer ↦
          if contains answer (bytes "ACCOUNT_EXISTS")
          then change_password nick pass ∷ register_account nick pass ∷ r.account_calls
          else register_account nick pass ∷ r.account_calls
    ])
register_calls c o nick ty cfg r {pass} h w free =
    register-provision c o nick ty cfg r h ((validate_iff cfg).1 w) (free_cases r nick free)
    ∙ provision_calls o nick pass r

adopt_shape :
    (c : Crypto) (o : Outside) (nick ty : Text) (cfg : EngagementConfig) (r : Registry)
    {sp : SignedPayload}
    → (adopt c o nick ty cfg r).0 ≡ ok sp
    → let a = new_agent o.now nick ty cfg in
      ((adopt c o nick ty cfg r).1 ≡ save_one o a (set_agent nick a r))
      × (sign_payload c (save_one o a (set_agent nick a r)).signing_key o.signed_at a ≡ ok sp)
unfolding adopt
adopt_shape c o nick ty cfg r h = (ground arith, ground arith)

-- An adoption that goes through had a valid configuration and a nick that no active agent holds. It
-- stores the new agent and changes no other agent, its payload verifies and tells of the agent, and
-- the account server is not called.
pub adopt_ok :
    (c : Crypto) (o : Outside) (nick ty : Text) (cfg : EngagementConfig) (r : Registry)
    {sp : SignedPayload}
    → (adopt c o nick ty cfg r).0 ≡ ok sp
    → let r' = (adopt c o nick ty cfg r).1 in
      let a = new_agent o.now nick ty cfg in
      IsWellFormed cfg
      × ¬ IsTaken r nick
      × (Dict.get r'.agents nick ≡ some a)
      × ((k : Text) → k ≢ nick → Dict.get r'.agents k ≡ Dict.get r.agents k)
      × (verify_payload c sp r.signing_key ≡ ok tt)
      × (sp.payload ≡ payload_of o.signed_at a)
      × (r'.account_calls ≡ r.account_calls)
adopt_ok c o nick ty cfg r {sp} h =
    let a = new_agent o.now nick ty cfg in
    let (shape, signed) = adopt_shape c o nick ty cfg r h in
    let (t, e, s, p) = sign_payload_lem c _ o.signed_at a signed in
    (
      (validate_iff cfg).0 (unfold adopt in ground arith),
      unfold adopt in ground arith,
      rw (shape, stored_lem o nick a r nick, text_eq_refl nick) refl,
      λ k ne. rw shape (stored_ne o nick a r r k refl ne),
      rw (stored_key o nick a r) at (verify_payload-sign_payload c _ o.signed_at a sp signed),
      p,
      rw shape (stored_calls o nick a r),
    )
