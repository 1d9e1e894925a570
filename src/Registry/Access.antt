-- ===== src/Registry/Access.antt =====
-- Rotation, revocation and removal: who keeps access, and what a revoked agent is refused.
use scuttlebot.Registry.Payload.{Crypto}
use scuttlebot.Registry.Model.{
  is_revoked, drop_agent, set_agent, save_one, change_password, find, Agent, RegistryError,
  Registry,
}
use scuttlebot.Registry.Model.{delete_one}
use scuttlebot.Registry.Ops.{touch, update_channels, Credentials, signed_payload, revoke}
use scuttlebot.Registry.Model.{Outside}
use scuttlebot.Registry.Ops.{delete}
use scuttlebot.Registry.Ops.{rotate}
use scuttlebot.Common.{
  text_eq, if◌then◌else◌, Bool-cases, inr, text_eq_iff, inl, text_eq_refl, List, Option-cases, ◌∷◌,
  ◌⊎◌, false, true, ◌≢◌, Text, ok, err, none, some, ◌≡◌, refl, arith,
}
use scuttlebot.Common.Dict
use scuttlebot.Common.Dict.{Dict, get-put, get-remove}
use scuttlebot.Registry.Register.{stored_ne, stored_calls, IsTaken, stored_lem}

pub agents-delete_one :
    (o : Outside) (nick : Text) (r : Registry) → (delete_one o nick r).agents ≡ r.agents
unfolding delete_one
agents-delete_one o nick r = ground arith

revoke_shape :
    (o : Outside) (nick : Text) (r : Registry)
    → (revoke o nick r).0 ≡ ok tt
    → (a : Agent) × (lockout : Text) × (Dict.get r.agents nick ≡ some a)
      × (a.revoked ≡ false)
      × (o.passphrase ≡ some lockout)
      × (o.on_change_password nick lockout ≡ none)
      × ((revoke o nick r).1
          ≡ save_one o
              (record a { revoked = true })
              (set_agent nick
                (record a { revoked = true })
                (record r { account_calls = change_password nick lockout ∷ r.account_calls })))
unfolding revoke find
revoke_shape o nick r h = elim (Option-cases (Dict.get r.agents nick)) [
  | inl e ↦ absurd (ground arith)
  | inr (a, e) ↦ elim (Option-cases o.passphrase) [
    | inl e' ↦ absurd (ground arith)
    | inr (p, e') ↦ (a, p, e, ground arith, e', ground arith, ground arith)
  ]
]

-- A revocation that goes through had an active agent and set its password to a freshly generated
-- one, which nobody is told. The agent stays, marked revoked, and no other agent changes.
pub revoke_ok :
    (o : Outside) (nick : Text) (r : Registry)
    → (revoke o nick r).0 ≡ ok tt
    → let r' = (revoke o nick r).1 in
      (a : Agent) × (lockout : Text) × (Dict.get r.agents nick ≡ some a)
      × (o.passphrase ≡ some lockout)
      × (r'.account_calls ≡ change_password nick lockout ∷ r.account_calls)
      × (Dict.get r'.agents nick ≡ some (record a { revoked = true }))
      × ((k : Text) → k ≢ nick → Dict.get r'.agents k ≡ Dict.get r.agents k)
revoke_ok o nick r h =
    let (a, p, e, active, e', accepted, shape) = revoke_shape o nick r h in
    let q = record r { account_calls = change_password nick p ∷ r.account_calls } in
    let b = record a { revoked = true } in
    (
      a,
      p,
      e,
      e',
      rw shape (stored_calls o nick b q),
      rw (shape, stored_lem o nick b q nick, text_eq_refl nick) refl,
      λ k ne. rw shape (stored_ne o nick b q r k refl ne),
    )

-- A revocation that fails leaves the agents, the table and the file as they were.
pub revoke_err :
    (o : Outside) (nick : Text) (r : Registry) {e : RegistryError}
    → (revoke o nick r).0 ≡ err e
    → let r' = (revoke o nick r).1 in (r'.agents ≡ r.agents) × (r'.db ≡ r.db) × (r'.file ≡ r.file)
unfolding revoke
revoke_err o nick r h = (ground arith, ground arith, ground arith)

abbrev pub IsRevoked : Registry → Text → Type 0
IsRevoked r nick = (a : Agent) × (Dict.get r.agents nick ≡ some a) × (a.revoked ≡ true)

-- A revoked agent gets no new passphrase and no payload, cannot change its channels or be revoked
-- again, and its heartbeats are ignored: each of these leaves the state as it was, and no account
-- is called.
pub revoked_is_refused :
    (c : Crypto) (o : Outside) (nick : Text) (channels : List Text) (r : Registry)
    → IsRevoked r nick
    → (rotate o nick r ≡ (err (is_revoked nick), r))
      × (signed_payload c o nick r ≡ (err (is_revoked nick), r))
      × (update_channels o nick channels r ≡ (err (is_revoked nick), r))
      × (revoke o nick r ≡ (err (is_revoked nick), r))
      × (touch o nick r ≡ r)
unfolding rotate signed_payload update_channels revoke touch find
revoked_is_refused c o nick channels r (a, e, revoked) =
    (ground arith, ground arith, ground arith, ground arith, ground arith)

dropped_lem :
    (o : Outside) (nick : Text) (r : Registry) (k : Text)
    → Dict.get (delete_one o nick (drop_agent nick r)).agents k
      ≡ (if text_eq nick k then none else Dict.get r.agents k)
unfolding drop_agent
dropped_lem o nick r k = rw agents-delete_one (get-remove r.agents nick k)

dropped_calls :
    (o : Outside) (nick : Text) (r : Registry)
    → (delete_one o nick (drop_agent nick r)).account_calls ≡ r.account_calls
unfolding delete_one drop_agent
dropped_calls o nick r = ground arith

-- What a removal that went through did to the state before the agent was dropped from it.
delete_shape :
    (o : Outside) (nick : Text) (r : Registry)
    → (delete o nick r).0 ≡ ok tt
    → (q : Registry) × ((delete o nick r).1 ≡ delete_one o nick (drop_agent nick q))
      × (q.agents ≡ r.agents)
      × (IsRevoked r nick
          ⊎ ((lockout : Text) × (o.passphrase ≡ some lockout)
              × (o.on_change_password nick lockout ≡ none)
              × (q.account_calls ≡ change_password nick lockout ∷ r.account_calls)))
unfolding delete
delete_shape o nick r h = elim (Option-cases (Dict.get r.agents nick)) [
  | inl e ↦ absurd (ground arith)
  | inr (a, e) ↦ elim (Bool-cases a.revoked) [
    | inl revoked ↦ (r, ground arith, refl, inl (a, e, revoked))
    | inr active ↦ elim (Option-cases o.passphrase) [
      | inl e' ↦ absurd (ground arith)
      | inr (p, e') ↦ (
        record r { account_calls = change_password nick p ∷ r.account_calls },
        ground arith,
        refl,
        inr (p, e', ground arith, refl),
      )
    ]
  ]
]

-- A removal that goes through leaves no agent under the nick and changes no other. An agent that was
-- not revoked has first been locked out: the account server took a freshly generated password for it.
pub delete_ok :
    (o : Outside) (nick : Text) (r : Registry)
    → (delete o nick r).0 ≡ ok tt
    → let r' = (delete o nick r).1 in
      (Dict.get r'.agents nick ≡ none)
      × ((k : Text) → k ≢ nick → Dict.get r'.agents k ≡ Dict.get r.agents k)
      × (IsRevoked r nick
          ⊎ ((lockout : Text) × (o.passphrase ≡ some lockout)
              × (o.on_change_password nick lockout ≡ none)
              × (r'.account_calls ≡ change_password nick lockout ∷ r.account_calls)))
delete_ok o nick r h =
    let (q, shape, same, how) = delete_shape o nick r h in
    (
      rw (shape, dropped_lem o nick q nick, text_eq_refl nick) refl,
      λ k ne. rw (shape, dropped_lem o nick q k) (ground (arith, text_eq_iff nick k)),
      rw (shape, dropped_calls o nick q) how,
    )

-- A removal that fails keeps the agent and everything that is stored.
pub delete_err :
    (o : Outside) (nick : Text) (r : Registry) {e : RegistryError}
    → (delete o nick r).0 ≡ err e
    → let r' = (delete o nick r).1 in (r'.agents ≡ r.agents) × (r'.db ≡ r.db) × (r'.file ≡ r.file)
unfolding delete
delete_err o nick r h = (ground arith, ground arith, ground arith)

-- A rotation that goes through returns the generated passphrase, after the account server took it
-- for the nick of an active agent; the agents stay as they were.
pub rotate_ok :
    (o : Outside) (nick : Text) (r : Registry) {cred : Credentials}
    → (rotate o nick r).0 ≡ ok cred
    → let r' = (rotate o nick r).1 in
      IsTaken r nick
      × (cred.nick ≡ nick)
      × (r'.account_calls ≡ change_password nick cred.passphrase ∷ r.account_calls)
      × (o.on_change_password nick cred.passphrase ≡ none)
      × (r'.agents ≡ r.agents)
unfolding rotate find
rotate_ok o nick r {cred} h = elim (Option-cases (Dict.get r.agents nick)) [
  | inl e ↦ absurd (ground arith)
  | inr (a, e) ↦ ((a, e, ground arith), ground arith, ground arith, ground arith, ground arith)
]
