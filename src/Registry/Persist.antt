-- ===== src/Registry/Persist.antt =====
-- Every history keeps the registry consistent with its table of agents.
use scuttlebot.Registry.Reaping.{reap_disabled}
use scuttlebot.Registry.Register.{agents-provision}
use scuttlebot.Engagement.{EngagementConfig}
use scuttlebot.Registry.Ops.{new_agent, provision, register, adopt, update_channels}
use scuttlebot.Registry.Ops.{revoke}
use scuttlebot.Registry.Ops.{update}
use scuttlebot.Registry.Ops.{touch}
use scuttlebot.Registry.Ops.{delete}
use scuttlebot.Registry.Sweep.{set_online_timeout, refresh_online, reap, is_stale, list}
use scuttlebot.Registry.Sweep.{reap_one}
use scuttlebot.Registry.Payload.{Crypto}
use scuttlebot.Registry.Sweep.{reap_loop}
use scuttlebot.Registry.Model.{save, Registry, Agent, Outside}
use scuttlebot.Common.{
  pos, negsuc, ℤ, ℕ, zero, suc, ◌+◌, ◌-◌, Text, List, [], ◌∷◌, true, ◌≡◌, ◌⊎◌, inl, inr, refl,
  arith, Option-cases, Bool-cases, All,
}
use scuttlebot.Common.Dict
use scuttlebot.Common.Dict.{Dict}
use scuttlebot.Registry.Mirror.{
  durable_of, map_IsConsistent, removed_IsConsistent, IsConsistent, same_IsConsistent,
  store_IsConsistent, drop_IsConsistent, save-IsConsistent, quiet_IsConsistent,
}
use scuttlebot.Registry.Steps.{
  sets_timeout, reaps, updates_channels, touches, rotates, adopts, deletes, updates, revokes, Call,
  step, run, registers,
}
use scuttlebot.Registry.Outcomes.{
  rotate_cases, db-provision, pass_or, touch_cases, update_channels_cases, adopt_cases,
  revoke_cases, register_cases, revoke_absent, update_cases, delete_cases, update_channels_absent,
  touch_absent, called,
}

module _ (o : Outside) (w : o.db_writes ≡ true) where
  register-IsConsistent :
      (c : Crypto) (nick ty : Text) (cfg : EngagementConfig) (r : Registry)
      → IsConsistent r
      → IsConsistent (register c o nick ty cfg r).1
  register-IsConsistent c nick ty cfg r v = elim (register_cases c o nick ty cfg r) [
    | inl (e, e') ↦ same_IsConsistent r _ e e' v
    | inr e ↦
        let q = (provision o nick (pass_or o.passphrase) r).1 in
        rw e (
          store_IsConsistent o nick _ q w (unfold new_agent in refl)
            (same_IsConsistent r q (agents-provision o nick _ r) (db-provision o nick _ r) v))
  ]

  adopt-IsConsistent :
      (c : Crypto) (nick ty : Text) (cfg : EngagementConfig) (r : Registry)
      → IsConsistent r
      → IsConsistent (adopt c o nick ty cfg r).1
  adopt-IsConsistent c nick ty cfg r v = elim (adopt_cases c o nick ty cfg r) [
    | inl (e, e') ↦ same_IsConsistent r _ e e' v
    | inr e ↦ rw e (store_IsConsistent o nick _ r w (unfold new_agent in refl) v)
  ]

  called-IsConsistent :
      (nick : Text) (r : Registry) → IsConsistent r → IsConsistent (called o nick r)
  unfolding called
  called-IsConsistent nick r v = same_IsConsistent r _ refl refl v

  revoke-IsConsistent :
      (nick : Text) (r : Registry) → IsConsistent r → IsConsistent (revoke o nick r).1
  revoke-IsConsistent nick r v = elim (Option-cases (Dict.get r.agents nick)) [
    | inl e ↦ let (e', e'') = revoke_absent o nick r e in same_IsConsistent r _ e' e'' v
    | inr (a, e) ↦ elim (revoke_cases o nick r a e) [
      | inl (e', e'') ↦ same_IsConsistent r _ e' e'' v
      | inr e' ↦
          rw e' (store_IsConsistent o nick _ _ w (v.keyed nick a e) (called-IsConsistent nick r v))
    ]
  ]

  update_channels-IsConsistent :
      (nick : Text) (channels : List Text) (r : Registry)
      → IsConsistent r
      → IsConsistent (update_channels o nick channels r).1
  update_channels-IsConsistent nick channels r v = elim (Option-cases (Dict.get r.agents nick)) [
    | inl e ↦
        let (e', e'') = update_channels_absent o nick channels r e in same_IsConsistent r _ e' e'' v
    | inr (a, e) ↦ elim (update_channels_cases o nick channels r a e) [
      | inl (e', e'') ↦ same_IsConsistent r _ e' e'' v
      | inr e' ↦ rw e' (store_IsConsistent o nick _ r w (v.keyed nick a e) v)
    ]
  ]

  delete-IsConsistent :
      (nick : Text) (r : Registry) → IsConsistent r → IsConsistent (delete o nick r).1
  delete-IsConsistent nick r v = elim (delete_cases o nick r) [
    | inl (e, e') ↦ same_IsConsistent r _ e e' v
    | inr (inl e) ↦ rw e (drop_IsConsistent o nick r w v)
    | inr (inr e) ↦ rw e (drop_IsConsistent o nick _ w (called-IsConsistent nick r v))
  ]

  update-IsConsistent : (a : Agent) (r : Registry) → IsConsistent r → IsConsistent (update o a r).1
  update-IsConsistent a r v = elim (update_cases o a r) [
    | inl (e, e') ↦ same_IsConsistent r _ e e' v
    | inr e ↦ rw e (store_IsConsistent o a.nick a r w refl v)
  ]

  touch-IsConsistent : (nick : Text) (r : Registry) → IsConsistent r → IsConsistent (touch o nick r)
  touch-IsConsistent nick r v = elim (Option-cases (Dict.get r.agents nick)) [
    | inl e ↦ rw (touch_absent o nick r e) v
    | inr (a, e) ↦ elim (touch_cases o nick r a e) [
      | inl (e', e'') ↦ same_IsConsistent r _ e' e'' v
      | inr (inl e') ↦ rw e' (quiet_IsConsistent nick a _ r e (unfold durable_of in refl) v)
      | inr (inr e') ↦ rw e' (store_IsConsistent o nick _ r w (v.keyed nick a e) v)
    ]
  ]

  reap_one-IsConsistent :
      (nick : Text) (r : Registry) → IsConsistent r → IsConsistent (reap_one o nick r)
  unfolding reap_one
  reap_one-IsConsistent nick r v = removed_IsConsistent nick r _ (ground arith) (ground arith) v

  reap_loop-IsConsistent :
      (cutoff : ℕ) (d : Dict Agent) (n : ℕ) (r : Registry)
      → IsConsistent r
      → IsConsistent (reap_loop o cutoff d n r).1
  unfolding reap_loop
  reap_loop-IsConsistent cutoff [] n r v = v
  reap_loop-IsConsistent cutoff ((nick, a) ∷ d) n r v = elim (Bool-cases (is_stale cutoff a)) [
    | inl e ↦
        rw (e, reap_loop)
          (reap_loop-IsConsistent cutoff d (n + 1) _ (reap_one-IsConsistent nick r v))
    | inr e ↦ rw (e, reap_loop) (reap_loop-IsConsistent cutoff d n r v)
  ]

  reap_cases :
      (n : ℕ) (r : Registry)
      → let q = (reap_loop o (o.now - suc n) r.agents 0 r).1 in
        ((reap o (pos (suc n)) r).1 ≡ q) ⊎ ((reap o (pos (suc n)) r).1 ≡ save o q)
  unfolding reap
  reap_cases n r = ground arith

  reap-IsConsistent : (age : ℤ) (r : Registry) → IsConsistent r → IsConsistent (reap o age r).1
  reap-IsConsistent (negsuc n) r v = rw (reap_disabled o (negsuc n) r refl) v
  reap-IsConsistent (pos zero) r v = rw (reap_disabled o (pos zero) r refl) v
  reap-IsConsistent (pos (suc n)) r v =
      let swept = reap_loop-IsConsistent (o.now - suc n) r.agents 0 r v in
      elim (reap_cases n r) [ inl e ↦ rw e swept | inr e ↦ rw e (save-IsConsistent o _ swept) ]

  list-IsConsistent : (r : Registry) → IsConsistent r → IsConsistent (list o.now r).1
  unfolding list
  list-IsConsistent r v = map_IsConsistent _ r (λ a. unfold durable_of refresh_online in refl) v

  -- Where the database takes its writes, every method keeps the registry consistent with it.
  pub step-IsConsistent :
      (c : Crypto) (call : Call) (r : Registry) → IsConsistent r → IsConsistent (step c o call r)
  unfolding step
  step-IsConsistent c (registers nick ty cfg) r v = register-IsConsistent c nick ty cfg r v
  step-IsConsistent c (adopts nick ty cfg) r v = adopt-IsConsistent c nick ty cfg r v
  step-IsConsistent c (rotates nick) r v =
      let (e, e') = rotate_cases o nick r in same_IsConsistent r _ e e' v
  step-IsConsistent c (revokes nick) r v = revoke-IsConsistent nick r v
  step-IsConsistent c (deletes nick) r v = delete-IsConsistent nick r v
  step-IsConsistent c (touches nick) r v = touch-IsConsistent nick r v
  step-IsConsistent c (updates a) r v = update-IsConsistent a r v
  step-IsConsistent c (updates_channels nick channels) r v =
      update_channels-IsConsistent nick channels r v
  step-IsConsistent c Call.lists r v = list-IsConsistent r v
  step-IsConsistent c (reaps age) r v = reap-IsConsistent age r v
  step-IsConsistent c (sets_timeout d) r v =
      same_IsConsistent r _ (unfold set_online_timeout in refl) (unfold set_online_timeout in refl)
        v

-- Every database write of the history goes through.
abbrev pub Writes : List (Outside × Call) → Type 0
Writes steps = All (λ s. s.0.db_writes ≡ true) steps

-- After any history, the writes of which all go through, a registry that was consistent with its
-- database is so still: no nick stands twice, agents stand under their own nicks, and the table has rows
-- for just these agents, each with the agent's type, team, configuration, revocation and the whole
-- seconds of its creation time.
pub run-IsConsistent :
    (c : Crypto) (steps : List (Outside × Call)) (r : Registry)
    → Writes steps
    → IsConsistent r
    → IsConsistent (run c steps r)
unfolding run
run-IsConsistent c [] r w v = v
run-IsConsistent c ((o, call) ∷ steps) r w v =
    run-IsConsistent c steps (step c o call r) w.1 (step-IsConsistent o w.0 c call r v)
