-- ===== src/Registry/Reaping.antt =====
-- Which agents `Reap` removes, and how that depends on the last `List`.
use scuttlebot.Common.{
  negsuc, positive?, ℤ, ℕ, zero, suc, ◌+◌, ◌-◌, ◌≤◌, ◌<◌, Text, text_eq, text_eq_iff, [], ◌∷◌, Bool,
  true, false, ◌&&◌, ◌||◌, Option, none, some, ◌≡◌, inl, inr, refl, ap, ◌∙◌, arith, Bool-cases,
  if◌then◌else◌, ltb, count,
}
use scuttlebot.Common.Dict
use scuttlebot.Common.Dict.{get-map_values, map_values-IsMap, map_option, Dict}
use scuttlebot.Common.Dict.{get-remove, IsMap, Dict}
use scuttlebot.Registry.Sweep.{
  reference_time, get_online_timeout, refresh_online, list, is_stale, reap_loop,
}
use scuttlebot.Common.{pos}
use scuttlebot.Registry.Sweep.{reap_one}
use scuttlebot.Registry.Sweep.{reap}
use mathlib.Core.Path.{fun_ext}
use scuttlebot.Registry.Model.{values, Agent, Outside, save, Registry}

-- What is left of an agent by a sweep with the cutoff.
abbrev pub unless_stale : ℕ → Option Agent → Option Agent
unless_stale cutoff none = none
unless_stale cutoff (some a) = if is_stale cutoff a then none else some a

-- Some entry under the key is stale.
abbrev hit : ℕ → Dict Agent → Text → Bool
hit cutoff [] k = false
hit cutoff ((j, a) ∷ d) k = (text_eq j k && is_stale cutoff a) || hit cutoff d k

agents-reap_one :
    (o : Outside) (nick : Text) (r : Registry) (k : Text)
    → Dict.get (reap_one o nick r).agents k ≡ (if text_eq nick k then none else Dict.get r.agents k)
unfolding reap_one
agents-reap_one o nick r k = ground (arith, get-remove r.agents nick k)

agents-reap_loop :
    (o : Outside) (cutoff : ℕ) (d : Dict Agent) (n : ℕ) (r : Registry) (k : Text)
    → Dict.get (reap_loop o cutoff d n r).1.agents k
      ≡ (if hit cutoff d k then none else Dict.get r.agents k)
unfolding reap_loop
agents-reap_loop o cutoff [] n r k = refl
agents-reap_loop o cutoff ((j, a) ∷ d) n r k = elim (Bool-cases (is_stale cutoff a)) [
  | inl stale ↦ rw stale (
      ground
        (arith, agents-reap_loop o cutoff d (n + 1) (reap_one o j r) k, agents-reap_one o j r k))
  | inr fresh ↦ rw fresh (ground (arith, agents-reap_loop o cutoff d n r k))
]

hit_absent : (cutoff : ℕ) (d : Dict Agent) (k : Text) → Dict.get d k ≡ none → hit cutoff d k ≡ false
unfolding Dict.get
hit_absent cutoff [] k h = refl
hit_absent cutoff ((j, a) ∷ d) k h = ground (arith, hit_absent cutoff d k)

hit_lem :
    (cutoff : ℕ) (d : Dict Agent) (k : Text)
    → IsMap d
    → (if hit cutoff d k then none else Dict.get d k) ≡ unless_stale cutoff (Dict.get d k)
unfolding Dict.get
hit_lem cutoff [] k m = refl
hit_lem cutoff ((j, a) ∷ d) k m =
    ground (arith, hit_lem cutoff d k m.1, hit_absent cutoff d k, text_eq_iff j k, m.0)

count-reap_loop :
    (o : Outside) (cutoff : ℕ) (d : Dict Agent) (n : ℕ) (r : Registry)
    → (reap_loop o cutoff d n r).0 ≡ n + count (is_stale cutoff) (values d)
unfolding reap_loop
count-reap_loop o cutoff [] n r = omega arith
count-reap_loop o cutoff ((j, a) ∷ d) n r = elim (Bool-cases (is_stale cutoff a)) [
  | inl stale ↦ rw stale (ground (arith, count-reap_loop o cutoff d (n + 1) (reap_one o j r)))
  | inr fresh ↦ rw fresh (ground (arith, count-reap_loop o cutoff d n r))
]

pub agents-save : (o : Outside) (r : Registry) → (save o r).agents ≡ r.agents
unfolding save
agents-save o r = ground arith

-- The write after the loop leaves the agents alone.
reap_loop_only :
    (o : Outside) (age : ℕ) (r : Registry)
    → 0 < age
    → ((reap o (pos age) r).0 ≡ (reap_loop o (o.now - age) r.agents 0 r).0)
      × ((reap o (pos age) r).1.agents ≡ (reap_loop o (o.now - age) r.agents 0 r).1.agents)
unfolding reap
reap_loop_only o age r h =
    let r' = (reap_loop o (o.now - age) r.agents 0 r).1 in
    (ground (arith, agents-save o r'), ground (arith, agents-save o r'))

-- With a positive age, the agents left are those that are not stale at the cutoff, and the number
-- returned is that of the stale ones.
pub reap_lem :
    (o : Outside) (age : ℕ) (r : Registry)
    → 0 < age
    → IsMap r.agents
    → ((k : Text)
        → Dict.get (reap o (pos age) r).1.agents k
          ≡ unless_stale (o.now - age) (Dict.get r.agents k))
      × ((reap o (pos age) r).0 ≡ count (is_stale (o.now - age)) (values r.agents))
reap_lem o age r h m =
    let (reaped, same) = reap_loop_only o age r h in
    (
      λ k.
          rw (same, agents-reap_loop o (o.now - age) r.agents 0 r k)
            (hit_lem (o.now - age) r.agents k m),
      rw (reaped, count-reap_loop o (o.now - age) r.agents 0 r) (omega arith),
    )

-- An agent that is not flagged online, and since the last heartbeat of which, or since the creation of
-- which where there was no heartbeat, more than the age has gone by. Revocation does not matter.
abbrev pub outlived : ℕ → ℕ → Bool → Option ℕ → ℕ → Bool
outlived now age true last_seen created_at = false
outlived now age false none created_at = ltb (created_at + age) now
outlived now age false (some seen) created_at = ltb (seen + age) now

abbrev pub is_outlived : ℕ → ℕ → Agent → Bool
is_outlived now age a = outlived now age a.online a.last_seen a.created_at

abbrev pub unless_outlived : ℕ → ℕ → Option Agent → Option Agent
unless_outlived now age none = none
unless_outlived now age (some a) = if is_outlived now age a then none else some a

is_stale-outlived : (now age : ℕ) (a : Agent) → is_stale (now - age) a ≡ is_outlived now age a
unfolding is_stale
is_stale-outlived now age a = ground arith

unless_stale-outlived :
    (now age : ℕ) (found : Option Agent)
    → unless_stale (now - age) found ≡ unless_outlived now age found
unless_stale-outlived now age none = refl
unless_stale-outlived now age (some a) = rw (is_stale-outlived now age a) refl

-- With a positive age, a sweep removes exactly the agents that are not flagged online and were last
-- seen, or else created, longer than the age ago, whether they are revoked or not; the others stay as
-- they are, and the number of those removed is returned.
pub reap-outlived :
    (o : Outside) (age : ℕ) (r : Registry)
    → 0 < age
    → IsMap r.agents
    → ((k : Text)
        → Dict.get (reap o (pos age) r).1.agents k
          ≡ unless_outlived o.now age (Dict.get r.agents k))
      × ((reap o (pos age) r).0 ≡ count (is_outlived o.now age) (values r.agents))
reap-outlived o age r h m =
    let (left, number) = reap_lem o age r h m in
    (
      λ k. left k ∙ unless_stale-outlived o.now age (Dict.get r.agents k),
      number
          ∙ ap (λ (p : Agent → Bool). count p (values r.agents))
              (fun_ext (is_stale-outlived o.now age)),
    )

-- An age that is not above zero removes nothing.
pub reap_disabled :
    (o : Outside) (max_age : ℤ) (r : Registry)
    → positive? max_age ≡ none
    → reap o max_age r ≡ (0, r)
unfolding reap
reap_disabled o max_age r h = rw (h, reap) refl

agents-list :
    (now : ℕ) (r : Registry) (k : Text)
    → Dict.get (list now r).1.agents k
      ≡ map_option (refresh_online now (get_online_timeout r)) (Dict.get r.agents k)
unfolding list
agents-list now r k = get-map_values (refresh_online now (get_online_timeout r)) r.agents k

abbrev pub unless_old : ℕ → Option Agent → Option Agent
unless_old cutoff none = none
unless_old cutoff (some a) = if ltb (reference_time a) cutoff then none else some a

refreshed_stale :
    (now age threshold : ℕ) (a : Agent)
    → age ≤ now
    → threshold ≤ age
    → is_stale (now - age) (refresh_online now threshold a) ≡ ltb (reference_time a) (now - age)
unfolding is_stale refresh_online
refreshed_stale now age threshold a h t = ground arith

-- A sweep at the moment of a listing goes by age alone, when the age is at least the online timeout:
-- what was last seen, or else created, before the cutoff is removed, revoked or not, and what is left
-- has its online flag refreshed.
pub reap-list :
    (o : Outside) (age : ℕ) (r : Registry) (k : Text)
    → 0 < age
    → age ≤ o.now
    → get_online_timeout r ≤ age
    → IsMap r.agents
    → Dict.get (reap o (pos age) (list o.now r).1).1.agents k
      ≡ map_option
          (refresh_online o.now (get_online_timeout r))
          (unless_old (o.now - age) (Dict.get r.agents k))
reap-list o age r k h fits wide m =
    let q = (list o.now r).1 in
    (reap_lem o age q h (unfold list in map_values-IsMap _ r.agents m)).0 k
    ∙ (rw agents-list (swept (Dict.get r.agents k)))
  where
    swept :
        (found : Option Agent)
        → unless_stale
            (o.now - age)
            (map_option (refresh_online o.now (get_online_timeout r)) found)
          ≡ map_option
              (refresh_online o.now (get_online_timeout r))
              (unless_old (o.now - age) found)
    swept none = refl
    swept (some a) = ground (arith, refreshed_stale o.now age (get_online_timeout r) a)

-- Without a listing the flag of the last one counts: an agent that it flagged online is kept however
-- old it is, also if it is revoked.
pub reap_keeps_flagged :
    (o : Outside) (max_age : ℤ) (r : Registry) (k : Text) (a : Agent)
    → IsMap r.agents
    → Dict.get r.agents k ≡ some a
    → a.online ≡ true
    → Dict.get (reap o max_age r).1.agents k ≡ some a
reap_keeps_flagged o (negsuc n) r k a m e flagged = rw (reap_disabled o (negsuc n) r refl) e
reap_keeps_flagged o (pos zero) r k a m e flagged = rw (reap_disabled o (pos zero) r refl) e
reap_keeps_flagged o (pos (suc n)) r k a m e flagged =
    (reap_lem o (suc n) r (omega arith) m).0 k ∙ (unfold is_stale in ground arith)
