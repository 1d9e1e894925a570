-- ===== src/Topology/Manager/Reaping.antt =====
-- Which channels the reaper drops.
use scuttlebot.Common.{
  ◌+◌, ◌<◌, ◌↔◌, ◌⊎◌, ℤ, pos, negsuc, zero, suc, positive?, map, reverse, sym, contains_text, ℕ,
  Text, bytes, text_eq, text_eq_iff, List, [], ◌∷◌, ◌++◌, true, false, Option, none, some, ◌≡◌, inl,
  inr, refl, ap, ◌∙◌, arith, Option-cases, Bool-cases, if◌then◌else◌, All,
}
use scuttlebot.Common.Dict
use scuttlebot.Common.Dict.{Dict}
use mathlib.Core.Path.{subst}
use mathlib.Core.List.{reverse-append, append_assoc}
use scuttlebot.Topology.{Policy, is_ephemeral, ttl_for}
use scuttlebot.Topology.Manager.{
  Command, chanserv, Manager, ChannelRecord, drop_channel, is_overdue, overdue, drop_all, reap,
}

-- Every record stands under its name.
abbrev pub Named : Dict ChannelRecord → Type 0
Named d = All (λ e. e.1.name ≡ e.0) d

overdue_lem :
    (p : Policy) (now : ℕ) (d : Dict ChannelRecord) (k : Text)
    → Dict.IsMap d
    → Named d
    → contains_text (overdue p now d) k
      ≡ (elim (Dict.get d k) [ none ↦ false | some r ↦ is_overdue p now r ])
unfolding overdue Dict.get contains_text
overdue_lem p now [] k m named = refl
overdue_lem p now ((j, r) ∷ d) k (absent, m) (name, named) =
    let ih = overdue_lem p now d k m named in
    elim (Bool-cases (text_eq j k)) [
      | inl same ↦
          let gone : Dict.get d k ≡ none =
            subst (λ x. Dict.get d x ≡ none) ((text_eq_iff j k).0 same) absent in
          let unlisted : contains_text (overdue p now d) k ≡ false = ih ∙ rw gone refl in
          let here : text_eq r.name k ≡ true = rw name same in
          elim (Bool-cases (is_overdue p now r)) [
            | inl late ↦ rw (late, same, here, late) refl
            | inr young ↦ rw (young, same, unlisted, young) refl
          ]
      | inr other ↦
          let elsewhere : text_eq r.name k ≡ false = rw name other in
          elim (Bool-cases (is_overdue p now r)) [
            | inl late ↦ rw (late, other, elsewhere) ih
            | inr young ↦ rw (young, other) ih
          ]
    ]

-- The command that drops a channel.
abbrev pub dropping : Text → Command
dropping name = chanserv (bytes "DROP " ++ name)

after_drop : Text → Manager → Manager
after_drop name m = record m {
  sent = chanserv (bytes "DROP " ++ name) ∷ m.sent;
  channels = Dict.remove m.channels name;
}

drop_channel_lem :
    (name : Text) (m : Manager)
    → m.connected ≡ true
    → drop_channel name m ≡ some (after_drop name m)
unfolding drop_channel after_drop
drop_channel_lem name m online = rw online refl

drop_all_lem :
    (names : List Text) (m : Manager)
    → m.connected ≡ true
    → (m' : Manager) × (drop_all names m ≡ some m')
      × ((k : Text)
          → Dict.get m'.channels k
            ≡ (if contains_text names k then none else Dict.get m.channels k))
      × (m'.sent ≡ reverse (map dropping names) ++ m.sent)
unfolding drop_all contains_text after_drop
drop_all_lem [] m online = (m, refl, λ k. refl, refl)
drop_all_lem (name ∷ names) m online =
    let (m', e, rest, sent) = drop_all_lem names (after_drop name m) online in
    (
      m',
      rw (drop_all, drop_channel_lem name m online) e,
      λ k. rest k ∙ ground (arith, Dict.get-remove m.channels name k),
      sent
          ∙ sym (
              ap (λ (cs : List Command). cs ++ m.sent)
                (reverse-append (dropping name ∷ []) (map dropping names))
              ∙ append_assoc (reverse (map dropping names)) (dropping name ∷ []) m.sent),
    )

reap-policy :
    (p : Policy) (now : ℕ) (m : Manager)
    → m.policy ≡ some p
    → reap now m ≡ drop_all (overdue p now m.channels) m
unfolding reap
reap-policy p now m ruled =
    ap
      (λ (o : Option Policy). elim o [
        | none ↦ some m
        | some q ↦ drop_all (overdue q now m.channels) m
      ])
      ruled

-- A time to live above 0, or none such.
ttl_cases :
    (z : ℤ)
    → ((ttl : ℕ) × (z ≡ pos ttl) × (0 < ttl))
      ⊎ ((positive? z ≡ none) × ((ttl : ℕ) → z ≡ pos ttl → 0 < ttl → ⊥))
ttl_cases (pos zero) = inr (refl, λ ttl e above. ground arith)
ttl_cases (pos (suc n)) = inl (suc n, refl, omega arith)
ttl_cases (negsuc n) = inr (refl, λ ttl e above. ground arith)

positive?-pos : (ttl : ℕ) → 0 < ttl → positive? (pos ttl) ≡ some ttl
positive?-pos zero h = absurd (omega arith)
positive?-pos (suc n) h = ground arith

pos_inj : (m n : ℕ) → pos m ≡ pos n → m ≡ n
pos_inj m n e = ground arith

-- An ephemeral channel with a time to live above 0 that was provisioned longer ago than that.
abbrev pub Outlived : Policy → ℕ → ChannelRecord → Type 0
Outlived p now r =
    (is_ephemeral p r.name ≡ true)
    × ((ttl : ℕ) × (ttl_for p r.name ≡ pos ttl) × (0 < ttl) × (r.provisioned_at + ttl < now))

is_overdue_iff :
    (p : Policy) (now : ℕ) (r : ChannelRecord) → (is_overdue p now r ≡ true) ↔ Outlived p now r
unfolding is_overdue
is_overdue_iff p now r = elim (ttl_cases (ttl_for p r.name)) [
  | inl (ttl, e, above) ↦
      let some_ttl : positive? (ttl_for p r.name) ≡ some ttl = rw e (positive?-pos ttl above) in
      (
        λ h. (ground arith, (ttl, e, above, ground arith)),
        λ (eph, (ttl', e', above', late)).
            let same : ttl' ≡ ttl = pos_inj ttl' ttl (sym e' ∙ e) in ground arith,
      )
  | inr (none_yet, not_above) ↦
      (λ h. absurd (ground arith), λ (eph, (ttl, e, above, late)). absurd (not_above ttl e above))
]

overdue_iff :
    (p : Policy) (now : ℕ) (d : Dict ChannelRecord) (k : Text)
    → Dict.IsMap d
    → Named d
    → (contains_text (overdue p now d) k ≡ true)
      ↔ ((r : ChannelRecord) × (Dict.get d k ≡ some r) × Outlived p now r)
overdue_iff p now d k m named = elim (Option-cases (Dict.get d k)) [
  | inl absent ↦
      let no : contains_text (overdue p now d) k ≡ false =
        overdue_lem p now d k m named ∙ rw absent refl in
      (λ h. absurd (ground arith), λ (r, e, late). absurd (ground arith))
  | inr (r, there) ↦
      let same : contains_text (overdue p now d) k ≡ is_overdue p now r =
        overdue_lem p now d k m named ∙ rw there refl in
      (
        λ h. (r, there, (is_overdue_iff p now r).0 (sym same ∙ h)),
        λ (r', e, late).
            let one : r ≡ r' = ground arith in
            same ∙ (is_overdue_iff p now r).1 (subst (Outlived p now) (sym one) late),
      )
]

-- A run of the reaper of a connected manager sends one DROP after the other for a list of names, which
-- are those of the records of ephemeral channels that have outlived their time to live, where that is
-- above 0; it forgets the records of just these, and keeps all others as they are.
pub reap-overdue :
    (p : Policy) (now : ℕ) (m : Manager)
    → m.policy ≡ some p
    → m.connected ≡ true
    → Dict.IsMap m.channels
    → Named m.channels
    → (m' : Manager) × (names : List Text) × (reap now m ≡ some m')
      × (m'.sent ≡ reverse (map dropping names) ++ m.sent)
      × ((k : Text)
          → (contains_text names k ≡ true)
            ↔ ((r : ChannelRecord) × (Dict.get m.channels k ≡ some r) × Outlived p now r))
      × ((k : Text)
          → Dict.get m'.channels k
            ≡ (if contains_text names k then none else Dict.get m.channels k))
reap-overdue p now m ruled online distinct named =
    let names = overdue p now m.channels in
    let (m', e, rest, sent) = drop_all_lem names m online in
    (
      m',
      names,
      reap-policy p now m ruled ∙ e,
      sent,
      λ k. overdue_iff p now m.channels k distinct named,
      rest,
    )
