-- ===== src/ClaudeRelay/Budget.antt =====
-- How many messages of other agents reach the session.
use scuttlebot.Common.{
  ℕ, ◌+◌, ◌-◌, ◌≤◌, Text, text_eq, text_eq_iff, List, [], ◌∷◌, Bool, true, false, ◌&&◌, ◌||◌, not,
  ◌≡◌, inl, inr, ap, arith, Bool-cases, if◌then◌else◌, ◌==◌, All, count,
}
use scuttlebot.Common.Dict
use scuttlebot.Common.Dict.{Dict}
use scuttlebot.ClaudeRelay.{
  Message, RelayState, reset_handoff, budget_of, consume_handoff, is_mention, is_activity, passes,
  is_considered, filter_ordered,
}

-- One for a message that passed in the channel.
abbrev one_if : Bool → ℕ
one_if b = if b then 1 else 0

budget_of-put :
    (channel ch : Text) (n initial : ℕ) (s : RelayState)
    → budget_of ch initial (record s { handoff_budget = Dict.put s.handoff_budget channel n })
      ≡ (if text_eq channel ch then n else budget_of ch initial s)
unfolding budget_of
budget_of-put channel ch n initial s = ground (arith, Dict.get-put s.handoff_budget channel ch n)

spends : (n : ℕ) → one_if (not (n == 0)) + (n - 1) ≤ n
spends n = ground arith

-- A message that passes takes a hop of its channel.
consume_handoff_lem :
    (channel ch : Text) (initial : ℕ) (s : RelayState)
    → text_eq ch [] ≡ false
    → one_if ((consume_handoff channel initial s).0 && text_eq channel ch)
        + budget_of ch initial (consume_handoff channel initial s).1
      ≤ budget_of ch initial s
unfolding consume_handoff
consume_handoff_lem channel ch initial s named = elim (Bool-cases (text_eq channel [])) [
  | inl blank ↦
      let elsewhere : text_eq channel ch ≡ false =
        ground (arith, text_eq_iff channel [], text_eq_iff channel ch) in
      rw (consume_handoff, blank, elsewhere) (omega arith)
  | inr given ↦
      let left = budget_of-put channel ch (budget_of channel initial s - 1) initial s in
      elim (Bool-cases (text_eq channel ch)) [
        | inl same ↦
            let e : budget_of channel initial s ≡ budget_of ch initial s =
              ap (λ c. budget_of c initial s) ((text_eq_iff channel ch).0 same) in
            let spent = spends (budget_of channel initial s) in
            rw (consume_handoff, given, left, same) (ground (arith, spent, e))
        | inr other ↦ rw (consume_handoff, given, left, other) (ground arith)
      ]
]

passes_lem :
    (nick ty : Text) (budget : ℕ) (m : Message) (s : RelayState) (ch : Text)
    → text_eq ch [] ≡ false
    → is_activity m || not (text_eq m.channel ch) ≡ true
    → one_if ((passes nick ty budget m s).0 && text_eq m.channel ch)
        + budget_of ch budget (passes nick ty budget m s).1
      ≤ budget_of ch budget s
unfolding passes reset_handoff
passes_lem nick ty budget m s ch named agents = elim (Bool-cases (is_activity m)) [
  | inl agent ↦ elim (Bool-cases (is_mention m.text nick)) [
    | inl mentioned ↦
        rw (passes, agent, mentioned) (consume_handoff_lem m.channel ch budget s named)
    | inr silent ↦ rw (passes, agent, silent) (omega arith)
  ]
  | inr operator ↦
      let elsewhere : text_eq m.channel ch ≡ false = ground (arith, agents, operator) in
      let same = budget_of-put m.channel ch budget budget s in
      elim (Bool-cases (text_eq m.channel [])) [
        | inl blank ↦ rw (passes, operator, elsewhere, reset_handoff, blank) (ground arith)
        | inr given ↦ rw (passes, operator, elsewhere, reset_handoff, given, same) (ground arith)
      ]
]

-- Of messages in a channel of which none is an operator's, no more reach the session than the channel has
-- hops left, whatever the agents write and whatever comes in other channels.
pub filter_ordered-bounded :
    (nick ty : Text) (since budget : ℕ) (ms : List Message) (s : RelayState) (ch : Text)
    → text_eq ch [] ≡ false
    → All (λ m. is_activity m || not (text_eq m.channel ch) ≡ true) ms
    → count (λ m. text_eq m.channel ch) (filter_ordered nick ty since budget ms s).0
      ≤ budget_of ch budget s
unfolding filter_ordered
filter_ordered-bounded nick ty since budget [] s ch named agents = omega arith
filter_ordered-bounded nick ty since budget (m ∷ ms) s ch named (agent, agents) =
    elim (Bool-cases (is_considered nick since m)) [
      | inl considered ↦
          let step = passes_lem nick ty budget m s ch named agent in
          let ih =
            filter_ordered-bounded nick ty since budget ms (passes nick ty budget m s).1 ch named
              agents in
          elim (Bool-cases ((passes nick ty budget m s).0)) [
            | inl passed ↦
                rw (filter_ordered, considered, passed) (ground (arith, step, ih, passed))
            | inr dropped ↦
                rw (filter_ordered, considered, dropped) (ground (arith, step, ih, dropped))
          ]
      | inr skipped ↦
          rw (filter_ordered, skipped)
            (filter_ordered-bounded nick ty since budget ms s ch named agents)
    ]
