-- ===== src/ClaudeRelay/Tests.antt =====
-- The theorem on the budget at a concrete input.
use scuttlebot.ClaudeRelay.Mirror.{split_mirror_text-Fits, Fits, split_mirror_text}
use scuttlebot.IrcAgent.{has_any_prefix}
use scuttlebot.Common.{
  All, some, replicate, ◌++◌, ◌≡◌, Text, List, has_prefix, ℕ, ◌≤◌, bytes, text_eq, [], ◌∷◌, refl,
  count,
}
use scuttlebot.ClaudeRelay.{
  All, some, List, Text, has_any_prefix, is_activity, Message, RelayState, budget_of,
  filter_ordered,
}
use scuttlebot.ClaudeRelay.Budget.{filter_ordered-bounded}

abbrev calls : ℕ → Message
calls t = record {
  at = t;
  channel = bytes "#a";
  nick = bytes "codex-1";
  text = bytes "claude-2: again";
}

abbrev state1 : RelayState
state1 = record { last_busy = 0; handoff_budget = (bytes "#a", 1) ∷ [] }

filter_ordered-bounded_example :
    count
      (λ m. text_eq m.channel (bytes "#a"))
      (filter_ordered (bytes "claude-2") (bytes "worker") 0 4 (calls 1 ∷ calls 2 ∷ []) state1).0
    ≤ budget_of (bytes "#a") 4 state1
unfolding text_eq is_activity has_any_prefix has_prefix
filter_ordered-bounded_example =
    filter_ordered-bounded (bytes "claude-2") (bytes "worker") 0 4 (calls 1 ∷ calls 2 ∷ []) state1
      (bytes "#a") refl (refl, (refl, tt))

abbrev text1 : Text
text1 = bytes "one" ++ (13 ∷ 10 ∷ (bytes " two " ++ (10 ∷ replicate 400 120)))

split_mirror_text-Fits_example :
    (pieces : List Text) × (split_mirror_text text1 ≡ some pieces) × All Fits pieces
split_mirror_text-Fits_example = split_mirror_text-Fits text1
