-- ===== src/ClaudeRelay.antt =====
-- The relay of a Claude session, cmd/claude-relay/main.go: which messages of the channels reach the session,
-- the budget of messages between agents, the block that is pasted into the session, and the reading of
-- settings. The clock is an argument; environment and file are maps. The budget is a natural number: a
-- negative one lets nothing pass, like 0.
mod Tests
pub mod Settings
pub mod Budget
pub mod Mirror
use scuttlebot.Common.{
  to_lower, contains_text, trim_right, trim_prefix, trim_space, contains, ℕ, zero, suc, ◌+◌, ◌-◌,
  ◌*◌, ◌≤◌, ◌<◌, Text, bytes, text_eq, text_eq_refl, text_eq_iff, List, [], ◌∷◌, ◌++◌, Bool, true,
  false, ◌&&◌, ◌||◌, not, Option, none, some, Result, ok, err, ◌≡◌, ◌≢◌, ◌↔◌, ◌⊎◌, inl, inr, refl,
  sym, ap, ◌∙◌, arith, Option-cases, Bool-cases, if◌then◌else◌, ltb, leb, ◌==◌, length, All, count,
}
use scuttlebot.Common.Dict
use scuttlebot.Common.Dict.{Dict}
use scuttlebot.IrcAgent.{
  Search, answer, out_of_range, out_of_fuel, mentions_nick, matches_group_mention, has_any_prefix,
  trim_addressed_text,
}

-- sessionrelay.Message
pub record Message : Type 0 where
  pub at : ℕ
  pub channel : Text
  pub nick : Text
  pub text : Text

abbrev service_bots : List Text
service_bots =
    bytes "bridge"
    ∷ bytes "oracle"
    ∷ bytes "sentinel"
    ∷ bytes "steward"
    ∷ bytes "scribe"
    ∷ bytes "warden"
    ∷ bytes "snitch"
    ∷ bytes "herald"
    ∷ bytes "scroll"
    ∷ bytes "systembot"
    ∷ bytes "auditbot"
    ∷ []

-- The remaining hops of each channel, and when the session was last seen busy, 0 where it never was.
pub record RelayState : Type 0 where
  pub last_busy : ℕ
  pub handoff_budget : Dict ℕ

-- resetHandoff
unfoldable pub reset_handoff : Text → ℕ → RelayState → RelayState
reset_handoff channel budget s =
    if text_eq channel []
    then s
    else record s { handoff_budget = Dict.put s.handoff_budget channel budget }

-- The budget of a channel, which is the initial one for a channel never seen.
unfoldable pub budget_of : Text → ℕ → RelayState → ℕ
budget_of channel initial s = elim (Dict.get s.handoff_budget channel) [
  | none ↦ initial
  | some n ↦ n
]

-- consumeHandoff
unfoldable pub consume_handoff : Text → ℕ → RelayState → Bool × RelayState
unfolding budget_of
consume_handoff channel initial s =
    if text_eq channel []
    then (true, s)
    else let n = budget_of channel initial s in
      (not (n == 0), record s { handoff_budget = Dict.put s.handoff_budget channel (n - 1) })

-- A search for a mention that ends with yes; the nick of a relay is not empty.
unfoldable pub is_mention : Text → Text → Bool
is_mention text nick = elim (mentions_nick text nick) [
  | answer b ↦ b
  | out_of_range ↦ false
  | out_of_fuel ↦ false
]

abbrev activity_prefixes : List Text
activity_prefixes = bytes "claude-" ∷ bytes "codex-" ∷ bytes "gemini-" ∷ []

unfoldable pub is_activity : Message → Bool
is_activity m = has_any_prefix m.nick activity_prefixes

-- The rest of the loop of filterMessagesState for a message of another nick that is no service bot.
unfoldable pub passes : Text → Text → ℕ → Message → RelayState → Bool × RelayState
unfolding reset_handoff consume_handoff is_mention is_activity
passes nick agent_type budget m s =
    let mentioned = is_mention m.text nick in
    if is_activity m
    then (if mentioned then consume_handoff m.channel budget s else (false, s))
    else (
      mentioned || matches_group_mention m.text nick agent_type,
      reset_handoff m.channel budget s,
    )

-- Whether a message is one that the filter looks at: new, from another nick, and from no service bot.
unfoldable pub is_considered : Text → ℕ → Message → Bool
is_considered nick since m =
    not (m.at == 0)
    && ltb since m.at
    && not (text_eq m.nick nick)
    && not (contains_text service_bots m.nick)

-- The loop of filterMessagesState over the messages in the order of their times.
unfoldable pub filter_ordered :
    Text → Text → ℕ → ℕ → List Message → RelayState → List Message × RelayState
unfolding passes is_considered
filter_ordered nick agent_type since budget [] s = ([], s)
filter_ordered nick agent_type since budget (m ∷ ms) s =
    let (passed, s') =
      if is_considered nick since m then passes nick agent_type budget m s else (false, s) in
    let (rest, s'') = filter_ordered nick agent_type since budget ms s' in
    ((if passed then m ∷ rest else rest), s'')

-- Sorting by time: of messages of one time the order stays, one of the orders that sort.Slice may leave.
unfoldable pub insert_by_time : Message → List Message → List Message
insert_by_time m [] = m ∷ []
insert_by_time m (x ∷ xs) =
    let later = insert_by_time m xs in if ltb x.at m.at then x ∷ later else m ∷ x ∷ xs

unfoldable pub by_time : List Message → List Message
unfolding insert_by_time
by_time [] = []
by_time (m ∷ ms) = insert_by_time m (by_time ms)

-- The newest time, of the messages that have one, and `since`.
unfoldable pub newest_of : ℕ → List Message → ℕ
newest_of newest [] = newest
newest_of newest (m ∷ ms) = newest_of (if ltb newest m.at then m.at else newest) ms

-- filterMessagesState, with a state
unfoldable pub filter_messages_state :
    Text → Text → ℕ → ℕ → List Message → RelayState → List Message × ℕ × RelayState
unfolding filter_ordered by_time newest_of
filter_messages_state nick agent_type since budget ms s =
    let (filtered, s') = filter_ordered nick agent_type since budget (by_time ms) s in
    (filtered, newest_of since ms, s')

-- observeOutput
unfoldable pub observe_output : Text → ℕ → RelayState → RelayState
observe_output output now s =
    if contains (to_lower output) (bytes "esc to interrupt")
    then record s { last_busy = now }
    else s

abbrev busy_window : ℕ
busy_window = 1_500_000_000

-- shouldInterrupt
unfoldable pub should_interrupt : ℕ → RelayState → Bool
should_interrupt now s = not (s.last_busy == 0) && leb (now - s.last_busy) busy_window

-- One line of injectMessages.
unfoldable pub inject_line : Text → Text → Message → Text
inject_line nick control_channel m =
    let addressed = trim_addressed_text (trim_space m.text) nick in
    let text = if text_eq addressed [] then trim_space m.text else addressed in
    let channel = if text_eq m.channel [] then control_channel else m.channel in
    bytes "["
    ++ (trim_prefix channel (bytes "#") ++ (bytes "] " ++ (m.nick ++ (bytes ": " ++ text))))

unfoldable pub inject_block : Text → Text → List Message → Text
unfolding inject_line
inject_block nick control_channel [] = []
inject_block nick control_channel (m ∷ ms) =
    inject_line nick control_channel m ++ (10 ∷ inject_block nick control_channel ms)

-- What injectMessages writes to the session: an interrupt where it is due, the pasted block, a return.
unfoldable pub inject_messages : Bool → Text → Text → ℕ → List Message → RelayState → List Text
unfolding inject_block should_interrupt
inject_messages interrupt nick control_channel now ms s =
    let block = bytes "[IRC operator messages]" ++ (10 ∷ inject_block nick control_channel ms) in
    let payload = trim_right (λ c. c == 13 || c == 10 || c == 32 || c == 9) block in
    (if interrupt && should_interrupt now s then (3 ∷ []) ∷ [] else [])
    ++ ((27 ∷ (bytes "[200~" ++ (payload ++ (27 ∷ bytes "[201~")))) ∷ (13 ∷ []) ∷ [])

-- sameChannel
unfoldable pub same_channel : Text → Text → Bool
same_channel a b = text_eq (trim_prefix a (bytes "#")) (trim_prefix b (bytes "#"))
