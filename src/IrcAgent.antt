-- ===== src/IrcAgent.antt =====
-- The agents that answer through a language model, pkg/ircagent/ircagent.go: what counts as a mention, the
-- history of a conversation and the handler of a message. The model's reply is a parameter, and so is the
-- value of the server's RELAYMSG option. Texts are bytes, of which only the letters A to Z have two cases.
mod Tests
pub mod Mentions
pub mod Agent
use scuttlebot.Protocol.{has_suffix}
use scuttlebot.Common.{
  split_on, take, trim_space, has_prefix, map, trim_left, drop, ℤ, index_of, exists, get_elem?,
  to_lower, select, ℕ, zero, suc, ◌+◌, ◌-◌, ◌*◌, ◌≤◌, ◌<◌, Text, bytes, text_eq, text_eq_refl,
  text_eq_iff, List, [], ◌∷◌, ◌++◌, Bool, true, false, ◌&&◌, ◌||◌, not, Option, none, some, Result,
  ok, err, ◌≡◌, ◌≢◌, ◌↔◌, ◌⊎◌, inl, inr, refl, sym, ap, ◌∙◌, arith, Option-cases, Bool-cases,
  if◌then◌else◌, ltb, leb, ◌==◌, length, All, count,
}
use scuttlebot.Common.Dict
use scuttlebot.Common.Dict.{Dict}

pub record HistoryEntry : Type 0 where
  pub role : Text
  pub nick : Text
  pub content : Text

-- The parts of a Config that the code below reads.
pub record Config : Type 0 where
  pub irc_addr : Text
  pub nick : Text
  pub pass : Text
  pub channels : List Text
  pub system_prompt : Text
  pub history_len : ℤ
  pub typing_delay : ℤ
  pub error_joiner : Text
  pub activity_prefixes : List Text

abbrev em_dash_joiner : Text
em_dash_joiner = bytes " " ++ (0xE2 ∷ 0x80 ∷ 0x94 ∷ bytes " ")

-- SplitCSV
unfoldable pub split_csv : Text → List Text
split_csv s = select (λ part. not (text_eq part [])) (map trim_space (split_on 44 s))

-- isAlNum
unfoldable pub is_al_num : ℕ → Bool
is_al_num c =
    (leb 97 c && leb c 122)
    || (leb 65 c && leb c 90)
    || (leb 48 c && leb c 57)
    || c == 45
    || c == 95

-- isMentionAdjacent
unfoldable pub is_mention_adjacent : ℕ → Bool
unfolding is_al_num
is_mention_adjacent c = is_al_num c || c == 46 || c == 47 || c == 92

-- Whether the byte at a place passes a test; no byte stands past the end.
abbrev pub byte_is : (ℕ → Bool) → Text → ℕ → Bool
byte_is p s i = elim (get_elem? s i) [ none ↦ false | some c ↦ p c ]

-- The conditions `before` and `after` of MentionsNick.
unfoldable pub standalone : Text → Text → ℕ → Bool
unfolding is_mention_adjacent
standalone lower needle idx =
    (idx == 0 || not (byte_is is_mention_adjacent lower (idx - 1)))
    && (leb (length lower) (idx + length needle)
        || not (byte_is is_mention_adjacent lower (idx + length needle)))

-- How a run of the loop ends: with an answer, at a slice past the end of the text, or out of fuel.
pub data Search : Type 0 where
  answer : Bool → Search
  out_of_range : Search
  out_of_fuel : Search

-- The loop of MentionsNick.
unfoldable pub mentions_from : ℕ → Text → Text → ℕ → Search
unfolding standalone
mentions_from zero lower needle start = out_of_fuel
mentions_from (suc fuel) lower needle start =
    if ltb (length lower) start then out_of_range else (elim (index_of (drop start lower) needle) [
      | none ↦ answer false
      | some k ↦
          if standalone lower needle (k + start)
          then answer true
          else mentions_from fuel lower needle (k + start + 1)
    ])

-- MentionsNick. The loop takes at most two turns more than the text has bytes.
unfoldable pub mentions_nick : Text → Text → Search
unfolding mentions_from
mentions_nick text nick = mentions_from (length text + 2) (to_lower text) (to_lower nick) 0

-- containsWord
unfoldable pub contains_word : Text → Text → Bool
unfolding is_al_num
contains_word text word = elim (index_of text word) [
  | none ↦ false
  | some idx ↦
      (idx == 0 || not (byte_is is_al_num text (idx - 1)))
      && (leb (length text) (idx + length word) || not (byte_is is_al_num text (idx + length word)))
]

-- The bytes of a token after `@`.
unfoldable pub token_of : Text → Text
unfolding is_al_num
token_of [] = []
token_of (c ∷ s) = let rest = token_of s in if is_al_num c || c == 42 then c ∷ rest else []

-- A token `prefix*` that stands for the nick.
unfoldable pub matches_prefix : Text → Text → Bool
matches_prefix nick token =
    has_suffix token (bytes "*")
    && not (ltb (length token) 2)
    && has_prefix (to_lower nick) (take (length token - 1) token)

-- The loop of MatchesGroupMention.
unfoldable pub any_prefix_token : Text → Text → Bool
unfolding token_of matches_prefix
any_prefix_token nick [] = false
any_prefix_token nick (c ∷ s) =
    let rest = any_prefix_token nick s in
    if c == 64 then matches_prefix nick (token_of s) || rest else rest

-- MatchesGroupMention
unfoldable pub matches_group_mention : Text → Text → Text → Bool
unfolding contains_word any_prefix_token
matches_group_mention text nick agent_type =
    let lower = to_lower text in
    contains_word lower (bytes "@all")
    || (not (text_eq agent_type []) && contains_word lower (64 ∷ to_lower agent_type))
    || any_prefix_token nick lower

-- TrimAddressedText
unfoldable pub trim_addressed_text : Text → Text → Text
trim_addressed_text text nick = elim (index_of (to_lower text) (to_lower nick)) [
  | none ↦ text
  | some idx ↦
      let after =
        trim_left (λ c. c == 58 || c == 44 || c == 32)
          (trim_space (drop (idx + length nick) text)) in
      if text_eq after [] then text else after
]

-- HasAnyPrefix
unfoldable pub has_any_prefix : Text → List Text → Bool
has_any_prefix s prefixes = exists (λ prefix. has_prefix s prefix) prefixes
