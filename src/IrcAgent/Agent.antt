-- ===== src/IrcAgent/Agent.antt =====
-- The agent: its configuration, the history of its conversations, the handler of a message and the answer.
use scuttlebot.Common.{
  split_on, take, reverse, drop, has_prefix, positive?, keep_last, trim_space, index_of, ℕ, ◌+◌,
  Text, bytes, text_eq, List, [], ◌∷◌, ◌++◌, Bool, false, ◌&&◌, not, Option, none, some, Result, ok,
  err, if◌then◌else◌, ◌==◌, length,
}
use scuttlebot.Common.Dict
use scuttlebot.Common.Dict.{Dict}
use scuttlebot.IrcAgent.{
  Config, HistoryEntry, answer, out_of_range, out_of_fuel, mentions_nick, has_any_prefix,
  trim_addressed_text,
}

abbrev default_activity_prefixes : List Text
default_activity_prefixes = bytes "claude-" ∷ bytes "codex-" ∷ bytes "gemini-" ∷ []

-- A Config after withDefaults.
pub record Settings : Type 0 where
  pub irc_addr : Text
  pub nick : Text
  pub pass : Text
  pub channels : List Text
  pub system_prompt : Text
  pub history_len : ℕ
  pub typing_delay : ℕ
  pub error_joiner : Text
  pub activity_prefixes : List Text

-- withDefaults
unfoldable pub with_defaults : Config → Settings
with_defaults cfg = record {
  irc_addr = cfg.irc_addr;
  nick = cfg.nick;
  pass = cfg.pass;
  channels = if length cfg.channels == 0 then bytes "#general" ∷ [] else cfg.channels;
  system_prompt = cfg.system_prompt;
  history_len = elim (positive? cfg.history_len) [ none ↦ 20 | some n ↦ n ];
  typing_delay = elim (positive? cfg.typing_delay) [ none ↦ 400_000_000 | some n ↦ n ];
  error_joiner = if text_eq cfg.error_joiner [] then bytes " - " else cfg.error_joiner;
  activity_prefixes =
      if length cfg.activity_prefixes == 0
      then default_activity_prefixes
      else cfg.activity_prefixes;
}

-- validateConfig
unfoldable pub validate_config : Settings → Result Text (Unit {0})
validate_config cfg =
    if text_eq cfg.irc_addr []
    then err (bytes "irc address is required")
    else if text_eq cfg.nick []
    then err (bytes "nick is required")
    else if text_eq cfg.pass []
    then err (bytes "pass is required")
    else if text_eq cfg.system_prompt []
    then err (bytes "system prompt is required")
    else ok tt

-- `sent` are the messages sent so far, the last one first.
pub record Agent : Type 0 where
  pub cfg : Settings
  pub history : Dict (List HistoryEntry)
  pub sent : List (Text × Text)

unfoldable pub history_of : Agent → Text → List HistoryEntry
history_of a key = elim (Dict.get a.history key) [ none ↦ [] | some h ↦ h ]

-- appendHistory
unfoldable pub append_history : Text → Text → Text → Text → Agent → Agent
unfolding history_of
append_history conv_key role nick content a = record a {
  history = Dict.put a.history conv_key (
      keep_last a.cfg.history_len
        (history_of a conv_key ++ (record { role = role; nick = nick; content = content } ∷ [])));
}

prompt_line : HistoryEntry → Text
prompt_line entry =
    bytes "["
    ++ ((if text_eq entry.role (bytes "assistant") then bytes "Assistant" else bytes "User")
        ++ (bytes "] " ++ (entry.nick ++ (bytes ": " ++ (entry.content ++ (10 ∷ []))))))

prompt_lines : List HistoryEntry → Text
unfolding prompt_line
prompt_lines [] = []
prompt_lines (entry ∷ entries) = prompt_line entry ++ prompt_lines entries

-- buildPrompt
unfoldable pub build_prompt : Agent → Text → Text
unfolding prompt_lines history_of
build_prompt a conv_key =
    a.cfg.system_prompt
    ++ ((10 ∷ 10 ∷ bytes "Conversation history:")
        ++ (10 ∷ [])
        ++ (prompt_lines (history_of a conv_key)
            ++ (10 ∷ bytes "Respond to the last user message. Be concise.")))

-- The messages of the lines of a reply; the first line alone has the prefix.
reply_lines : Text → Text → List Text → List (Text × Text)
reply_lines target prefix [] = []
reply_lines target prefix (line ∷ lines) =
    let rest = reply_lines target [] lines in
    if text_eq (trim_space line) [] then rest else (target, prefix ++ trim_space line) ∷ rest

-- What a reply is for: the conversation, the target of the reply and the sender.
pub record Request : Type 0 where
  pub conv_key : Text
  pub reply_to : Text
  pub sender : Text
  pub is_dm : Bool

-- respond, with the outcome of the model for a prompt
unfoldable pub respond : (Text → Result Text Text) → Request → Agent → Agent
unfolding build_prompt append_history reply_lines
respond complete req a = elim (complete (build_prompt a req.conv_key)) [
  | err e ↦ record a {
    sent =
        (
          req.reply_to,
          req.sender ++ (bytes ": sorry, something went wrong" ++ (a.cfg.error_joiner ++ e)),
        )
        ∷ a.sent;
  }
  | ok text ↦
      let reply = trim_space text in
      let prefix =
        if not req.is_dm && not (text_eq req.sender []) then req.sender ++ bytes ": " else [] in
      let a' = append_history req.conv_key (bytes "assistant") a.cfg.nick reply a in
      record a' { sent = reverse (reply_lines req.reply_to prefix (split_on 10 reply)) ++ a.sent }
]

-- The sender before the separator of the RELAYMSG option.
unfoldable pub unrelayed : Option Text → Text → Text
unrelayed sep nick = elim sep [
  | none ↦ nick
  | some s ↦
      if text_eq s [] then nick else (elim (index_of nick s) [ none ↦ nick | some i ↦ take i nick ])
]

-- The sender and the text of a message with a prefix `[nick] `.
unfoldable pub unprefixed : Text → Text → Text × Text
unprefixed sender text =
    if has_prefix text (bytes "[")
    then (elim (index_of text (bytes "] ")) [
      | none ↦ (sender, text)
      | some end ↦ (drop 1 (take end text), drop (end + 2) text)
    ])
    else (sender, text)

with_last_content : Text → List HistoryEntry → List HistoryEntry
with_last_content content [] = []
with_last_content content (e ∷ []) = record e { content = content } ∷ []
with_last_content content (e ∷ e' ∷ es) = e ∷ with_last_content content (e' ∷ es)

-- A search that is out of range would stop the program, which a nick that is not empty excludes.
unfoldable pub is_mentioned : Text → Text → Bool
is_mentioned text nick = elim (mentions_nick text nick) [
  | answer b ↦ b
  | out_of_range ↦ false
  | out_of_fuel ↦ false
]

-- The handler of PRIVMSG, with the request for a reply that it starts, if it starts one.
unfoldable pub on_privmsg : Option Text → Text → Text → Text → Agent → Option Request × Agent
unfolding unrelayed unprefixed is_mentioned append_history history_of with_last_content
on_privmsg relay_sep source target last a =
    if text_eq source a.cfg.nick
    then (none, a)
    else let (sender, text) = unprefixed (unrelayed relay_sep source) (trim_space last) in
      let is_dm = not (has_prefix target (bytes "#")) in
      let conv_key = if is_dm then sender else target in
      let a' = append_history conv_key (bytes "user") sender text a in
      if has_any_prefix sender a.cfg.activity_prefixes
      then (none, a')
      else if not is_dm && not (is_mentioned text a.cfg.nick)
      then (none, a')
      else let cleaned = trim_addressed_text text a.cfg.nick in
        (
          some (record {
            conv_key = conv_key;
            reply_to = if is_dm then sender else target;
            sender = sender;
            is_dm = is_dm;
          }),
          record a' {
            history =
                Dict.put a'.history conv_key (with_last_content cleaned (history_of a' conv_key));
          },
        )
