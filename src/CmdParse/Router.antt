-- ===== src/CmdParse/Router.antt =====
-- The router, its commands and the texts of its replies.
use scuttlebot.Common.{
  join, quote, pad_right, split_on, to_upper, map, contains_text, sort_texts, ℕ, Text, bytes,
  text_eq, List, [], ◌∷◌, ◌++◌, Bool, true, ◌&&◌, ◌||◌, not, Option, none, some, Result, ok, err,
  if◌then◌else◌, ltb, leb, ◌==◌, length,
}
use scuttlebot.Common.Dict
use scuttlebot.Common.Dict.{Dict}
use scuttlebot.Common.{trim_space, trim_right, to_lower, contains_byte}

pub record Context : Type 0 where
  pub nick : Text
  pub channel : Text
  pub is_dm : Bool

pub record Reply : Type 0 where
  pub target : Text
  pub text : Text

pub record Command : Type 0 where
  pub name : Text
  pub usage : Text
  pub description : Text
  pub handler : Context → Text → Text

pub record Router : Type 0 where
  pub bot_nick : Text
  pub purpose : Text
  pub commands : Dict Command

pub data RegisterPanic : Type 0 where
  empty_name : RegisterPanic
  duplicate_command : Text → RegisterPanic

abbrev em_dash : Text
em_dash = 0xE2 ∷ 0x80 ∷ 0x94 ∷ []

abbrev newline : ℕ
newline = 10

drop_empty : List Text → List Text
drop_empty [] = []
drop_empty (part ∷ parts) =
    let line = trim_right (λ c. c == 13) part in
    let rest = drop_empty parts in if text_eq line [] then rest else line ∷ rest

-- Reply.Lines
unfoldable pub lines : Option Reply → List Text
unfolding drop_empty
lines none = []
lines (some r) = drop_empty (split_on newline r.text)

-- NewRouter
unfoldable pub new_router : Text → Router
new_router bot_nick = record { bot_nick = to_lower bot_nick; purpose = []; commands = [] }

-- SetPurpose
unfoldable pub set_purpose : Text → Router → Router
set_purpose s r = record r { purpose = trim_space s }

abbrev greetings : List Text
greetings =
    bytes "hi"
    ∷ bytes "hello"
    ∷ bytes "hey"
    ∷ bytes "yo"
    ∷ bytes "sup"
    ∷ bytes "hola"
    ∷ bytes "howdy"
    ∷ bytes "greetings"
    ∷ bytes "ping"
    ∷ []

-- isGreeting
unfoldable pub is_greeting : Text → Bool
is_greeting word =
    contains_text greetings (to_lower (trim_right (contains_byte (bytes "!?.,")) word))

unfoldable pub is_nick_byte : ℕ → Bool
is_nick_byte c =
    (leb b'a' c && leb c b'z')
    || (leb b'A' c && leb c b'Z')
    || (leb b'0' c && leb c b'9')
    || contains_byte (bytes "-_[]\\^{}|`") c

unfoldable pub all_nick_bytes : Text → Bool
unfolding is_nick_byte
all_nick_bytes [] = true
all_nick_bytes (c ∷ s) = is_nick_byte c && all_nick_bytes s

-- isValidNick
unfoldable pub is_valid_nick : Text → Bool
unfolding all_nick_bytes
is_valid_nick s = not (text_eq s [] || ltb 32 (length s)) && all_nick_bytes s

-- Register: an empty or a duplicate name panics.
unfoldable pub register : Command → Router → Result RegisterPanic Router
register cmd r =
    let key = to_lower cmd.name in
    if text_eq key [] then err empty_name else (elim (Dict.get r.commands key) [
      | some _ ↦ err (duplicate_command cmd.name)
      | none ↦ ok (record r { commands = Dict.put r.commands key cmd })
    ])

-- replyTarget
unfoldable pub reply_target : Context → Text
reply_target ctx = if ctx.is_dm then ctx.nick else ctx.channel

abbrev pub keys {ℓ} : {V : Type ℓ} → Dict V → List Text
keys d = map (λ e. e.0) d

-- One line for each name, in order.
help_lines : Dict Command → List Text → Text
help_lines commands [] = []
help_lines commands (name ∷ names) =
    (elim (Dict.get commands name) [
      | none ↦ []
      | some cmd ↦
          bytes "  "
          ++ (pad_right 12 (to_upper cmd.name)
              ++ (bytes " " ++ (cmd.description ++ (newline ∷ []))))
    ])
    ++ help_lines commands names

-- The list of all commands, for HELP with no argument.
help_all : Router → Text
unfolding help_lines
help_all r =
    (if text_eq r.purpose []
      then []
      else r.bot_nick ++ (bytes " " ++ (em_dash ++ (bytes " " ++ (r.purpose ++ (newline ∷ []))))))
    ++ (bytes "commands for " ++ (r.bot_nick ++ (bytes ":" ++ (newline ∷ []))))
    ++ help_lines r.commands (sort_texts (keys r.commands))
    ++ bytes "type HELP <command> for details"

help_one : Command → Text
help_one cmd =
    to_upper cmd.name
    ++ (bytes " " ++ (em_dash ++ (bytes " " ++ cmd.description)))
    ++ ((newline ∷ []) ++ (bytes "usage: " ++ cmd.usage))

-- helpReply
unfoldable pub help_reply : Router → Context → Text → Reply
unfolding help_all help_one reply_target
help_reply r ctx args =
    let topic = trim_space args in
    record {
      target = reply_target ctx;
      text = if text_eq topic [] then help_all r else (elim (Dict.get r.commands (to_lower topic)) [
        | none ↦
            bytes "unknown command "
            ++ (quote topic
                ++ (bytes " " ++ (em_dash ++ bytes " type HELP for a list of commands")))
        | some cmd ↦ help_one cmd
      ]);
    }

-- greetReply
unfoldable pub greet_reply : Router → Context → Reply
unfolding reply_target
greet_reply r ctx = record {
  target = reply_target ctx;
  text =
      if text_eq r.purpose []
      then bytes "hi "
        ++ (ctx.nick ++ (bytes " " ++ (em_dash ++ bytes " type HELP to see what I can do.")))
      else bytes "hi "
        ++ (ctx.nick
            ++ (bytes " "
                ++ (em_dash
                    ++ (bytes " I'm "
                        ++ (r.bot_nick
                            ++ (bytes ", "
                                ++ (r.purpose ++ bytes ". Type HELP to see what I can do.")))))));
}

-- unknownReply
unfoldable pub unknown_reply : Router → Context → Text → Reply
unfolding reply_target
unknown_reply r ctx name = record {
  target = reply_target ctx;
  text =
      bytes "unknown command "
      ++ (quote name
          ++ (bytes " "
              ++ (em_dash
                  ++ (bytes " available commands: "
                      ++ (join (bytes ", ") (sort_texts (map to_upper (keys r.commands)))
                          ++ bytes ". Type HELP for details.")))));
}
