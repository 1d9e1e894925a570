-- ===== src/CmdParse/Dispatch.antt =====
-- `Dispatch`, step by step.
pub mod Attribution
pub mod Targets
use scuttlebot.Common.{
  drop, take, index_of, to_lower, trim_space, has_prefix, ℕ, zero, suc, ◌+◌, ◌-◌, ◌*◌, ◌≤◌, ◌<◌,
  Text, bytes, text_eq, text_eq_refl, text_eq_iff, List, [], ◌∷◌, ◌++◌, Bool, true, false, ◌&&◌,
  ◌||◌, not, Option, none, some, Result, ok, err, ◌≡◌, ◌≢◌, ◌↔◌, ◌⊎◌, inl, inr, refl, sym, ap, ◌∙◌,
  arith, Option-cases, Bool-cases, if◌then◌else◌, ltb, leb, ◌==◌, length, All, count,
}
use scuttlebot.Common.Dict
use scuttlebot.Common.Dict.{Dict}
use scuttlebot.CmdParse.Router.{
  unknown_reply, greet_reply, is_valid_nick, is_greeting, help_reply, Router, Context, Reply,
  reply_target,
}

first_blank : Text → Option ℕ
first_blank [] = none
first_blank (c ∷ s) =
    let later = first_blank s in
    if c == 32 || c == 9 then some 0 else (elim later [ none ↦ none | some i ↦ some (i + 1) ])

-- splitFirst
unfoldable pub split_first : Text → Text × Text
unfolding first_blank
split_first s =
    let t = trim_space s in
    elim (first_blank t) [ none ↦ (t, []) | some i ↦ (take i t, trim_space (drop (i + 1) t)) ]

-- isAddressed
unfoldable pub is_addressed : Router → Text → Bool
is_addressed r text =
    let lower = to_lower text in
    has_prefix lower (r.bot_nick ++ bytes ": ")
    || has_prefix lower (r.bot_nick ++ bytes ",")
    || has_prefix lower (r.bot_nick ++ bytes ":")

-- stripAddress
unfoldable pub strip_address : Router → Text → Text
strip_address r text =
    let lower = to_lower text in
    if has_prefix lower (r.bot_nick ++ bytes ": ")
    then trim_space (drop (length (r.bot_nick ++ bytes ": ")) text)
    else if has_prefix lower (r.bot_nick ++ bytes ",")
    then trim_space (drop (length (r.bot_nick ++ bytes ",")) text)
    else if has_prefix lower (r.bot_nick ++ bytes ":")
    then trim_space (drop (length (r.bot_nick ++ bytes ":")) text)
    else text

-- The sender and the text after the bridge's "[nick] " is taken off, or as they are. The code
-- returns at once where nothing is left of the text, and so does `dispatch`.
unfoldable pub attribution : Text → Text → Text × Text
attribution nick text =
    if has_prefix text (bytes "[")
    then (elim (index_of text (bytes "] ")) [
      | none ↦ (nick, text)
      | some end ↦
          let real = take (end - 1) (drop 1 text) in
          if ltb 1 end && is_valid_nick real
          then (real, trim_space (drop (end + 2) text))
          else (nick, text)
    ])
    else (nick, text)

-- The command line of a message, with its context, or nothing if it is not for this bot.
unfoldable pub command_line : Router → Text → Text → Text → Option (Context × Text)
unfolding is_addressed strip_address
command_line r nick target text =
    if not (has_prefix target (bytes "#"))
    then some (record { nick = nick; channel = []; is_dm = true }, text)
    else if has_prefix text (bytes "!")
    then some (record { nick = nick; channel = target; is_dm = false }, drop 1 text)
    else if is_addressed r text
    then some (record { nick = nick; channel = target; is_dm = false }, strip_address r text)
    else none

-- What is answered to a command.
unfoldable pub execute : Router → Context → Text → Option Reply
unfolding split_first reply_target
execute r ctx line =
    let (name, args) = split_first line in
    let key = to_lower name in
    if text_eq key (bytes "help")
    then some (help_reply r ctx args)
    else (elim (Dict.get r.commands key) [
      | none ↦ some (if is_greeting name then greet_reply r ctx else unknown_reply r ctx name)
      | some cmd ↦
          let response = cmd.handler ctx args in
          if text_eq response []
          then none
          else some (record { target = reply_target ctx; text = response })
    ])

unfoldable pub run_line : Router → Option (Context × Text) → Option Reply
unfolding execute
run_line r none = none
run_line r (some (ctx, line)) =
    let cut = trim_space line in if text_eq cut [] then none else execute r ctx cut

-- What Dispatch does once the sender is known.
unfoldable pub dispatch_from : Router → Text → Text → Text → Option Reply
unfolding command_line run_line
dispatch_from r nick target text =
    if text_eq text [] then none else run_line r (command_line r nick target text)

-- Dispatch
unfoldable pub dispatch : Router → Text → Text → Text → Option Reply
unfolding attribution dispatch_from
dispatch r nick target message =
    let text = trim_space message in
    if text_eq text []
    then none
    else let (sender, body) = attribution nick text in dispatch_from r sender target body
