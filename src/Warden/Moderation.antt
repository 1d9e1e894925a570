-- ===== src/Warden/Moderation.antt =====
-- internal/bots/warden/warden.go: the channels under moderation, what enforcing an action sends, the
-- handler of a channel message and the commands of operators. What the bot sends to IRC is the list of
-- its effects; who is a channel operator is asked of the IRC client, and is an argument.
use scuttlebot.Warden.Loops.{record_channel_message, record_message}
use scuttlebot.Protocol.{unmarshal, Envelope}
use scuttlebot.Warden.Limits.{
  mute, violation, new_channel_state, consume, ChannelConfig, ChannelState, Floats,
}
use scuttlebot.CmdParse.Router.{Context}
use scuttlebot.Warden.Limits.{Action}
use scuttlebot.Common.{
  join, fields, has_prefix, trim_space, ℕ, Text, bytes, text_eq, List, [], ◌∷◌, ◌++◌, Bool, not,
  Option, none, some, Result, ok, err, if◌then◌else◌,
}
use scuttlebot.Common.Dict
use scuttlebot.Warden.Limits.{warn, mute, kick, Action}
use scuttlebot.Common.Dict.{Dict}

pub data Effect : Type 0 where
  notice : Text → Text → Effect
  ban : Text → Text → Effect
  -- The removal of a ban, so many nanoseconds later.
  unban_after : ℕ → Text → Text → Effect
  kick_out : Text → Text → Text → Effect

pub record Bot (fl : Floats) : Type 0 where
  pub channel_configs : Dict (ChannelConfig fl)
  pub default_config : ChannelConfig fl
  pub channels : Dict (ChannelState fl)

unfoldable pub store_channel : {fl : Floats} → Bot fl → Text → ChannelState fl → Bot fl
store_channel b channel cs = record {
  channel_configs = b.channel_configs;
  default_config = b.default_config;
  channels = Dict.put b.channels channel cs;
}

-- channelStateFor
unfoldable pub channel_state_for : {fl : Floats} → Bot fl → Text → ChannelState fl × Bot fl
unfolding store_channel
channel_state_for {fl} b channel = elim (Dict.get b.channels channel) [
  | some cs ↦ (cs, b)
  | none ↦
      let cfg : ChannelConfig fl = elim (Dict.get b.channel_configs channel) [
        | none ↦ b.default_config
        | some c ↦ c
      ] in
      let cs = new_channel_state fl cfg in (cs, store_channel b channel cs)
]

unfoldable pub mask : Text → Text
mask nick = bytes "m:" ++ (nick ++ bytes "!*@*")

-- enforce. The dash of the notices is U+2014 in UTF-8.
unfoldable pub enforce : {fl : Floats} → Bot fl → Text → Text → Action → Text → List Effect × Bot fl
unfolding mask
enforce b channel nick warn reason = (
  notice nick (
        bytes "warden: warning "
        ++ (226 ∷ 128 ∷ 148 ∷ (bytes " " ++ (reason ++ (bytes " in " ++ channel)))))
      ∷ [],
  b,
)
enforce b channel nick mute reason =
    let (cs, b') = channel_state_for b channel in
    (
      notice nick (
            bytes "warden: muted in "
            ++ (channel ++ (bytes " " ++ (226 ∷ 128 ∷ 148 ∷ (bytes " " ++ reason)))))
          ∷ ban channel (mask nick)
          ∷ unban_after cs.cfg.cool_down channel (mask nick)
          ∷ [],
      b',
    )
enforce b channel nick kick reason = (kick_out channel nick (bytes "warden: " ++ reason) ∷ [], b)

-- The end of the handler: the limit on the rate.
unfoldable pub rate_limit :
    {fl : Floats} → Bot fl → ChannelState fl → Text → Text → ℕ → List Effect × Bot fl
rate_limit b cs channel nick now =
    let (allowed, cs') = consume cs nick now now in
    if allowed
    then ([], store_channel b channel cs')
    else let (action, cs'') = violation cs' nick now now in
      enforce (store_channel b channel cs'') channel nick action (bytes "rate limit exceeded")

-- What the handler does with an envelope of a nick that is not an operator. The clock is taken to
-- stand still while one message is handled.
unfoldable pub moderate :
    {fl : Floats} → Bot fl → ChannelState fl → Text → Text → Text → ℕ → List Effect × Bot fl
unfolding rate_limit
moderate b cs channel nick text now =
    let (repeated, cs') = record_message cs nick now text in
    if repeated
    then enforce (store_channel b channel cs') channel nick mute
        (bytes "repetitive message loop detected")
    else let (loop_nick, cs'') = record_channel_message cs' nick text in
      if not (text_eq loop_nick [])
      then enforce (store_channel b channel cs'') channel loop_nick mute
          (bytes "agent ping-pong loop detected")
      else rate_limit b cs'' channel nick now

-- The handler of PRIVMSG for a message that no command answered.
unfoldable pub on_message :
    {fl : Floats}
    → (Text → Option Envelope)
    → (Text → Text → Bool)
    → Bot fl
    → Text
    → Text
    → Text
    → ℕ
    → List Effect × Bot fl
unfolding moderate
on_message decode is_channel_op b channel nick text now =
    if not (has_prefix channel (bytes "#"))
    then ([], b)
    else let (cs, b') = channel_state_for b channel in
      elim (unmarshal decode text) [
        | err e ↦ (
          if has_prefix (trim_space text) (bytes "{")
              then notice nick (bytes "warden: malformed envelope ignored (invalid JSON)") ∷ []
              else [],
          b',
        )
        | ok env ↦
            if is_channel_op channel nick then ([], b') else moderate b' cs channel nick text now
      ]

pub data ArgsError : Type 0 where
  usage : ArgsError
  no_channel : ArgsError

pub record ModArgs : Type 0 where
  pub nick : Text
  pub channel : Text
  pub reason : Text

unfoldable pub mod_args : Text → Text → List Text → Result ArgsError ModArgs
mod_args nick channel rest =
    if text_eq channel []
    then err no_channel
    else ok (record { nick = nick; channel = channel; reason = trim_space (join (bytes " ") rest) })

unfoldable pub named_channel : Text → Text → List Text → Result ArgsError ModArgs
unfolding mod_args
named_channel nick channel [] = mod_args nick channel []
named_channel nick channel (word ∷ rest) =
    if has_prefix word (bytes "#")
    then mod_args nick word rest
    else mod_args nick channel (word ∷ rest)

-- parseModArgs. There is a field when the text is not blank.
unfoldable pub parse_mod_args : Context → Text → Result ArgsError ModArgs
unfolding named_channel
parse_mod_args ctx args =
    if text_eq (trim_space args) [] then err usage else (elim (fields (trim_space args)) [
      | [] ↦ err usage
      | nick ∷ rest ↦ named_channel nick ctx.channel rest
    ])

unfoldable pub suffix : Text → Text
suffix reason = if text_eq reason [] then [] else bytes ": " ++ reason

-- What an operator's command answers.
pub data Answer : Type 0 where
  refused_args : ArgsError → Answer
  not_operator : Text → Answer
  done : Action → Text → Text → Answer

unfoldable pub manual : Action → Text
manual warn = bytes "manual warning by "
manual mute = bytes "manual mute by "
manual kick = bytes "manual kick by "

-- cmdWarn, cmdMute and cmdKick
unfoldable pub moderator_command :
    {fl : Floats}
    → (Text → Text → Bool)
    → Bot fl
    → Action
    → Context
    → Text
    → Answer × (List Effect × Bot fl)
unfolding suffix manual
moderator_command is_channel_op b action ctx args = elim (parse_mod_args ctx args) [
  | err e ↦ (refused_args e, ([], b))
  | ok m ↦ if not (is_channel_op m.channel ctx.nick) then (not_operator m.channel, ([], b)) else (
    done action m.nick m.channel,
    enforce b m.channel m.nick action (manual action ++ (ctx.nick ++ suffix m.reason)),
  )
]
