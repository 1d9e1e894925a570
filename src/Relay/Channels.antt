-- ===== src/Relay/Channels.antt =====
-- pkg/sessionrelay/sessionrelay.go and channelstate.go: names of channels.
use scuttlebot.Common.{
  split_on, has_prefix, to_lower, contains_text, trim_prefix, join, fields, trim_space, Text, bytes,
  text_eq, List, [], ◌∷◌, ◌++◌, Option, none, some, if◌then◌else◌, ◌==◌, length,
}

-- normalizeChannel
unfoldable pub normalize_channel : Text → Text
normalize_channel channel =
    let c = trim_space channel in
    if text_eq c [] then [] else if has_prefix c (bytes "#") then c else 35 ∷ c

-- channelSlug
unfoldable pub channel_slug : Text → Text
unfolding normalize_channel
channel_slug channel = trim_prefix (normalize_channel channel) (bytes "#")

-- The function `add` of normalizeChannels; the channels so far are the ones seen.
unfoldable pub add_channel : List Text → Text → List Text
add_channel out channel =
    let c = normalize_channel channel in
    if text_eq c [] then out else if contains_text out c then out else out ++ (c ∷ [])

unfoldable pub add_channels : List Text → List Text → List Text
unfolding add_channel
add_channels out [] = out
add_channels out (c ∷ cs) = add_channels (add_channel out c) cs

-- normalizeChannels
unfoldable pub normalize_channels : Text → List Text → List Text
unfolding add_channels
normalize_channels primary channels = add_channels (add_channel [] primary) channels

-- ParseEnvChannels
unfoldable pub parse_env_channels : Text → Text → List Text
unfolding normalize_channels
parse_env_channels primary raw =
    if text_eq (trim_space raw) []
    then normalize_channels primary []
    else normalize_channels primary (split_on 44 raw)

-- ChannelSlugs
unfoldable pub channel_slugs : List Text → List Text
unfolding channel_slug
channel_slugs [] = []
channel_slugs (c ∷ cs) =
    let rest = channel_slugs cs in
    if text_eq (channel_slug c) [] then rest else channel_slug c ∷ rest

-- FormatChannels
unfoldable pub format_channels : List Text → Text
unfolding normalize_channels
format_channels channels =
    if length channels == 0
    then bytes "(none)"
    else join (bytes ", ") (normalize_channels [] channels)

-- The text that WriteChannelStateFile writes, or nothing where no channel is left.
unfoldable pub channel_state_text : Text → List Text → Option Text
unfolding normalize_channels channel_slugs
channel_state_text control channels =
    let slug = channel_slug control in
    let all = normalize_channels slug channels in
    if length all == 0
    then none
    else some (
        join (10 ∷ []) (
          (bytes "SCUTTLEBOT_CHANNEL=" ++ slug)
          ∷ (bytes "SCUTTLEBOT_CHANNELS=" ++ join (bytes ",") (channel_slugs all))
          ∷ []
          ∷ []))

pub data BrokerCommand : Type 0 where
  join_channel : Text → BrokerCommand
  part_channel : Text → BrokerCommand
  list_channels : BrokerCommand

-- The channel of a command, empty when no second word is given.
unfoldable pub named : List Text → Text
named [] = []
named (word ∷ rest) = normalize_channel word

-- ParseBrokerCommand
unfoldable pub parse_broker_command : Text → Option BrokerCommand
unfolding named
parse_broker_command text = elim (fields (trim_space text)) [
  | [] ↦ none
  | word ∷ rest ↦
      if text_eq (to_lower word) (bytes "/join")
      then some (join_channel (named rest))
      else if text_eq (to_lower word) (bytes "/part")
      then some (part_channel (named rest))
      else if text_eq (to_lower word) (bytes "/channels")
      then some list_channels
      else none
]
