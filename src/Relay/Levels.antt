-- ===== src/Relay/Levels.antt =====
-- pkg/sessionrelay/level.go, filtered.go and ParseChannelResolutions of channelstate.go. The connector
-- that is wrapped is a parameter: the channels it is in, and what its posts return.
use scuttlebot.Relay.Channels.{normalize_channel}
use scuttlebot.Common.{
  trim_space, to_lower, ℕ, Text, bytes, text_eq, List, [], ◌∷◌, Bool, not, Option, none, some,
  if◌then◌else◌, leb, ◌==◌, length,
}
use scuttlebot.Common.Dict
use scuttlebot.Common.Dict.{Dict}

pub data Level : Type 0 where
  heartbeat : Level
  lifecycle : Level
  action : Level
  content : Level
  reasoning : Level

unfoldable pub level_number : Level → ℕ
level_number heartbeat = 1
level_number lifecycle = 2
level_number action = 3
level_number content = 4
level_number reasoning = 5

pub data Resolution : Type 0 where
  minimal : Resolution
  actions_only : Resolution
  full : Resolution
  debug : Resolution

-- The constants ResMinimal, ResActions, ResFull and ResDebug.
unfoldable pub finest : Resolution → Level
finest minimal = lifecycle
finest actions_only = action
finest full = content
finest debug = reasoning

-- Accepts
unfoldable pub accepts : Resolution → Level → Bool
unfolding level_number finest
accepts r l = leb (level_number l) (level_number (finest r))

-- String
unfoldable pub resolution_name : Resolution → Text
resolution_name minimal = bytes "minimal"
resolution_name actions_only = bytes "actions"
resolution_name full = bytes "full"
resolution_name debug = bytes "debug"

-- ParseResolution
unfoldable pub parse_resolution : Text → Option Resolution
parse_resolution s =
    let name = to_lower (trim_space s) in
    if text_eq name (bytes "minimal")
    then some minimal
    else if text_eq name (bytes "actions")
    then some actions_only
    else if text_eq name (bytes "full")
    then some full
    else if text_eq name (bytes "debug")
    then some debug
    else none

pub record Filtered : Type 0 where
  pub resolutions : Dict Resolution
  pub default_res : Resolution

-- SetResolution
unfoldable pub set_resolution : Filtered → Text → Resolution → Filtered
set_resolution f channel res = record {
  resolutions = Dict.put f.resolutions (normalize_channel channel) res;
  default_res = f.default_res;
}

-- The resolution of a channel in PostAtLevel.
unfoldable pub resolution_of : Filtered → Text → Resolution
resolution_of f channel = elim (Dict.get f.resolutions channel) [
  | some res ↦ res
  | none ↦ f.default_res
]

-- A call of the inner connector: PostToWithMeta where there is meta data, PostTo where there is none.
pub record Post : Type 0 where
  pub channel : Text
  pub text : Text
  pub meta : Option Text

unfoldable pub post_for : Text → Text → Text → Post
post_for channel text meta = record {
  channel = channel;
  text = text;
  meta = if length meta == 0 then none else some meta;
}

-- PostAtLevel: the calls made, in order, and the error of the last of them if there was one. `call` is
-- what the inner connector returns for a call.
unfoldable pub post_at_level :
    {E : Type 0}
    → (Post → Option E)
    → Filtered
    → List Text
    → Level
    → Text
    → Text
    → List Post × Option E
unfolding accepts resolution_of post_for
post_at_level call f [] level text meta = ([], none)
post_at_level call f (ch ∷ chs) level text meta =
    let (posts, e) = post_at_level call f chs level text meta in
    if not (accepts (resolution_of f ch) level)
    then (posts, e)
    else (elim (call (post_for ch text meta)) [
      | some failed ↦ (post_for ch text meta ∷ [], some failed)
      | none ↦ (post_for ch text meta ∷ posts, e)
    ])
