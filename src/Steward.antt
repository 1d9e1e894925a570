-- ===== src/Steward.antt =====
-- The steward, internal/bots/steward/steward.go: it acts on the sentinel's reports and on the commands of
-- operators. Durations are written by a parameter, and so are they parsed. A cool-down is not negative.
mod Tests
pub mod Reports
pub mod Keys
pub mod Mutes
use scuttlebot.Common.{
  drop, quote, split_on, take, join, map, reverse, ℤ, index_of, exists, to_lower, trim_space,
  fields, has_prefix, ℕ, zero, suc, ◌+◌, ◌-◌, ◌*◌, ◌≤◌, ◌<◌, Text, bytes, text_eq, text_eq_refl,
  text_eq_iff, List, [], ◌∷◌, ◌++◌, Bool, true, false, ◌&&◌, ◌||◌, not, Option, none, some, Result,
  ok, err, ◌≡◌, ◌≢◌, ◌↔◌, ◌⊎◌, inl, inr, refl, sym, ap, ◌∙◌, arith, Option-cases, Bool-cases,
  if◌then◌else◌, ltb, leb, ◌==◌, length, All, count,
}
use scuttlebot.Common.Dict
use scuttlebot.Common.Dict.{Dict}
use scuttlebot.Common.Windows.{prune_time_map, after}
use scuttlebot.Topology.{equal_fold}
use scuttlebot.Sentinel.{Labels, no_labels, read_parts, is_cooling}

pub record Config : Type 0 where
  pub nick : Text
  pub mod_channel : Text
  pub operator_nicks : List Text
  pub auto_act : Bool
  pub mute_duration : ℤ
  pub silence_low_warnings : Bool
  pub dm_on_action : Bool
  pub cooldown_per_nick : ℕ

-- time.ParseDuration, and the text of a duration rounded to seconds.
pub record Durations : Type 0 where
  pub parse_duration : Text → Option ℤ
  pub show_rounded : ℤ → Text

pub data Command : Type 0 where
  notice : Text → Text → Command
  message : Text → Text → Command
  mode : Text → Text → Text → Command
  kick_user : Text → Text → Text → Command

-- `sent` are the commands sent so far, the last one first.
pub record Steward : Type 0 where
  pub cfg : Config
  pub cooldown : Dict ℕ
  pub mutes : Dict ℕ
  pub sent : List Command

abbrev pub dash : Text
dash = bytes " " ++ (0xE2 ∷ 0x80 ∷ 0x94 ∷ bytes " ")

unfoldable pub send : Command → Steward → Steward
send c b = record b { sent = c ∷ b.sent }

-- announce
unfoldable pub announce : Text → Steward → Steward
announce msg b =
    let full = bytes "[steward] " ++ msg in
    record b {
      sent =
          (if b.cfg.dm_on_action
            then reverse (map (λ op. message op full) b.cfg.operator_nicks)
            else [])
          ++ (message b.cfg.mod_channel full ∷ b.sent);
    }

-- warn
unfoldable pub warn : Text → Text → Text → Steward → Steward
unfolding send announce
warn nick channel reason b =
    announce (bytes "warned " ++ (nick ++ (bytes " in " ++ (channel ++ (dash ++ reason)))))
      (send (notice nick (bytes "[steward] warning in " ++ (channel ++ (bytes ": " ++ reason)))) b)

abbrev mute_mask : Text → Text
mute_mask nick = bytes "m:" ++ (nick ++ bytes "!*@*")

abbrev pub mute_key : Text → Text → Text
mute_key channel nick = channel ++ (bytes ":" ++ nick)

-- mute
unfoldable pub mute : Durations → Text → Text → ℤ → ℕ → Steward → Steward
unfolding send announce
mute dur nick channel d now b =
    let b' = send (mode channel (bytes "+b") (mute_mask nick)) b in
    announce
      (bytes "muted "
        ++ (nick ++ (bytes " in " ++ (channel ++ (bytes " for " ++ dur.show_rounded d)))))
      (record b' { mutes = Dict.put b'.mutes (mute_key channel nick) (after now d) })

-- unmute
unfoldable pub unmute : Text → Text → Steward → Steward
unfolding send announce
unmute nick channel b =
    let b' = send (mode channel (bytes "-b") (mute_mask nick)) b in
    announce (bytes "unmuted " ++ (nick ++ (bytes " in " ++ channel)))
      (record b' { mutes = Dict.remove b'.mutes (mute_key channel nick) })

-- kick
unfoldable pub kick : Text → Text → Text → Steward → Steward
unfolding send announce
kick nick channel reason b =
    announce (bytes "kicked " ++ (nick ++ (bytes " from " ++ (channel ++ (dash ++ reason)))))
      (send (kick_user channel nick reason) b)

-- parseSentinelReport: the channel and the labels
unfoldable pub parse_sentinel_report : Text → Text × Labels
parse_sentinel_report text = elim (index_of (to_lower text) (bytes "incident in")) [
  | none ↦ ([], no_labels)
  | some idx ↦ elim (split_on 124 (drop (idx + length (bytes "incident in")) text)) [
    | [] ↦ ([], no_labels)
    | channel ∷ parts ↦ (trim_space channel, read_parts parts no_labels)
  ]
]

-- What the steward does for a severity.
unfoldable pub act : Durations → Text → Labels → ℕ → Steward → Steward
unfolding kick warn mute
act dur channel l now b =
    if text_eq l.severity (bytes "high")
    then kick l.nick channel l.reason b
    else if text_eq l.severity (bytes "medium")
    then mute dur l.nick channel b.cfg.mute_duration now (warn l.nick channel l.reason b)
    else if text_eq l.severity (bytes "low")
    then if not b.cfg.silence_low_warnings then warn l.nick channel l.reason b else b
    else b

abbrev pub one_day : ℕ
one_day = 24 * 60 * 60_000_000_000

-- handleReport
unfoldable pub handle_report : Durations → Text → ℕ → Steward → Steward
unfolding parse_sentinel_report act
handle_report dur text now b =
    if not (has_prefix text (bytes "[sentinel]"))
    then b
    else let (channel, l) = parse_sentinel_report text in
      if text_eq l.nick [] || text_eq channel []
      then b
      else if is_cooling b.cooldown l.nick b.cfg.cooldown_per_nick now
      then b
      else act dur channel l now
          (record b { cooldown = prune_time_map now one_day (Dict.put b.cooldown l.nick now) })

abbrev or_else : Text → Text → Text
or_else t default = if text_eq t [] then default else t

-- The commands of handleCommand.
unfoldable pub run_command : Durations → Text → Text → Text → Text → Text → ℕ → Steward → Steward
unfolding warn mute kick unmute send
run_command dur op cmd nick channel rest now b =
    if text_eq (to_lower cmd) (bytes "warn")
    then warn nick channel (or_else rest (bytes "operator warning")) b
    else if text_eq (to_lower cmd) (bytes "mute")
    then mute dur nick channel
        (if text_eq rest []
          then b.cfg.mute_duration
          else (elim (dur.parse_duration rest) [ none ↦ b.cfg.mute_duration | some d ↦ d ]))
        now b
    else if text_eq (to_lower cmd) (bytes "kick")
    then kick nick channel (or_else rest (bytes "removed by steward")) b
    else if text_eq (to_lower cmd) (bytes "unmute")
    then unmute nick channel b
    else send (notice op (bytes "steward: unknown command " ++ quote cmd)) b

-- handleCommand
unfoldable pub handle_command : Durations → Text → Text → ℕ → Steward → Steward
unfolding run_command send
handle_command dur op text now b = elim (fields text) [
  | cmd ∷ nick ∷ channel ∷ rest ↦ run_command dur op cmd nick channel (join (bytes " ") rest) now b
  | _ ↦
      send
        (notice op
          (bytes "steward: usage: warn|mute|kick|unmute <nick> <#channel> [reason/duration]"))
        b
]

-- isOperator
unfoldable pub is_operator : Config → Text → Bool
is_operator cfg nick = exists (λ op. equal_fold op nick) cfg.operator_nicks

-- The handler of PRIVMSG, for a message that no command answered.
unfoldable pub on_privmsg : Durations → Text → Text → Text → ℕ → Steward → Steward
unfolding handle_report handle_command is_operator
on_privmsg dur target nick last now b =
    let text = trim_space last in
    if text_eq nick b.cfg.nick
    then b
    else if text_eq target b.cfg.mod_channel && b.cfg.auto_act
    then handle_report dur text now b
    else if not (has_prefix target (bytes "#")) && is_operator b.cfg nick
    then handle_command dur nick text now b
    else b

-- The keys of the mutes that are over.
unfoldable pub expired_mutes : ℕ → Dict ℕ → List Text
expired_mutes now [] = []
expired_mutes now ((key, at) ∷ d) =
    let rest = expired_mutes now d in if ltb at now then key ∷ rest else rest

-- The channel and the nick of a key, before and after the first colon.
unfoldable pub split_key : Text → Option (Text × Text)
split_key key = elim (index_of key (bytes ":")) [
  | none ↦ none
  | some i ↦ some (take i key, drop (i + 1) key)
]

unfoldable pub unmute_keys : List Text → Steward → Steward
unfolding split_key unmute
unmute_keys [] b = b
unmute_keys (key ∷ keys) b =
    unmute_keys keys
      (elim (split_key key) [ none ↦ b | some (channel, nick) ↦ unmute nick channel b ])

unfoldable pub remove_keys : List Text → Dict ℕ → Dict ℕ
remove_keys [] d = d
remove_keys (key ∷ keys) d = remove_keys keys (Dict.remove d key)

-- One turn of unmuteLoop.
unfoldable pub unmute_expired : ℕ → Steward → Steward
unfolding expired_mutes unmute_keys remove_keys
unmute_expired now b =
    let keys = expired_mutes now b.mutes in
    unmute_keys keys (record b { mutes = remove_keys keys b.mutes })
