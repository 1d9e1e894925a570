-- ===== src/Snitch.antt =====
-- The surveillance bot, internal/bots/snitch/snitch.go: rolling windows of messages and of joins and
-- parts, the alerts and their cool-down. Times are nanoseconds; thresholds and windows are not negative.
-- The text of an alert is a parameter, since it formats durations.
mod Tests
pub mod Windows
pub mod Floods
use scuttlebot.Common.Windows.{within}
use scuttlebot.Common.{
  select, select, select, select, select, select, select, select, select, select, select, select,
  select, select, select, select, select, select, select, to_lower, split_on, map, trim_space,
  has_prefix, select, fields, join, ℕ, zero, suc, ◌+◌, ◌-◌, ◌*◌, ◌≤◌, ◌<◌, Text, bytes, text_eq,
  text_eq_refl, text_eq_iff, List, [], ◌∷◌, ◌++◌, Bool, true, false, ◌&&◌, ◌||◌, not, Option, none,
  some, Result, ok, err, ◌≡◌, ◌≢◌, ◌↔◌, ◌⊎◌, inl, inr, refl, sym, ap, ◌∙◌, arith, Option-cases,
  Bool-cases, if◌then◌else◌, ltb, leb, ◌==◌, length, All, count,
}
use scuttlebot.Common.Dict
use scuttlebot.Common.Dict.{Dict}

pub record Config : Type 0 where
  pub nick : Text
  pub alert_channel : Text
  pub alert_nicks : List Text
  pub flood_messages : ℕ
  pub flood_window : ℕ
  pub join_part_threshold : ℕ
  pub join_part_window : ℕ
  pub monitor_nicks : List Text

abbrev pub second : ℕ
second = 1_000_000_000

unfoldable pub or_default : ℕ → ℕ → ℕ
or_default n d = if n == 0 then d else n

-- setDefaults
unfoldable pub set_defaults : Config → Config
unfolding or_default
set_defaults c = record c {
  nick = if text_eq c.nick [] then bytes "snitch" else c.nick;
  flood_messages = or_default c.flood_messages 10;
  flood_window = or_default c.flood_window (5 * second);
  join_part_threshold = or_default c.join_part_threshold 5;
  join_part_window = or_default c.join_part_window (30 * second);
}

pub record NickWindow : Type 0 where
  pub msgs : List ℕ
  pub join_part : List ℕ

-- trim
unfoldable pub trim : ℕ → ℕ → ℕ → NickWindow → NickWindow
trim now msg_window jp_window w = record {
  msgs = within now msg_window w.msgs;
  join_part = within now jp_window w.join_part;
}

pub data Alert : Type 0 where
  flood : Text → Text → ℕ → Alert
  cycling : Text → Text → ℕ → Alert
  away : Text → Text → Alert
  offline : Text → Alert

-- `alerts` are the alerts raised so far, the last one first.
pub record Snitch : Type 0 where
  pub cfg : Config
  pub windows : Dict (Dict NickWindow)
  pub alerted : Dict ℕ
  pub alerts : List Alert

unfoldable pub nicks_of : Snitch → Text → Dict NickWindow
nicks_of b channel = elim (Dict.get b.windows channel) [ none ↦ [] | some d ↦ d ]

-- window: the window of a nick in a channel, empty when it is made.
unfoldable pub window : Snitch → Text → Text → NickWindow
unfolding nicks_of
window b channel nick = elim (Dict.get (nicks_of b channel) nick) [
  | none ↦ record { msgs = []; join_part = [] }
  | some w ↦ w
]

unfoldable pub put_window : Snitch → Text → Text → NickWindow → Snitch
unfolding nicks_of
put_window b channel nick w = record b {
  windows = Dict.put b.windows channel (Dict.put (nicks_of b channel) nick w);
}

unfoldable pub trimmed : Snitch → Text → Text → ℕ → NickWindow
unfolding window trim
trimmed b channel nick now =
    trim now b.cfg.flood_window b.cfg.join_part_window (window b channel nick)

-- recordMsg
unfoldable pub record_msg : Text → Text → ℕ → Snitch → Snitch
unfolding trimmed put_window
record_msg channel nick now b =
    let w = trimmed b channel nick now in
    put_window b channel nick (record { msgs = w.msgs ++ (now ∷ []); join_part = w.join_part })

unfoldable pub raise : Alert → Snitch → Snitch
raise a b = record b { alerts = a ∷ b.alerts }

-- recordJoinPart
unfoldable pub record_join_part : Text → Text → ℕ → Snitch → Snitch
unfolding trimmed put_window raise
record_join_part channel nick now b =
    let w = trimmed b channel nick now in
    let seen = w.join_part ++ (now ∷ []) in
    if leb b.cfg.join_part_threshold (length seen)
    then raise (cycling nick channel (length seen))
        (put_window b channel nick (record { msgs = w.msgs; join_part = [] }))
    else put_window b channel nick (record { msgs = w.msgs; join_part = seen })

abbrev pub day : ℕ
day = 24 * 60 * 60 * second

-- pruneTimeMap
unfoldable pub prune_time_map : ℕ → ℕ → Dict ℕ → Dict ℕ
prune_time_map now max_age [] = []
prune_time_map now max_age ((k, t) ∷ d) =
    let rest = prune_time_map now max_age d in if ltb (t + max_age) now then rest else (k, t) ∷ rest

unfoldable pub flood_key : Text → Text → Text
flood_key channel nick = bytes "flood:" ++ (channel ++ (bytes ":" ++ nick))

-- Whether no alert under this key was raised in the last minute.
unfoldable pub is_due : Snitch → Text → ℕ → Bool
is_due b key now = elim (Dict.get b.alerted key) [
  | none ↦ true
  | some last ↦ ltb (60 * second) (now - last)
]

-- checkFlood
unfoldable pub check_flood : Text → Text → ℕ → Snitch → Snitch
unfolding trimmed put_window raise is_due prune_time_map flood_key
check_flood channel nick now b =
    let w = trimmed b channel nick now in
    let b' = put_window b channel nick w in
    let key = flood_key channel nick in
    if leb b.cfg.flood_messages (length w.msgs) && is_due b key now
    then raise (flood nick channel (length w.msgs))
        (record b' { alerted = prune_time_map now day (Dict.put b.alerted key now) })
    else b'

-- The handler of PRIVMSG, for a message that no command answered. The clock is read twice.
unfoldable pub on_message : Text → Text → ℕ → ℕ → Snitch → Snitch
unfolding record_msg check_flood
on_message channel nick now now' b =
    if text_eq nick b.cfg.nick
    then b
    else check_flood channel nick now' (record_msg channel nick now b)

-- The handlers of JOIN and of PART; the bot's own nick is skipped in the first only.
unfoldable pub on_join : Text → Text → ℕ → Snitch → Snitch
unfolding record_join_part
on_join channel nick now b =
    if text_eq nick b.cfg.nick then b else record_join_part channel nick now b

unfoldable pub on_part : Text → Text → ℕ → Snitch → Snitch
unfolding record_join_part
on_part channel nick now b = record_join_part channel nick now b

-- The handlers of AWAY and of RPL_MONOFFLINE.
unfoldable pub on_away : Text → Text → Snitch → Snitch
unfolding raise
on_away nick reason b = if text_eq reason [] then b else raise (away nick reason) b

unfoldable pub raise_offline : List Text → Snitch → Snitch
unfolding raise
raise_offline [] b = b
raise_offline (part ∷ parts) b =
    let nick = trim_space part in
    raise_offline parts (if text_eq nick [] then b else raise (offline nick) b)

unfoldable pub on_offline : Text → Snitch → Snitch
unfolding raise_offline
on_offline nicks b = raise_offline (split_on b',' nicks) b

-- alert: the messages sent, with their targets.
unfoldable pub sends_for : (Alert → Text) → Config → Alert → List (Text × Text)
sends_for show cfg a =
    let full = bytes "[snitch] " ++ show a in
    (if text_eq cfg.alert_channel [] then [] else (cfg.alert_channel, full) ∷ [])
    ++ map (λ nick. (nick, full)) cfg.alert_nicks

-- alertDestLabel. The dash is U+2014.
unfoldable pub alert_dest_label : Config → Text
alert_dest_label c =
    if not (text_eq c.alert_channel [])
    then c.alert_channel
    else if ltb 0 (length c.alert_nicks)
    then bytes "DM " ++ join (bytes ",") c.alert_nicks
    else bytes "(none " ++ (226 ∷ 128 ∷ 148 ∷ bytes " alerts log-only)")

-- cmdWatch, without the reply: nothing where no nick is named.
unfoldable pub watch : Text → Snitch → Snitch
watch args b =
    let nick = trim_space args in
    if text_eq nick []
    then b
    else (let cfg = b.cfg in
        record b { cfg = record cfg { monitor_nicks = cfg.monitor_nicks ++ (nick ∷ []) } })

-- cmdUnwatch, without the reply.
unfoldable pub unwatch : Text → Snitch → Snitch
unwatch args b =
    let nick = trim_space args in
    if text_eq nick []
    then b
    else (let cfg = b.cfg in
        record b {
          cfg = record cfg {
            monitor_nicks =
                select (λ n. not (text_eq (to_lower n) (to_lower nick))) cfg.monitor_nicks;
          };
        })

pub data AckReply : Type 0 where
  ack_usage : AckReply
  ack_no_channel : AckReply
  no_cooldown : Text → Text → AckReply
  acknowledged : Text → Text → AckReply

unfoldable pub ack_channel : Text → List Text → Text
ack_channel channel [] = channel
ack_channel channel (word ∷ rest) = if has_prefix word (bytes "#") then word else channel

-- cmdAck
unfoldable pub ack : Text → Text → Snitch → AckReply × Snitch
unfolding ack_channel flood_key
ack context_channel args b = elim (fields (trim_space args)) [
  | [] ↦ (ack_usage, b)
  | nick ∷ rest ↦
      let channel = ack_channel context_channel rest in
      let key = flood_key channel nick in
      if text_eq channel [] then (ack_no_channel, b) else (
        elim (Dict.get b.alerted key) [
          | none ↦ no_cooldown nick channel
          | some _ ↦ acknowledged nick channel
        ],
        record b { alerted = Dict.remove b.alerted key },
      )
]
