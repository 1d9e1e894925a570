-- ===== src/Audit.antt =====
-- The audit bot, internal/bots/auditbot/auditbot.go: which events are recorded, and the throttle on the
-- events of presence. The store of entries is the list of what was appended to it; a failed append is
-- only logged. The clock is an argument. The text of a throttle summary formats a duration, and its
-- parts are kept as they are.
mod Tests
pub mod Throttle
use scuttlebot.Protocol.{unmarshal, Envelope}
use scuttlebot.Common.{
  to_lower, select, has_prefix, min, pos, contains_text, keep_last, positive?, ℤ, ℕ, zero, suc, ◌+◌,
  ◌-◌, ◌*◌, ◌≤◌, ◌<◌, Text, bytes, text_eq, text_eq_refl, text_eq_iff, List, [], ◌∷◌, ◌++◌, Bool,
  true, false, ◌&&◌, ◌||◌, not, Option, none, some, Result, ok, err, ◌≡◌, ◌≢◌, ◌↔◌, ◌⊎◌, inl, inr,
  refl, sym, ap, ◌∙◌, arith, Option-cases, Bool-cases, if◌then◌else◌, ltb, leb, ◌==◌, length, All,
  count,
}
use scuttlebot.Common.Dict
use scuttlebot.Common.Dict.{Dict}

pub data EventKind : Type 0 where
  irc registry system : EventKind

pub data Detail : Type 0 where
  plain : Text → Detail
  throttled : Text → ℕ → ℕ → Detail

pub record Entry : Type 0 where
  pub at : ℕ
  pub kind : EventKind
  pub channel : Text
  pub nick : Text
  pub message_type : Text
  pub message_id : Text
  pub detail : Detail

pub record ThrottleRule : Type 0 where
  pub max : ℤ
  pub window : ℤ

-- A rule in force: both numbers are positive.
pub record Cap : Type 0 where
  pub max : ℕ
  pub window : ℕ

pub record Bucket : Type 0 where
  pub rule : Cap
  pub window_start : ℕ
  pub count : ℕ
  pub dropped : ℕ

pub record AuditBot : Type 0 where
  pub audit_types : List Text
  pub throttle : Dict ThrottleRule
  pub buckets : Dict Bucket
  pub stored : List Entry
  pub recent : List Entry

abbrev pub default_presence_window : ℕ
default_presence_window = 5 * 60 * 1_000_000_000

abbrev default_rule : ThrottleRule
default_rule = record { max = pos 60; window = pos default_presence_window }

-- DefaultThrottleConfig
unfoldable pub default_throttle : Dict ThrottleRule
default_throttle =
    (bytes "user.join", default_rule)
    ∷ (bytes "user.part", default_rule)
    ∷ (bytes "user.quit", default_rule)
    ∷ (bytes "user.nick", default_rule)
    ∷ []

-- New
unfoldable pub new_audit_bot : List Text → AuditBot
unfolding default_throttle
new_audit_bot audit_types = record {
  audit_types = audit_types;
  throttle = default_throttle;
  buckets = [];
  stored = [];
  recent = [];
}

-- SetThrottle
unfoldable pub set_throttle : Dict ThrottleRule → AuditBot → AuditBot
set_throttle cfg b = record b { throttle = cfg; buckets = [] }

-- shouldAudit
unfoldable pub should_audit : AuditBot → Text → Bool
should_audit b ty = length b.audit_types == 0 || contains_text b.audit_types ty

-- write
unfoldable pub write : Entry → ℕ → AuditBot → AuditBot
write e now b =
    let e' = record e { at = now } in
    record b { stored = b.stored ++ (e' ∷ []); recent = keep_last 100 (b.recent ++ (e' ∷ [])) }

-- Record
unfoldable pub record_event : Text → Text → Text → ℕ → AuditBot → AuditBot
unfolding write
record_event nick ty detail now b =
    write
      (record {
        at = 0;
        kind = registry;
        channel = [];
        nick = nick;
        message_type = ty;
        message_id = [];
        detail = plain detail;
      })
      now b

-- The rule of a type that is in force, with the default for a window that is not positive.
unfoldable pub cap_for : AuditBot → Text → Option Cap
cap_for b ty = elim (Dict.get b.throttle ty) [
  | none ↦ none
  | some rule ↦ elim (positive? rule.max) [
    | none ↦ none
    | some m ↦ some (record {
      max = m;
      window = elim (positive? rule.window) [ none ↦ default_presence_window | some w ↦ w ];
    })
  ]
]

-- writeThrottleSummary
unfoldable pub write_summary : Text → ℕ → ℕ → ℕ → AuditBot → AuditBot
unfolding write
write_summary ty dropped window now b =
    write
      (record {
        at = 0;
        kind = system;
        channel = [];
        nick = [];
        message_type = bytes "system.audit.throttled";
        message_id = [];
        detail = throttled ty dropped window;
      })
      now b

unfoldable pub bucket_for : AuditBot → Text → Cap → ℕ → Bucket
bucket_for b ty rule now = elim (Dict.get b.buckets ty) [
  | none ↦ record { rule = rule; window_start = now; count = 0; dropped = 0 }
  | some bk ↦ bk
]

-- The rollover of a bucket whose window is over, with the number of the events it dropped.
unfoldable pub roll_over : Cap → ℕ → Bucket → ℕ × Bucket
roll_over rule now bk =
    if leb bk.rule.window (now - bk.window_start)
    then (bk.dropped, record { rule = rule; window_start = now; count = 0; dropped = 0 })
    else (0, bk)

-- The count at the end of throttleAdmit.
unfoldable pub admit : Bucket → Bool × Bucket
admit bk =
    if ltb bk.count bk.rule.max
    then (true, record bk { count = bk.count + 1 })
    else (false, record bk { dropped = bk.dropped + 1 })

-- throttleAdmit
unfoldable pub throttle_admit : Text → ℕ → AuditBot → Bool × AuditBot
unfolding cap_for write_summary bucket_for roll_over admit
throttle_admit ty now b = elim (cap_for b ty) [
  | none ↦ (true, b)
  | some rule ↦
      let (dropped, bk) = roll_over rule now (bucket_for b ty rule now) in
      let (admitted, bk') = admit bk in
      let b' = if ltb 0 dropped then write_summary ty dropped rule.window now b else b in
      (admitted, record b' { buckets = Dict.put b.buckets ty bk' })
]

-- recordPresence
unfoldable pub record_presence : Text → Text → Text → Text → ℕ → AuditBot → AuditBot
unfolding should_audit throttle_admit write
record_presence ty channel nick detail now b =
    if not (should_audit b ty)
    then b
    else let (admitted, b') = throttle_admit ty now b in
      if not admitted
      then b'
      else write
          (record {
            at = 0;
            kind = irc;
            channel = channel;
            nick = nick;
            message_type = ty;
            message_id = [];
            detail = plain detail;
          })
          now b'

-- handleJoin and handlePart
unfoldable pub handle_join : Text → Text → ℕ → AuditBot → AuditBot
unfolding record_presence
handle_join channel nick now b = record_presence (bytes "user.join") channel nick [] now b

unfoldable pub handle_part : Text → Text → ℕ → AuditBot → AuditBot
unfolding record_presence
handle_part channel nick now b = record_presence (bytes "user.part") channel nick [] now b

-- The loops of handleQuit and handleNick.
unfoldable pub record_each : Text → List Text → Text → Text → ℕ → AuditBot → AuditBot
unfolding record_presence
record_each ty [] nick detail now b = b
record_each ty (ch ∷ chs) nick detail now b =
    record_each ty chs nick detail now (record_presence ty ch nick detail now b)

unfoldable pub record_in : Text → List Text → Text → Text → ℕ → AuditBot → AuditBot
unfolding record_each record_presence
record_in ty channels nick detail now b =
    if length channels == 0
    then record_presence ty [] nick detail now b
    else record_each ty channels nick detail now b

-- handleQuit
unfoldable pub handle_quit : Text → List Text → ℕ → AuditBot → AuditBot
unfolding record_in
handle_quit nick channels now b = record_in (bytes "user.quit") channels nick [] now b

-- handleKick
unfoldable pub handle_kick : Text → Text → Text → Text → ℕ → AuditBot → AuditBot
unfolding record_presence
handle_kick channel kicked kicker reason now b =
    record_presence (bytes "user.kick") channel kicked
      (bytes "by=" ++ (kicker ++ (if text_eq reason [] then [] else bytes " reason=" ++ reason)))
      now b

-- handleNick
unfoldable pub handle_nick : Text → Text → List Text → ℕ → AuditBot → AuditBot
unfolding record_in
handle_nick old_nick new_nick channels now b =
    record_in (bytes "user.nick") channels new_nick
      (bytes "old=" ++ (old_nick ++ (bytes " new=" ++ new_nick))) now b

-- The handler of PRIVMSG, for a message that no command answered.
unfoldable pub on_message : (Text → Option Envelope) → Text → Text → Text → ℕ → AuditBot → AuditBot
unfolding should_audit write
on_message decode channel nick text now b =
    if not (has_prefix channel (bytes "#")) then b else (elim (unmarshal decode text) [
      | err _ ↦ b
      | ok env ↦
          if not (should_audit b env.type)
          then b
          else write
              (record {
                at = 0;
                kind = irc;
                channel = channel;
                nick = nick;
                message_type = env.type;
                message_id = env.id;
                detail = plain [];
              })
              now b
    ])

-- The entries that cmdQuery shows, for a positive limit that was asked for, or 5.
unfoldable pub query_hits : Text → ℕ → AuditBot → List Entry
query_hits target limit b = keep_last (min limit 25) (
    select
      (λ e.
        if has_prefix target (bytes "#")
        then text_eq e.channel target
        else text_eq (to_lower e.nick) (to_lower target))
      b.recent)

-- The entries that cmdRecent shows.
unfoldable pub recent_entries : ℕ → AuditBot → List Entry
recent_entries n b = keep_last (min n 50) b.recent
