-- ===== src/Sentinel.antt =====
-- The sentinel, internal/bots/sentinel/sentinel.go: the windows of messages that it hands to a language model
-- and the incidents that it reports. The model's answer is an argument, and so is the time. Durations are
-- not negative, and the window is not empty.
use scuttlebot.Common.{
  to_lower, to_upper, drop, map, has_prefix, keep_last, reverse, trim_space, split_on, ℕ, ◌-◌, ◌*◌,
  Text, bytes, text_eq, List, [], ◌∷◌, ◌++◌, Bool, true, false, ◌&&◌, ◌||◌, not, Option, none, some,
  if◌then◌else◌, ltb, leb, ◌==◌, length,
}
use scuttlebot.Common.Dict
use scuttlebot.Common.Dict.{Dict}
use scuttlebot.Common.Windows.{prune_time_map}
use scuttlebot.Topology.{equal_fold}

pub record Config : Type 0 where
  pub nick : Text
  pub mod_channel : Text
  pub dm_operators : Bool
  pub alert_nicks : List Text
  pub policy : Text
  pub window_size : ℕ
  pub window_age : ℕ
  pub cooldown_per_nick : ℕ
  pub min_severity : Text

abbrev minutes : ℕ → ℕ
minutes n = n * 60_000_000_000

abbrev text_or : Text → Text → Text
text_or t default = if text_eq t [] then default else t

abbrev number_or : ℕ → ℕ → ℕ
number_or n default = if n == 0 then default else n

-- setDefaults
unfoldable pub set_defaults : Config → Config
set_defaults c = record {
  nick = text_or c.nick (bytes "sentinel");
  mod_channel = text_or c.mod_channel (bytes "#moderation");
  dm_operators = c.dm_operators;
  alert_nicks = c.alert_nicks;
  policy =
      text_or c.policy
        (bytes "Flag harassment, hate speech, spam, threats, and coordinated manipulation.");
  window_size = number_or c.window_size 20;
  window_age = number_or c.window_age (minutes 5);
  cooldown_per_nick = number_or c.cooldown_per_nick (minutes 10);
  min_severity = text_or c.min_severity (bytes "medium");
}

pub record MsgEntry : Type 0 where
  pub at : ℕ
  pub nick : Text
  pub text : Text

pub record ChanBuffer : Type 0 where
  pub msgs : List MsgEntry
  pub last_scan : ℕ

pub record Incident : Type 0 where
  pub at : ℕ
  pub channel : Text
  pub nick : Text
  pub severity : Text
  pub reason : Text

-- `sent` are the messages sent so far, the last one first.
pub record Sentinel : Type 0 where
  pub cfg : Config
  pub buffers : Dict ChanBuffer
  pub cooldown : Dict ℕ
  pub recent : List Incident
  pub sent : List (Text × Text)

-- New
unfoldable pub new_sentinel : Config → Sentinel
unfolding set_defaults
new_sentinel cfg = record {
  cfg = set_defaults cfg;
  buffers = [];
  cooldown = [];
  recent = [];
  sent = [];
}

-- buffer, with the messages to analyse when the window is full
unfoldable pub buffer : Text → Text → Text → ℕ → Sentinel → Option (List MsgEntry) × Sentinel
buffer channel nick text now b =
    let buf : ChanBuffer = elim (Dict.get b.buffers channel) [
      | none ↦ record { msgs = []; last_scan = now }
      | some buf ↦ buf
    ] in
    let msgs = buf.msgs ++ (record { at = now; nick = nick; text = text } ∷ []) in
    if leb b.cfg.window_size (length msgs)
    then (
      some msgs,
      record b { buffers = Dict.put b.buffers channel (record { msgs = []; last_scan = now }) },
    )
    else (
      none,
      record b {
        buffers = Dict.put b.buffers channel (record { msgs = msgs; last_scan = buf.last_scan });
      },
    )

-- The test of flushStale.
unfoldable pub is_stale : ℕ → ℕ → ChanBuffer → Bool
is_stale age now buf = not (length buf.msgs == 0) && leb age (now - buf.last_scan)

-- flushStale on the buffers, with the windows to analyse
unfoldable pub flush_stale : ℕ → ℕ → Dict ChanBuffer → List (Text × List MsgEntry) × Dict ChanBuffer
unfolding is_stale
flush_stale age now [] = ([], [])
flush_stale age now ((ch, buf) ∷ d) =
    let (work, rest) = flush_stale age now d in
    if is_stale age now buf
    then ((ch, buf.msgs) ∷ work, (ch, record { msgs = []; last_scan = now }) ∷ rest)
    else (work, (ch, buf) ∷ rest)

-- The nick, the severity and the reason that were read so far.
pub record Labels : Type 0 where
  pub nick : Text
  pub severity : Text
  pub reason : Text

-- The part after a label, trimmed.
abbrev pub labelled : Text → Text → Text
labelled part label = trim_space (drop (length label) part)

-- One part of a line of incident: the code of sentinel and of steward is the same.
unfoldable pub read_part : Text → Labels → Labels
read_part part l =
    let p = trim_space part in
    if has_prefix p (bytes "nick:")
    then record l { nick = labelled p (bytes "nick:") }
    else if has_prefix p (bytes "severity:")
    then record l { severity = to_lower (labelled p (bytes "severity:")) }
    else if has_prefix p (bytes "reason:")
    then record l { reason = labelled p (bytes "reason:") }
    else l

unfoldable pub read_parts : List Text → Labels → Labels
unfolding read_part
read_parts [] l = l
read_parts (part ∷ parts) l = read_parts parts (read_part part l)

abbrev pub no_labels : Labels
no_labels = record { nick = []; severity = []; reason = [] }

-- parseIncidentLine
unfoldable pub parse_incident_line : Text → Labels
unfolding read_parts
parse_incident_line line =
    let l = read_parts (split_on 124 line) no_labels in
    record {
      nick = text_or l.nick (bytes "unknown");
      severity = text_or l.severity (bytes "medium");
      reason = l.reason;
    }

-- The order of severities.
unfoldable pub severity_order : Text → Option ℕ
severity_order s =
    if text_eq s (bytes "low")
    then some 0
    else if text_eq s (bytes "medium")
    then some 1
    else if text_eq s (bytes "high")
    then some 2
    else none

-- severityMeetsMin
unfoldable pub severity_meets_min : Text → Text → Bool
unfolding severity_order
severity_meets_min min_severity severity = elim (severity_order severity) [
  | none ↦ true
  | some got ↦ leb (elim (severity_order min_severity) [ none ↦ 0 | some min ↦ min ]) got
]

-- The text of a report.
unfoldable pub report : Text → Labels → Text
report channel l =
    bytes "[sentinel] incident in "
    ++ (channel
        ++ (bytes " | nick: "
            ++ (l.nick
                ++ (bytes " | severity: " ++ (l.severity ++ (bytes " | reason: " ++ l.reason))))))

-- recordIncident
unfoldable pub record_incident : Text → Labels → ℕ → Sentinel → Sentinel
record_incident channel l now b = record b {
  recent = keep_last 50 (
      b.recent
      ++ (record {
        at = now;
        channel = channel;
        nick = l.nick;
        severity = l.severity;
        reason = l.reason;
      }
          ∷ []));
}

abbrev cooldown_key : Text → Text → Text
cooldown_key channel nick = channel ++ (bytes ":" ++ nick)

unfoldable pub is_cooling : Dict ℕ → Text → ℕ → ℕ → Bool
is_cooling cooldown key span now = elim (Dict.get cooldown key) [
  | none ↦ false
  | some last ↦ ltb (now - last) span
]

-- The report of one incident that is due.
unfoldable pub post : Text → Labels → ℕ → Sentinel → Sentinel
unfolding report record_incident
post channel l now b =
    let b' = record_incident channel l now b in
    let text = report channel l in
    record b' {
      cooldown =
          prune_time_map now (minutes 1_440)
            (Dict.put b.cooldown (cooldown_key channel l.nick) now);
      sent =
          (if b.cfg.dm_operators
            then reverse (map (λ nick. (nick, text)) b.cfg.alert_nicks)
            else [])
          ++ ((b.cfg.mod_channel, text) ∷ b.sent);
    }

-- One line of parseAndReport.
unfoldable pub report_line : Text → Text → ℕ → Sentinel → Sentinel
unfolding parse_incident_line severity_meets_min is_cooling post
report_line channel raw now b =
    let line = trim_space raw in
    if text_eq line [] || equal_fold line (bytes "CLEAN")
    then b
    else if not (has_prefix (to_upper line) (bytes "INCIDENT"))
    then b
    else let l = parse_incident_line line in
      if not (severity_meets_min b.cfg.min_severity l.severity)
      then b
      else if is_cooling b.cooldown (cooldown_key channel l.nick) b.cfg.cooldown_per_nick now
      then b
      else post channel l now b

unfoldable pub report_lines : Text → List Text → ℕ → Sentinel → Sentinel
unfolding report_line
report_lines channel [] now b = b
report_lines channel (line ∷ lines) now b =
    report_lines channel lines now (report_line channel line now b)

-- parseAndReport, at one time
unfoldable pub parse_and_report : Text → Text → ℕ → Sentinel → Sentinel
unfolding report_lines
parse_and_report channel result now b = report_lines channel (split_on 10 (trim_space result)) now b
