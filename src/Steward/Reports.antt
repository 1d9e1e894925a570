-- ===== src/Steward/Reports.antt =====
-- What the steward reads in a report of the sentinel.
use scuttlebot.Common.{
  split_on-join, has_prefix, drop_while, split_on, is_space, lower_byte, to_lower, trim_left,
  contains_byte, join, index_of, Text, bytes, List, [], ◌∷◌, ◌++◌, false, some, ◌≡◌, refl, sym, ap,
  ◌∙◌,
}
use scuttlebot.Common.Trimming.{
  Trimmed, Trimmed-append, trim_space-before, trim_space-around, contains_byte-append,
}
use scuttlebot.Common.Recent.{snoc_append}
use scuttlebot.Sentinel.{Labels, no_labels, report, read_part, read_parts}
use scuttlebot.Steward.{parse_sentinel_report}

-- A trimmed text without a bar, as one part of a report.
abbrev pub Plain : Text → Type 0
Plain s = Trimmed s × (contains_byte s 124 ≡ false)

-- The text after "incident in", and its parts between the bars.
abbrev after_in : Text → Labels → Text
after_in channel l =
    32
    ∷ (channel
        ++ (bytes " | nick: "
            ++ (l.nick
                ++ (bytes " | severity: " ++ (l.severity ++ (bytes " | reason: " ++ l.reason))))))

abbrev padded : Text → Text
padded s = 32 ∷ (s ++ (32 ∷ []))

abbrev parts_of : Text → Labels → List Text
parts_of channel l =
    padded channel
    ∷ padded (bytes "nick: " ++ l.nick)
    ∷ padded (bytes "severity: " ++ l.severity)
    ∷ (32 ∷ (bytes "reason: " ++ l.reason))
    ∷ []

joined : (channel : Text) (l : Labels) → join (124 ∷ []) (parts_of channel l) ≡ after_in channel l
unfolding join
joined channel l =
    rw (snoc_append channel 32 _, snoc_append l.nick 32 _, snoc_append l.severity 32 _) refl

padded-plain : (s : Text) → contains_byte s 124 ≡ false → contains_byte (padded s) 124 ≡ false
unfolding contains_byte
padded-plain s h = rw (contains_byte-append s (32 ∷ []) 124, h) refl

split_report :
    (channel : Text) (l : Labels)
    → Plain channel
    → Plain l.nick
    → Plain l.severity
    → Plain l.reason
    → split_on 124 (after_in channel l) ≡ parts_of channel l
unfolding contains_byte
split_report channel l (_, c) (_, n) (_, s) (_, r) =
    ap (λ t. split_on 124 t) (sym (joined channel l))
    ∙ split_on-join 124 (padded channel)
        (padded (bytes "nick: " ++ l.nick)
          ∷ padded (bytes "severity: " ++ l.severity)
          ∷ (32 ∷ (bytes "reason: " ++ l.reason))
          ∷ [])
        (
          padded-plain channel c,
          (
            padded-plain (bytes "nick: " ++ l.nick) n,
            (padded-plain (bytes "severity: " ++ l.severity) s, (r, tt)),
          ),
        )

read_nick :
    (s : Text) (l : Labels)
    → Trimmed s
    → read_part (padded (bytes "nick: " ++ s)) l ≡ record l { nick = s }
unfolding read_part trim_left is_space drop_while has_prefix
read_nick s l t =
    let whole =
      trim_space-around (bytes "nick: " ++ s) (Trimmed-append (bytes "nick: ") s refl t) in
    rw (read_part, whole, trim_space-before s t) refl

read_severity :
    (s : Text) (l : Labels)
    → Trimmed s
    → to_lower s ≡ s
    → read_part (padded (bytes "severity: " ++ s)) l ≡ record l { severity = s }
unfolding read_part trim_left is_space drop_while has_prefix
read_severity s l t low =
    let whole =
      trim_space-around (bytes "severity: " ++ s) (Trimmed-append (bytes "severity: ") s refl t) in
    rw (read_part, whole, trim_space-before s t, low) refl

read_reason :
    (s : Text) (l : Labels)
    → Trimmed s
    → read_part (32 ∷ (bytes "reason: " ++ s)) l ≡ record l { reason = s }
unfolding read_part trim_left is_space drop_while has_prefix
read_reason s l t =
    let whole =
      trim_space-before (bytes "reason: " ++ s) (Trimmed-append (bytes "reason: ") s refl t) in
    rw (read_part, whole, trim_space-before s t) refl

found_in :
    (channel : Text) (l : Labels)
    → index_of (to_lower (report channel l)) (bytes "incident in") ≡ some 11
unfolding index_of to_lower lower_byte has_prefix report
found_in channel l = refl

-- The steward reads in a report of the sentinel the channel, the nick, the severity and the reason that it
-- is about, where each is trimmed, not empty and without a bar, and the severity is in lower case.
pub parse_sentinel_report-report :
    (channel : Text) (l : Labels)
    → Plain channel
    → Plain l.nick
    → Plain l.severity
    → Plain l.reason
    → to_lower l.severity ≡ l.severity
    → parse_sentinel_report (report channel l) ≡ (channel, l)
unfolding parse_sentinel_report read_parts report
parse_sentinel_report-report channel l c n s r low =
    rw
      (
        parse_sentinel_report,
        found_in channel l,
        split_report channel l c n s r,
        trim_space-around channel c.0,
        read_nick l.nick no_labels n.0,
        read_severity l.severity (record no_labels { nick = l.nick }) s.0 low,
      )
      (ap (λ (x : Labels). (channel, x)) (read_reason l.reason _ r.0))
