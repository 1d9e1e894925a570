-- ===== src/Snitch/Floods.antt =====
-- How often a flood is reported.
use scuttlebot.Common.Windows.{within}
use scuttlebot.Common.{
  Option-cases, ◌≢◌, ◌⊎◌, inl, inr, sym, Bool-cases, if◌then◌else◌, text_eq, text_eq_refl, ℕ, ◌+◌,
  ◌*◌, ◌≤◌, Text, text_eq_iff, List, [], ◌∷◌, true, false, ◌&&◌, some, ◌≡◌, refl, ap, ◌∙◌, arith,
  leb, length,
}
use scuttlebot.Common.Dict
use scuttlebot.Common.Dict.{Dict}
use scuttlebot.Snitch.{
  window, within, trim, Alert, flood, cycling, away, offline, on_message, Snitch, record_msg,
  put_window, trimmed, check_flood, is_due, prune_time_map, raise, flood_key, day, second,
}

get-prune_time_map :
    (now age : ℕ) (d : Dict ℕ) (k : Text) (t : ℕ)
    → Dict.get d k ≡ some t
    → now ≤ t + age
    → Dict.get (prune_time_map now age d) k ≡ some t
unfolding prune_time_map Dict.get
get-prune_time_map now age [] k t h young = cc
get-prune_time_map now age ((j, u) ∷ d) k t h young =
    ground (arith, get-prune_time_map now age d k t, text_eq_iff j k)

-- The flood alerts for the nick in the channel, of those raised so far.
pub floods : Text → Text → List Alert → ℕ
floods channel nick [] = 0
floods channel nick (flood n c many ∷ alerts) =
    (if text_eq c channel && text_eq n nick then 1 else 0) + floods channel nick alerts
floods channel nick (cycling n c many ∷ alerts) = floods channel nick alerts
floods channel nick (away n reason ∷ alerts) = floods channel nick alerts
floods channel nick (offline n ∷ alerts) = floods channel nick alerts

-- A message with the two times at which the clock is read for it.
abbrev pub Handled : Type 0
Handled = Text × Text × ℕ × ℕ

-- The snitch after it handled these messages.
unfoldable pub handle_all : List Handled → Snitch → Snitch
handle_all [] b = b
handle_all ((channel, nick, t, t') ∷ ms) b = handle_all ms (on_message channel nick t t' b)

-- The second reading of the clock comes no later than a minute after this time.
abbrev pub Soon : ℕ → List Handled → Type 0
Soon now [] = Unit
Soon now ((c, n, t, t') ∷ ms) = (t' ≤ now + 60 * second) × Soon now ms

-- So many messages of the nick count in the channel now as make a flood.
abbrev pub Flooded : Text → Text → ℕ → Snitch → Type 0
Flooded c n now b =
    b.cfg.flood_messages ≤ length (within now b.cfg.flood_window (window b c n).msgs)

-- A flood of the nick in the channel was noted no longer than a minute ago.
abbrev pub JustNoted : Text → Text → ℕ → Snitch → Type 0
JustNoted c n now b =
    (last : ℕ) × (Dict.get b.alerted (flood_key c n) ≡ some last) × (now ≤ last + 60 * second)

not_due_noted :
    (c n : Text) (t : ℕ) (b : Snitch) → is_due b (flood_key c n) t ≡ false → JustNoted c n t b
unfolding is_due
not_due_noted c n t b h = elim (Option-cases (Dict.get b.alerted (flood_key c n))) [
  | inl e ↦ absurd (ground arith)
  | inr (last, e) ↦ (last, e, ground arith)
]

-- Why a check raises nothing.
quiet_cases :
    (c n : Text) (t : ℕ) (b : Snitch)
    → leb b.cfg.flood_messages (length (trimmed b c n t).msgs) && is_due b (flood_key c n) t ≡ false
    → (¬ Flooded c n t b) ⊎ JustNoted c n t b
unfolding trimmed trim
quiet_cases c n t b h = elim (Bool-cases (is_due b (flood_key c n) t)) [
  | inl due ↦ inl (λ many. absurd (ground arith))
  | inr not_yet ↦ inr (not_due_noted c n t b not_yet)
]

-- A check raises nothing for one of the two reasons, or raises one flood alert and notes the time.
check_cases :
    (c n : Text) (t : ℕ) (b : Snitch)
    → (((check_flood c n t b).alerts ≡ b.alerts)
        × ((check_flood c n t b).alerted ≡ b.alerted)
        × ((¬ Flooded c n t b) ⊎ JustNoted c n t b))
      ⊎ ((many : ℕ) × ((check_flood c n t b).alerts ≡ flood n c many ∷ b.alerts)
          × ((check_flood c n t b).alerted
              ≡ prune_time_map t day (Dict.put b.alerted (flood_key c n) t))
          × (is_due b (flood_key c n) t ≡ true)
          × Flooded c n t b)
unfolding check_flood raise put_window trimmed trim
check_cases c n t b =
    elim (Bool-cases
      (leb b.cfg.flood_messages (length (trimmed b c n t).msgs) && is_due b (flood_key c n) t)) [
        | inl due ↦ inr (
          length (trimmed b c n t).msgs,
          rw (check_flood, due) refl,
          rw (check_flood, due) refl,
          ground arith,
          ground arith,
        )
        | inr quiet ↦
            inl (
              rw (check_flood, quiet) refl,
              rw (check_flood, quiet) refl,
              quiet_cases c n t b quiet,
            )
      ]

not_due :
    (b : Snitch) (key : Text) (now later : ℕ)
    → Dict.get b.alerted key ≡ some now
    → later ≤ now + 60 * second
    → is_due b key later ≡ false
unfolding is_due
not_due b key now later h soon = ground arith

true-ne-false : true ≢ false
true-ne-false h = cc

-- Two keys that differ are not those of one nick in one channel.
key_differs :
    (c n channel nick : Text)
    → text_eq (flood_key c n) (flood_key channel nick) ≡ false
    → text_eq c channel && text_eq n nick ≡ false
key_differs c n channel nick h = elim (Bool-cases (text_eq c channel && text_eq n nick)) [
  | inl same ↦
      let there : c ≡ channel = ground (arith, text_eq_iff c channel) in
      let own : n ≡ nick = ground (arith, text_eq_iff n nick) in
      let k : text_eq (flood_key c n) (flood_key channel nick) ≡ true =
        rw (there, own) (text_eq_refl (flood_key channel nick)) in
      absurd (true-ne-false (sym k ∙ h))
  | inr other ↦ other
]

-- Within the minute after a flood was noted, a check raises none for the same nick and channel, and the
-- note stays.
check_quiet :
    (channel nick c n : Text) (now t : ℕ) (b : Snitch)
    → Dict.get b.alerted (flood_key channel nick) ≡ some now
    → t ≤ now + 60 * second
    → (floods channel nick (check_flood c n t b).alerts ≡ floods channel nick b.alerts)
      × (Dict.get (check_flood c n t b).alerted (flood_key channel nick) ≡ some now)
unfolding floods
check_quiet channel nick c n now t b noted soon = elim (check_cases c n t b) [
  | inl (same, same', _) ↦ (ap (floods channel nick) same, rw same' noted)
  | inr (many, raised, marked, due, flooded) ↦
      let other_key : text_eq (flood_key c n) (flood_key channel nick) ≡ false =
        elim (Bool-cases (text_eq (flood_key c n) (flood_key channel nick))) [
          | inl same ↦
              let k = (text_eq_iff (flood_key c n) (flood_key channel nick)).0 same in
              let late = not_due b (flood_key channel nick) now t noted soon in
              absurd (true-ne-false (sym due ∙ rw k late))
          | inr differs ↦ differs
        ] in
      let other : text_eq c channel && text_eq n nick ≡ false =
        key_differs c n channel nick other_key in
      (
        rw (raised, floods, other) (omega arith),
        rw marked (
            get-prune_time_map t day (Dict.put b.alerted (flood_key c n) t) (flood_key channel nick)
              now
              (Dict.get-put b.alerted (flood_key c n) (flood_key channel nick) t
                ∙ rw other_key noted)
              (omega (arith, soon))),
      )
]

message_quiet :
    (channel nick c n : Text) (now t t' : ℕ) (b : Snitch)
    → Dict.get b.alerted (flood_key channel nick) ≡ some now
    → t' ≤ now + 60 * second
    → (floods channel nick (on_message c n t t' b).alerts ≡ floods channel nick b.alerts)
      × (Dict.get (on_message c n t t' b).alerted (flood_key channel nick) ≡ some now)
unfolding on_message
message_quiet channel nick c n now t t' b noted soon = elim (Bool-cases (text_eq n b.cfg.nick)) [
  | inl self ↦ rw (on_message, self) (refl, noted)
  | inr other ↦
      rw (on_message, other)
        (let b' = record_msg c n t b in
          let same : b'.alerted ≡ b.alerted = unfold record_msg put_window in refl in
          let same' : b'.alerts ≡ b.alerts = unfold record_msg put_window in refl in
          let (quiet, kept) = check_quiet channel nick c n now t' b' (rw same noted) soon in
          (quiet ∙ ap (floods channel nick) same', kept))
]

handled_quiet :
    (channel nick : Text) (now : ℕ) (ms : List Handled) (b : Snitch)
    → Dict.get b.alerted (flood_key channel nick) ≡ some now
    → Soon now ms
    → floods channel nick (handle_all ms b).alerts ≡ floods channel nick b.alerts
unfolding handle_all
handled_quiet channel nick now [] b noted soon = refl
handled_quiet channel nick now ((c, n, t, t') ∷ ms) b noted (soon, rest) =
    let (quiet, kept) = message_quiet channel nick c n now t t' b noted soon in
    handled_quiet channel nick now ms (on_message c n t t' b) kept rest ∙ quiet

-- A check for a flood of a nick in a channel raises no alert, and then too few messages of the nick came
-- within the flood window, or a flood of it was noted in the last minute. Or enough came and the check
-- raises one alert: then, whatever messages of any nicks in any channels are handled in the next minute,
-- no more flood alerts for that nick in that channel are raised.
pub check_flood-once :
    (channel nick : Text) (now : ℕ) (b : Snitch)
    → (((check_flood channel nick now b).alerts ≡ b.alerts)
        × ((¬ Flooded channel nick now b) ⊎ JustNoted channel nick now b))
      ⊎ (Flooded channel nick now b
          × (floods channel nick (check_flood channel nick now b).alerts
              ≡ floods channel nick b.alerts + 1)
          × ((ms : List Handled)
              → Soon now ms
              → floods channel nick (handle_all ms (check_flood channel nick now b)).alerts
                ≡ floods channel nick b.alerts + 1))
unfolding floods
check_flood-once channel nick now b = elim (check_cases channel nick now b) [
  | inl (same, _, why) ↦ inl (same, why)
  | inr (many, raised, marked, due, flooded) ↦
      let one : floods channel nick (check_flood channel nick now b).alerts
          ≡ floods channel nick b.alerts + 1 =
        rw (raised, floods, text_eq_refl channel, text_eq_refl nick) (omega arith) in
      let key = flood_key channel nick in
      let noted : Dict.get (check_flood channel nick now b).alerted key ≡ some now = rw marked (
        get-prune_time_map now day (Dict.put b.alerted key now) key now
          (Dict.get-put_self b.alerted key now) (omega arith)) in
      inr (flooded, one, λ ms soon. handled_quiet channel nick now ms _ noted soon ∙ one)
]
