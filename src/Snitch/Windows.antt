-- ===== src/Snitch/Windows.antt =====
-- What the rolling windows of messages hold.
use scuttlebot.Common.Windows.{noted_within, last_of, within}
use scuttlebot.Common.Windows.{Ascending}
use scuttlebot.Common.Recent.{snoc_append, append_nil}
use scuttlebot.Common.{
  inl, inr, Bool-cases, if◌then◌else◌, text_eq, ℕ, ◌≤◌, Text, text_eq_iff, List, [], ◌∷◌, ◌++◌,
  true, false, ◌&&◌, ◌≡◌, refl, ap, ◌∙◌, arith,
}
use scuttlebot.Common.Dict
use scuttlebot.Common.Dict.{Dict}
use scuttlebot.Snitch.{
  within, Config, Snitch, NickWindow, record_msg, window, put_window, trimmed, trim, nicks_of,
}

-- A message: the channel, the nick and the time.
abbrev pub Sent : Type 0
Sent = Text × Text × ℕ

-- The snitch after these messages, of any nicks in any channels, in order.
unfoldable pub record_all : List Sent → Snitch → Snitch
record_all [] b = b
record_all ((channel, nick, t) ∷ ms) b = record_all ms (record_msg channel nick t b)

-- When the messages of the nick in the channel came, and when all came.
abbrev pub times_of : Text → Text → List Sent → List ℕ
times_of channel nick [] = []
times_of channel nick ((c, n, t) ∷ ms) =
    let rest = times_of channel nick ms in
    if text_eq c channel && text_eq n nick then t ∷ rest else rest

abbrev pub all_times : List Sent → List ℕ
all_times [] = []
all_times ((c, n, t) ∷ ms) = t ∷ all_times ms

nicks_of-put_window :
    (b : Snitch) (c n channel : Text) (w : NickWindow)
    → nicks_of (put_window b c n w) channel
      ≡ (if text_eq c channel then Dict.put (nicks_of b channel) n w else nicks_of b channel)
unfolding nicks_of put_window
nicks_of-put_window b c n channel w =
    ground
      (arith, text_eq_iff c channel, Dict.get-put b.windows c channel (Dict.put (nicks_of b c) n w))

window-put_window :
    (b : Snitch) (c n channel nick : Text) (w : NickWindow)
    → window (put_window b c n w) channel nick
      ≡ (if text_eq c channel && text_eq n nick then w else window b channel nick)
unfolding window
window-put_window b c n channel nick w =
    ground (arith, nicks_of-put_window b c n channel w, Dict.get-put (nicks_of b channel) n nick w)

record_msg-own :
    (channel nick c n : Text) (now : ℕ) (b : Snitch)
    → text_eq c channel && text_eq n nick ≡ true
    → (window (record_msg c n now b) channel nick).msgs
      ≡ within now b.cfg.flood_window (window b channel nick).msgs ++ (now ∷ [])
unfolding record_msg trimmed trim
record_msg-own channel nick c n now b same =
    let there : c ≡ channel = ground (arith, text_eq_iff c channel) in
    let own : n ≡ nick = ground (arith, text_eq_iff n nick) in
    ap (λ (w : NickWindow). w.msgs) (window-put_window b c n channel nick _)
    ∙ rw (same, there, own) refl

record_msg-other :
    (channel nick c n : Text) (now : ℕ) (b : Snitch)
    → text_eq c channel && text_eq n nick ≡ false
    → window (record_msg c n now b) channel nick ≡ window b channel nick
unfolding record_msg
record_msg-other channel nick c n now b other =
    window-put_window b c n channel nick _ ∙ rw other refl

cfg-record_msg :
    (channel nick : Text) (now : ℕ) (b : Snitch) → (record_msg channel nick now b).cfg ≡ b.cfg
unfolding record_msg put_window
cfg-record_msg channel nick now b = refl

record_all-lem :
    (channel nick : Text) (span : ℕ) (past : List ℕ) (ms : List Sent) (last now : ℕ) (b : Snitch)
    → b.cfg.flood_window ≡ span
    → ((later : ℕ)
        → last ≤ later
        → within later span (window b channel nick).msgs ≡ within later span past)
    → Ascending last (all_times ms)
    → last_of last (all_times ms) ≤ now
    → within now span (window (record_all ms b) channel nick).msgs
      ≡ within now span (past ++ times_of channel nick ms)
unfolding record_all window
record_all-lem channel nick span past [] last now b set same asc le =
    rw (append_nil past) (same now le)
record_all-lem channel nick span past ((c, n, t) ∷ ms) last now b set same (first, asc) le =
    let b' = record_msg c n t b in
    let set' : b'.cfg.flood_window ≡ span =
      ap (λ (x : Config). x.flood_window) (cfg-record_msg c n t b) ∙ set in
    elim (Bool-cases (text_eq c channel && text_eq n nick)) [
      | inl own ↦
          rw (own, ← snoc_append past t (times_of channel nick ms))
            (record_all-lem channel nick span (past ++ (t ∷ [])) ms t now b' set'
              (λ later h.
                rw (record_msg-own channel nick c n t b own, set)
                  (noted_within t later span past (window b channel nick).msgs (same t first) h))
              asc le)
      | inr other ↦ rw other (
          record_all-lem channel nick span past ms t now b' set'
            (λ later h.
              rw (record_msg-other channel nick c n t b other)
                (same later (omega (arith, first, h))))
            asc le)
    ]

msgs-trimmed :
    (channel nick : Text) (now : ℕ) (b : Snitch)
    → (trimmed b channel nick now).msgs ≡ within now b.cfg.flood_window (window b channel nick).msgs
unfolding trimmed trim
msgs-trimmed channel nick now b = refl

cfg-record_all : (ms : List Sent) (b : Snitch) → (record_all ms b).cfg ≡ b.cfg
unfolding record_all
cfg-record_all [] b = refl
cfg-record_all ((c, n, t) ∷ ms) b = cfg-record_all ms (record_msg c n t b) ∙ cfg-record_msg c n t b

-- Where no message of the nick in the channel was noted before: what counts for a flood, after any messages of any nicks in any channels, the
-- times of which do not go back, are exactly the messages of that nick in that channel that came less
-- than the flood window before now, also where the earlier ones were forgotten step by step.
pub trimmed-record_all :
    (channel nick : Text) (ms : List Sent) (now : ℕ) (b : Snitch)
    → (window b channel nick).msgs ≡ []
    → Ascending 0 (all_times ms)
    → last_of 0 (all_times ms) ≤ now
    → (trimmed (record_all ms b) channel nick now).msgs
      ≡ within now b.cfg.flood_window (times_of channel nick ms)
unfolding record_all
trimmed-record_all channel nick ms now b new asc le =
    rw (msgs-trimmed channel nick now (record_all ms b), cfg-record_all ms b)
      (record_all-lem channel nick b.cfg.flood_window [] ms 0 now b refl (λ later h. rw new refl)
        asc le)
