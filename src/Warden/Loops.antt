-- ===== src/Warden/Loops.antt =====
-- internal/bots/warden/warden.go: repeated messages of one nick, and two nicks that alternate.
use scuttlebot.Warden.Limits.{store, ChannelState, ChannelMsg}
use scuttlebot.Warden.Limits.{Floats}
use scuttlebot.Warden.Limits.{entry}
use scuttlebot.Common.{
  drop, keep_last, ℕ, ◌-◌, Text, text_eq, List, [], ◌∷◌, ◌++◌, Bool, true, false, ◌&&◌, not,
  if◌then◌else◌, ltb, leb, length, count,
}

-- recordMessage
unfoldable pub record_message :
    {fl : Floats} → ChannelState fl → Text → ℕ → Text → Bool × ChannelState fl
unfolding entry store
record_message cs nick created text =
    let ns = entry cs nick created in
    let recent = keep_last 10 (ns.recent_msgs ++ (text ∷ [])) in
    (
      leb 3 (count (λ m. text_eq m text) recent),
      store cs nick (record {
        tokens = ns.tokens;
        last_refill = ns.last_refill;
        violations = ns.violations;
        last_action = ns.last_action;
        recent_msgs = recent;
      }),
    )

-- The loop over the last eight messages: the first nick at even places and the second at odd ones.
unfoldable pub alternates : Text → Text → List ChannelMsg → Bool
alternates a b [] = true
alternates a b (m ∷ ms) = text_eq m.nick a && alternates b a ms

unfoldable pub ping_pong : List ChannelMsg → Bool
unfolding alternates
ping_pong [] = false
ping_pong (m ∷ []) = false
ping_pong (m ∷ m' ∷ ms) = not (text_eq m.nick m'.nick) && alternates m.nick m'.nick (m ∷ m' ∷ ms)

-- recordChannelMessage: the nick to blame, or the empty text.
unfoldable pub record_channel_message :
    {fl : Floats} → ChannelState fl → Text → Text → Text × ChannelState fl
unfolding ping_pong
record_channel_message cs nick text =
    let msgs = keep_last 20 (cs.recent_msgs ++ (record { nick = nick; text = text } ∷ [])) in
    (
      if ltb (length msgs) 8
          then []
          else if ping_pong (drop (length msgs - 8) msgs)
          then nick
          else [],
      record { cfg = cs.cfg; nicks = cs.nicks; recent_msgs = msgs },
    )
