-- ===== src/IrcAgent/Tests.antt =====
-- The theorem on mentions at a concrete input.
use scuttlebot.Common.{to_lower, ℕ, bytes, true, false, ◌≡◌, ◌⊎◌, arith}
use scuttlebot.IrcAgent.{mentions_nick, answer}
use scuttlebot.IrcAgent.Mentions.{mention_at, mentions_nick-Decides}

mentions_nick-Decides_example :
    ((mentions_nick (bytes "ask Claude-2, or Claude") (bytes "claude") ≡ answer true)
      × (i : ℕ) × (mention_at
            (to_lower (bytes "ask Claude-2, or Claude"))
            (to_lower (bytes "claude"))
            i
          ≡ true))
    ⊎ ((mentions_nick (bytes "ask Claude-2, or Claude") (bytes "claude") ≡ answer false)
        × ((i : ℕ)
            → mention_at (to_lower (bytes "ask Claude-2, or Claude")) (to_lower (bytes "claude")) i
              ≡ false))
mentions_nick-Decides_example =
    mentions_nick-Decides (bytes "ask Claude-2, or Claude") (bytes "claude") (omega arith)
