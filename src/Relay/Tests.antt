-- ===== src/Relay/Tests.antt =====
-- The theorems on the session relay at concrete inputs.
use scuttlebot.Relay.Posting.{post_at_level-wanted, wanted, post_all}
use scuttlebot.Common.{Text, bytes, [], ◌∷◌, Option, none, ◌≡◌}
use scuttlebot.Relay.Levels.{Filtered, Post, full, minimal, action, post_at_level}

abbrev filtered1 : Filtered
filtered1 = record { resolutions = (bytes "#quiet", minimal) ∷ []; default_res = full }

abbrev call1 : Post → Option Text
call1 p = none

post_at_level-wanted_example :
    post_at_level call1 filtered1 (bytes "#quiet" ∷ bytes "#loud" ∷ []) action (bytes "hi") []
    ≡ post_all call1 (wanted filtered1 (bytes "#quiet" ∷ bytes "#loud" ∷ []) action (bytes "hi") [])
post_at_level-wanted_example =
    post_at_level-wanted call1 filtered1 (bytes "#quiet" ∷ bytes "#loud" ∷ []) action (bytes "hi")
      []
