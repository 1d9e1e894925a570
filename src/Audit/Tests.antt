-- ===== src/Audit/Tests.antt =====
-- The theorem on the audit bot at a concrete input.
use scuttlebot.Common.{◌+◌, inr, min, ℕ, bytes, text_eq, List, [], ◌∷◌, ◌≡◌, refl, arith, length}
use scuttlebot.Common.Dict
use scuttlebot.Common.Dict.{Dict}
use scuttlebot.Audit.{AuditBot, Bucket, Cap, new_audit_bot, cap_for, default_presence_window}
use scuttlebot.Audit.Throttle.{InWindow, admit_all, admit_all_new}

abbrev rule1 : Cap
rule1 = record { max = 60; window = default_presence_window }

-- A bot whose window for the type has passed, with the cap reached.
abbrev spent1 : Bucket
spent1 = record { rule = rule1; window_start = 0; count = 60; dropped = 2 }

abbrev bot1 : AuditBot
bot1 = let b = new_audit_bot [] in record b { buckets = (bytes "user.join", spent1) ∷ [] }

abbrev start1 : ℕ
start1 = default_presence_window + 5

abbrev times1 : List ℕ
times1 = (default_presence_window + 6) ∷ []

admit_all_new_example :
    (admit_all (bytes "user.join") (start1 ∷ times1) bot1).0
    ≡ min (length (start1 ∷ times1)) rule1.max
unfolding cap_for new_audit_bot Dict.get text_eq InWindow
admit_all_new_example =
    admit_all_new (bytes "user.join") start1 times1 bot1 rule1 refl
      (inr (spent1, refl, omega arith)) (omega arith) (omega arith, omega arith, tt)
