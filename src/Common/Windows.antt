-- ===== src/Common/Windows.antt =====
-- Times of the recent past.
use scuttlebot.Common.{
  ℤ, pos, negsuc, select, ℕ, ◌+◌, ◌-◌, ◌≤◌, List, [], ◌∷◌, ◌++◌, ◌≡◌, refl, arith, if◌then◌else◌,
  ltb,
}
use scuttlebot.Common.Dict.{Dict}

-- The times after the cutoff.
abbrev pub within : ℕ → ℕ → List ℕ → List ℕ
within now span ts = select (λ t. ltb now (t + span)) ts

-- No time comes before the one it follows.
abbrev pub Ascending : ℕ → List ℕ → Type 0
Ascending last [] = Unit
Ascending last (t ∷ ts) = (last ≤ t) × Ascending t ts

-- The last of the times, or the one before them.
abbrev pub last_of : ℕ → List ℕ → ℕ
last_of t [] = t
last_of t (u ∷ us) = last_of u us

pub within-within :
    (now later span : ℕ) (ts : List ℕ)
    → now ≤ later
    → within later span (within now span ts) ≡ within later span ts
within-within now later span [] h = refl
within-within now later span (t ∷ ts) h = ground (arith, within-within now later span ts h)

pub within-append :
    (now span : ℕ) (ts us : List ℕ)
    → within now span (ts ++ us) ≡ within now span ts ++ within now span us
within-append now span [] us = refl
within-append now span (t ∷ ts) us = ground (arith, within-append now span ts us)

-- A message is looked at with those before it that came less than the span before.
pub noted_within :
    (now later span : ℕ) (past : List ℕ) (ws : List ℕ)
    → within now span ws ≡ within now span past
    → now ≤ later
    → within later span (within now span ws ++ (now ∷ [])) ≡ within later span (past ++ (now ∷ []))
noted_within now later span past ws same h =
    rw
      (
        same,
        within-append later span (within now span past) (now ∷ []),
        within-append later span past (now ∷ []),
        within-within now later span past h,
      )
      refl

-- The time a duration after now; a negative duration goes back.
unfoldable pub after : ℕ → ℤ → ℕ
after now (pos d) = now + d
after now (negsuc d) = now - (d + 1)

-- pruneTimeMap of the bots: the entries that are not older than the age.
unfoldable pub prune_time_map : ℕ → ℕ → Dict ℕ → Dict ℕ
prune_time_map now max_age [] = []
prune_time_map now max_age ((k, t) ∷ d) =
    let rest = prune_time_map now max_age d in if ltb (t + max_age) now then rest else (k, t) ∷ rest
