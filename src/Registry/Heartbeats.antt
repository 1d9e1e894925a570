-- ===== src/Registry/Heartbeats.antt =====
-- What heartbeats write.
use scuttlebot.Registry.Model.{set_agent, Agent, Registry, Outside}
use scuttlebot.Common.{ℕ, ◌+◌, ◌<◌, Text, List, [], ◌∷◌, false, some, ◌≡◌, refl, arith}
use scuttlebot.Common.Dict
use scuttlebot.Common.Dict.{get-put_self, Dict}
use scuttlebot.Registry.Ops.{touch, minute}

-- Heartbeats at the given times; all else that is received stays the same.
abbrev pub touch_all : Outside → Text → List ℕ → Registry → Registry
touch_all o nick [] r = r
touch_all o nick (t ∷ ts) r = touch_all o nick ts (touch (record o { now = t }) nick r)

-- Each time comes less than a minute after the one before it.
abbrev pub Frequent : ℕ → List ℕ → Type 0
Frequent t [] = Unit
Frequent t (u ∷ us) = (u < t + minute) × Frequent u us

-- The last of the times.
abbrev pub last_time : ℕ → List ℕ → ℕ
last_time t [] = t
last_time t (u ∷ us) = last_time u us

touch_quiet :
    (o : Outside) (nick : Text) (r : Registry) (a : Agent) (seen : ℕ)
    → Dict.get r.agents nick ≡ some a
    → a.revoked ≡ false
    → a.last_seen ≡ some seen
    → o.now < seen + minute
    → touch o nick r ≡ set_agent nick (record a { last_seen = some o.now }) r
unfolding touch
touch_quiet o nick r a seen e active known soon = ground arith

-- Heartbeats that come less than a minute apart are never written: the table and the file keep the
-- time that they had, however long this goes on, while the agent in memory has the latest.
pub touch_starves :
    (o : Outside) (nick : Text) (ts : List ℕ) (r : Registry) (a : Agent) (seen : ℕ)
    → Dict.get r.agents nick ≡ some a
    → a.revoked ≡ false
    → a.last_seen ≡ some seen
    → Frequent seen ts
    → let r' = touch_all o nick ts r in
      (r'.db ≡ r.db)
      × (r'.file ≡ r.file)
      × (Dict.get r'.agents nick ≡ some (record a { last_seen = some (last_time seen ts) }))
unfolding set_agent
touch_starves o nick [] r a seen e active known often = (refl, refl, ground arith)
touch_starves o nick (t ∷ ts) r a seen e active known often =
    let b = record a { last_seen = some t } in
    let stored : Dict.get (set_agent nick b r).agents nick ≡ some b =
      get-put_self r.agents nick b in
    let rest = touch_starves o nick ts (set_agent nick b r) b t stored active refl often.1 in
    ground (
      arith,
      touch_quiet (record o { now = t }) nick r a seen e active known often.0,
      rest.0,
      rest.1,
      rest.2,
    )
