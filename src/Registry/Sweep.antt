-- ===== src/Registry/Sweep.antt =====
-- The methods that go over all agents: `SetOnlineTimeout`, `List` and `Reap`.
use scuttlebot.Common.{
  ℕ, ◌+◌, ◌-◌, ◌*◌, Text, List, [], ◌∷◌, Bool, false, ◌&&◌, not, none, some, if◌then◌else◌, ltb,
}
use scuttlebot.Common.Dict
use scuttlebot.Common.Dict.{Dict}
use scuttlebot.Common.{positive?, ℤ}
use scuttlebot.Registry.Model.{values, Agent, Outside, save, drop_agent, Registry}

unfoldable pub set_online_timeout : ℤ → Registry → Registry
set_online_timeout d r = record r { online_timeout = d }

abbrev pub default_online_timeout : ℕ
default_online_timeout = 120 * 1_000_000_000

-- getOnlineTimeout
unfoldable pub get_online_timeout : Registry → ℕ
get_online_timeout r = elim (positive? r.online_timeout) [
  | none ↦ default_online_timeout
  | some n ↦ n
]

-- The body of the loop of List.
unfoldable pub refresh_online : ℕ → ℕ → Agent → Agent
refresh_online now threshold a = record a {
  online = elim a.last_seen [ none ↦ false | some seen ↦ ltb (now - seen) threshold ];
}

-- List: the online flags are written back into the registry.
unfoldable pub list : ℕ → Registry → List Agent × Registry
unfolding refresh_online
list now r =
    let agents = Dict.map_values (refresh_online now (get_online_timeout r)) r.agents in
    (values agents, record r { agents = agents })

-- The time that counts for the age of an agent.
unfoldable pub reference_time : Agent → ℕ
reference_time a = elim a.last_seen [ none ↦ a.created_at | some seen ↦ seen ]

unfoldable pub is_stale : ℕ → Agent → Bool
unfolding reference_time
is_stale cutoff a = not a.online && ltb (reference_time a) cutoff

unfoldable pub reap_one : Outside → Text → Registry → Registry
unfolding drop_agent
reap_one o nick r = elim r.db [
  | none ↦ drop_agent nick r
  | some rows ↦
      drop_agent nick (if o.db_writes then record r { db = some (Dict.remove rows nick) } else r)
]

-- The loop of Reap over the entries of the map, with the number of agents removed so far.
unfoldable pub reap_loop : Outside → ℕ → Dict Agent → ℕ → Registry → ℕ × Registry
unfolding is_stale reap_one
reap_loop o cutoff [] reaped r = (reaped, r)
reap_loop o cutoff ((nick, a) ∷ rest) reaped r =
    let stale = is_stale cutoff a in
    reap_loop o cutoff rest (if stale then reaped + 1 else reaped)
      (if stale then reap_one o nick r else r)

-- A time before the zero time counts as the zero time: no reference time lies before either.
unfoldable pub reap : Outside → ℤ → Registry → ℕ × Registry
unfolding reap_loop save
reap o max_age r = elim (positive? max_age) [
  | none ↦ (0, r)
  | some age ↦
      let (reaped, r') = reap_loop o (o.now - age) r.agents 0 r in
      (reaped, elim r'.db [ none ↦ if ltb 0 reaped then save o r' else r' | some _ ↦ r' ])
]
