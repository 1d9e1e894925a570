-- ===== src/Registry/Recovery.antt =====
-- `SetStore` gives back what the table holds, and so what the registry held.
use scuttlebot.Registry.Steps.{run, Call}
use scuttlebot.Registry.Payload.{Crypto}
use scuttlebot.Registry.Model.{new, Outside, of_row, load_rows}
use scuttlebot.Registry.Model.{AgentRow}
use scuttlebot.Registry.Model.{set_store}
use scuttlebot.Registry.Model.{Agent}
use scuttlebot.Registry.Model.{Registry}
use scuttlebot.Common.{
  Text, text_eq_refl, text_eq_iff, List, [], ◌∷◌, Bool, true, Option, none, some, ok, ◌≡◌, inl, inr,
  refl, ap, ◌∙◌, arith, Option-cases,
}
use scuttlebot.Common.Dict
use scuttlebot.Common.Dict.{Dict}
use scuttlebot.Common.Dict.{IsMap, map_option, put-IsMap, get-put}
use scuttlebot.Registry.Mirror.{Mirrors, IsConsistent, durable, durable_of}
use scuttlebot.Registry.Persist.{run-IsConsistent, Writes}

abbrev pub all_decode : AgentRow → Bool
all_decode row = true

-- The rows stand under their own nicks.
abbrev RowsKeyed : Dict AgentRow → Type 0
RowsKeyed rows = (k : Text) (row : AgentRow) → Dict.get rows k ≡ some row → row.nick ≡ k

tail_keyed :
    (k : Text) (row : AgentRow) (rows : Dict AgentRow)
    → IsMap {V = AgentRow} ((k, row) ∷ rows)
    → RowsKeyed ((k, row) ∷ rows)
    → RowsKeyed rows
unfolding Dict.get
tail_keyed k row rows m keyed j row' h = keyed j row' (ground (arith, text_eq_iff k j, m.0))

-- A row that is loaded over what stands in the map so far.
abbrev loaded_or : Option Agent → Option AgentRow → Option Agent
loaded_or before none = before
loaded_or before (some row) = some (of_row row)

load_rows_lem :
    (rows : Dict AgentRow) (d : Dict Agent)
    → IsMap rows
    → RowsKeyed rows
    → ((load_rows all_decode rows d).0 ≡ ok tt)
      × ((k : Text)
          → Dict.get (load_rows all_decode rows d).1 k ≡ loaded_or (Dict.get d k) (Dict.get rows k))
unfolding load_rows Dict.get
load_rows_lem [] d m keyed = (refl, λ k. refl)
load_rows_lem ((j, row) ∷ rows) d m keyed =
    let own : row.nick ≡ j = keyed j row (ground (arith, text_eq_refl j)) in
    let ih =
      load_rows_lem rows (Dict.put d row.nick (of_row row)) m.1 (tail_keyed j row rows m keyed) in
    (ih.0, λ k. ground (arith, ih.1 k, get-put d row.nick k (of_row row), m.0, text_eq_iff j k))

same_row_nick : (row : AgentRow) (a : Agent) → durable row ≡ durable_of a → row.nick ≡ a.nick
unfolding durable durable_of
same_row_nick row a h = ap (λ (x : AgentRow). x.nick) h

rows_keyed :
    (r : Registry) (rows : Dict AgentRow)
    → Mirrors (some rows) r.agents
    → IsConsistent r
    → RowsKeyed rows
rows_keyed r rows m v k row h = elim (Option-cases (Dict.get r.agents k)) [
  | inl e ↦ absurd (ground (arith, m.1 k))
  | inr (a, e) ↦ same_row_nick row a (ground (arith, m.1 k)) ∙ v.keyed k a e
]

-- What a loaded agent shows of itself, but for the last heartbeat: the creation time as it is.
unfoldable pub shown : Agent → AgentRow
shown a = record {
  nick = a.nick;
  agent_type = a.agent_type;
  team = a.team;
  config = a.config;
  created_at = a.created_at;
  revoked = a.revoked;
  last_seen = none;
}

shown-of_row : (row : AgentRow) → shown (of_row row) ≡ durable row
unfolding shown of_row durable
shown-of_row row = refl

reloaded :
    (found : Option AgentRow) → map_option shown (loaded_or none found) ≡ map_option durable found
reloaded none = refl
reloaded (some row) = rw (shown-of_row row) refl

-- Loading the table of a consistent registry, into any registry, gives agents under the same nicks, each
-- with the same type, team, configuration and revocation, created at the same time in whole seconds.
pub reload :
    (r q : Registry) (rows : Dict AgentRow)
    → IsConsistent r
    → r.db ≡ some rows
    → ((set_store all_decode (some rows) q).0 ≡ ok tt)
      × ((k : Text)
          → map_option shown (Dict.get (set_store all_decode (some rows) q).1.agents k)
            ≡ map_option durable_of (Dict.get r.agents k))
unfolding set_store Dict.get
reload r q rows v e =
    let m : Mirrors (some rows) r.agents = rw e at (v.mirrored) in
    let (done, loaded) = load_rows_lem rows [] m.0 (rows_keyed r rows m v) in
    (done, λ k. rw (loaded k) (reloaded (Dict.get rows k) ∙ m.1 k))

-- What the table does not hold is lost: no agent that is loaded has skills.
pub reload_loses_skills :
    (rows : Dict AgentRow) (d : Dict Agent)
    → ((k : Text) (a : Agent) → Dict.get d k ≡ some a → a.skills ≡ [])
    → (k : Text) (a : Agent) → Dict.get (load_rows all_decode rows d).1 k ≡ some a
    → a.skills ≡ []
unfolding load_rows
reload_loses_skills [] d none_yet k a h = none_yet k a h
reload_loses_skills ((j, row) ∷ rows) d none_yet k a h =
    reload_loses_skills rows (Dict.put d row.nick (of_row row))
      (λ i b e. unfold of_row in ground (arith, get-put d row.nick i (of_row row), none_yet i b)) k
      a h

has_table :
    (r : Registry) (db : Option (Dict AgentRow))
    → r.db ≡ db
    → Mirrors db r.agents
    → (rows : Dict AgentRow) × (r.db ≡ some rows)
has_table r none e m = absurd m
has_table r (some rows) e m = (rows, e)

start_IsConsistent : (key : Text) → IsConsistent (set_store all_decode (some []) (new key)).1
unfolding set_store load_rows Dict.get
start_IsConsistent key = record {
  is_map = tt;
  keyed = λ k a h. absurd (ground arith);
  mirrored = (tt, λ k. refl);
}

-- A registry starts on an empty database and goes through any history of which every database write
-- succeeds. After a restart on the same database there are agents under the same nicks as before it,
-- each with the same type, team, configuration and revocation; its creation time has lost the part of
-- a second.
pub recovery :
    (c : Crypto) (key key' : Text) (steps : List (Outside × Call))
    → Writes steps
    → let start = (set_store all_decode (some []) (new key)).1 in
      let before = run c steps start in
      (rows : Dict AgentRow) × (before.db ≡ some rows)
      × (((set_store all_decode (some rows) (new key')).0 ≡ ok tt)
          × ((k : Text)
              → map_option shown (Dict.get (set_store all_decode (some rows) (new key')).1.agents k)
                ≡ map_option durable_of (Dict.get before.agents k)))
recovery c key key' steps w =
    let start = (set_store all_decode (some []) (new key)).1 in
    let v = run-IsConsistent c steps start w (start_IsConsistent key) in
    let (rows, e) = has_table (run c steps start) _ refl v.mirrored in
    (rows, e, reload (run c steps start) (new key') rows v e)
