-- ===== src/Registry/Mirror.antt =====
-- The table of agents mirrors the registry: the invariant and its preservation by each method.
use scuttlebot.Registry.Reaping.{agents-save}
use scuttlebot.Registry.Access.{agents-delete_one}
use scuttlebot.Registry.Register.{agents-save_one}
use scuttlebot.Common.{
  Text, text_eq_iff, true, Option, none, some, ◌≡◌, inl, inr, refl, sym, ap, ◌∙◌, arith,
  Option-cases,
}
use scuttlebot.Common.Dict
use scuttlebot.Common.Dict.{Dict}
use scuttlebot.Common.Dict.{
  IsMap, map_option, put-IsMap, remove-IsMap, map_values-IsMap, get-put, get-remove, get-map_values,
}
use scuttlebot.Registry.Model.{
  Registry, Agent, AgentRow, Outside, to_row, upserted, whole_seconds, save_one, delete_one,
  set_agent, drop_agent, save,
}

-- A row but for the time of the last heartbeat, which is not written at every heartbeat.
unfoldable pub durable : AgentRow → AgentRow
durable row = record row { last_seen = none }

-- What a row should show of an agent: the creation time in whole seconds, and no last heartbeat.
unfoldable pub durable_of : Agent → AgentRow
unfolding whole_seconds
durable_of a = record {
  nick = a.nick;
  agent_type = a.agent_type;
  team = a.team;
  config = a.config;
  created_at = whole_seconds a.created_at;
  revoked = a.revoked;
  last_seen = none;
}

durable-upserted : (a : Agent) → durable (upserted (to_row a)) ≡ durable_of a
unfolding durable upserted to_row durable_of
durable-upserted a = refl

abbrev pub Mirrors : Option (Dict AgentRow) → Dict Agent → Type 0
Mirrors none agents = ⊥
Mirrors (some rows) agents =
    IsMap rows
    × ((k : Text)
        → map_option durable (Dict.get rows k) ≡ map_option durable_of (Dict.get agents k))

-- No nick stands twice, agents stand under their own nicks, and there is a database, which has the
-- same agents as far as rows show them.
pub record IsConsistent (r : Registry) : Type 0 where
  pub is_map : IsMap r.agents
  pub keyed : (k : Text) (a : Agent) → Dict.get r.agents k ≡ some a → a.nick ≡ k
  pub mirrored : Mirrors r.db r.agents

put-Mirrors :
    (rows : Dict AgentRow) (agents : Dict Agent) (a : Agent)
    → Mirrors (some rows) agents
    → Mirrors (some (Dict.put rows a.nick (upserted (to_row a)))) (Dict.put agents a.nick a)
put-Mirrors rows agents a m = (
  put-IsMap rows a.nick (upserted (to_row a)) m.0,
  λ k. ground (
    arith,
    get-put rows a.nick k (upserted (to_row a)),
    get-put agents a.nick k a,
    durable-upserted a,
    m.1 k,
  ),
)

remove-Mirrors :
    (rows : Dict AgentRow) (agents : Dict Agent) (nick : Text)
    → Mirrors (some rows) agents
    → Mirrors (some (Dict.remove rows nick)) (Dict.remove agents nick)
remove-Mirrors rows agents nick m = (
  remove-IsMap rows nick m.0,
  λ k. ground (arith, get-remove rows nick k, get-remove agents nick k, m.1 k),
)

-- The table after the write of one agent, and after a removal.
abbrev put_row : Agent → Option (Dict AgentRow) → Option (Dict AgentRow)
put_row a = map_option (λ rows. Dict.put rows a.nick (upserted (to_row a)))

abbrev pub remove_row : Text → Option (Dict AgentRow) → Option (Dict AgentRow)
remove_row nick = map_option (λ rows. Dict.remove rows nick)

db-save : (o : Outside) (r : Registry) → (save o r).db ≡ r.db
unfolding save
db-save o r = ground arith

db-store :
    (o : Outside) (nick : Text) (a : Agent) (r : Registry)
    → o.db_writes ≡ true
    → (save_one o a (set_agent nick a r)).db ≡ put_row a r.db
unfolding save_one set_agent
db-store o nick a r w = ground arith

db-drop :
    (o : Outside) (nick : Text) (r : Registry)
    → o.db_writes ≡ true
    → (delete_one o nick (drop_agent nick r)).db ≡ remove_row nick r.db
unfolding delete_one drop_agent
db-drop o nick r w = ground arith

agents-store :
    (o : Outside) (nick : Text) (a : Agent) (r : Registry)
    → (save_one o a (set_agent nick a r)).agents ≡ Dict.put r.agents nick a
unfolding set_agent
agents-store o nick a r = agents-save_one o a _

agents-drop :
    (o : Outside) (nick : Text) (r : Registry)
    → (delete_one o nick (drop_agent nick r)).agents ≡ Dict.remove r.agents nick
unfolding drop_agent
agents-drop o nick r = agents-delete_one o nick _

Mirrors-put :
    (db : Option (Dict AgentRow)) (agents : Dict Agent) (a : Agent)
    → Mirrors db agents
    → Mirrors (put_row a db) (Dict.put agents a.nick a)
Mirrors-put none agents a m = absurd m
Mirrors-put (some rows) agents a m = put-Mirrors rows agents a m

Mirrors-remove :
    (db : Option (Dict AgentRow)) (agents : Dict Agent) (nick : Text)
    → Mirrors db agents
    → Mirrors (remove_row nick db) (Dict.remove agents nick)
Mirrors-remove none agents nick m = absurd m
Mirrors-remove (some rows) agents nick m = remove-Mirrors rows agents nick m

-- Two states with the same agents and the same table.
pub same_IsConsistent :
    (r q : Registry) → q.agents ≡ r.agents → q.db ≡ r.db → IsConsistent r → IsConsistent q
same_IsConsistent r q e e' v = record {
  is_map = rw e v.is_map;
  keyed = λ k a h. v.keyed k a (rw e at h);
  mirrored = rw (e, e') v.mirrored;
}

pub store_IsConsistent :
    (o : Outside) (nick : Text) (a : Agent) (r : Registry)
    → o.db_writes ≡ true
    → a.nick ≡ nick
    → IsConsistent r
    → IsConsistent (save_one o a (set_agent nick a r))
store_IsConsistent o nick a r w own v = record {
  is_map = rw agents-store (put-IsMap r.agents nick a v.is_map);
  keyed = λ k b h.
      ground (
        arith,
        agents-store o nick a r,
        get-put r.agents nick k a,
        text_eq_iff nick k,
        v.keyed k b,
      );
  mirrored =
      rw (agents-store, db-store o nick a r w, ← own) (Mirrors-put r.db r.agents a v.mirrored);
}

pub removed_IsConsistent :
    (nick : Text) (r q : Registry)
    → q.agents ≡ Dict.remove r.agents nick
    → q.db ≡ remove_row nick r.db
    → IsConsistent r
    → IsConsistent q
removed_IsConsistent nick r q e e' v = record {
  is_map = rw e (remove-IsMap r.agents nick v.is_map);
  keyed = λ k b h. ground (arith, get-remove r.agents nick k, v.keyed k b);
  mirrored = rw (e, e') (Mirrors-remove r.db r.agents nick v.mirrored);
}

pub drop_IsConsistent :
    (o : Outside) (nick : Text) (r : Registry)
    → o.db_writes ≡ true
    → IsConsistent r
    → IsConsistent (delete_one o nick (drop_agent nick r))
drop_IsConsistent o nick r w v =
    removed_IsConsistent nick r _ (agents-drop o nick r) (db-drop o nick r w) v

pub save-IsConsistent : (o : Outside) (r : Registry) → IsConsistent r → IsConsistent (save o r)
save-IsConsistent o r v = same_IsConsistent r (save o r) (agents-save o r) (db-save o r) v

Mirrors-quiet :
    (db : Option (Dict AgentRow)) (agents : Dict Agent) (nick : Text) (a b : Agent)
    → Dict.get agents nick ≡ some a
    → durable_of b ≡ durable_of a
    → Mirrors db agents
    → Mirrors db (Dict.put agents nick b)
Mirrors-quiet none agents nick a b e same m = absurd m
Mirrors-quiet (some rows) agents nick a b e same m =
    (m.0, λ k. ground (arith, get-put agents nick k b, text_eq_iff nick k, m.1 k))

same_nick : (a b : Agent) → durable_of b ≡ durable_of a → b.nick ≡ a.nick
unfolding durable_of
same_nick a b same = ap (λ (row : AgentRow). row.nick) same

-- A change of an agent that its row does not show needs no write.
pub quiet_IsConsistent :
    (nick : Text) (a b : Agent) (r : Registry)
    → Dict.get r.agents nick ≡ some a
    → durable_of b ≡ durable_of a
    → IsConsistent r
    → IsConsistent (set_agent nick b r)
unfolding set_agent
quiet_IsConsistent nick a b r e same v = record {
  is_map = put-IsMap r.agents nick b v.is_map;
  keyed = λ k c h. ground (
    arith,
    get-put r.agents nick k b,
    text_eq_iff nick k,
    v.keyed k c,
    v.keyed nick a e,
    same_nick a b same,
  );
  mirrored = Mirrors-quiet r.db r.agents nick a b e same v.mirrored;
}

Mirrors-map :
    (f : Agent → Agent) (db : Option (Dict AgentRow)) (agents : Dict Agent)
    → ((a : Agent) → durable_of (f a) ≡ durable_of a)
    → Mirrors db agents
    → Mirrors db (Dict.map_values f agents)
Mirrors-map f none agents quiet m = absurd m
Mirrors-map f (some rows) agents quiet m =
    (m.0, λ k. m.1 k ∙ (rw get-map_values (shown (Dict.get agents k))))
  where
    shown :
        (found : Option Agent)
        → map_option durable_of found ≡ map_option durable_of (map_option f found)
    shown none = refl
    shown (some a) = ap (λ (row : AgentRow). some row) (sym (quiet a))

-- A change of every agent that no row shows.
pub map_IsConsistent :
    (f : Agent → Agent) (r : Registry)
    → ((a : Agent) → durable_of (f a) ≡ durable_of a)
    → IsConsistent r
    → IsConsistent (record r { agents = Dict.map_values f r.agents })
map_IsConsistent f r quiet v = record {
  is_map = map_values-IsMap f r.agents v.is_map;
  keyed = λ k b h. elim (Option-cases (Dict.get r.agents k)) [
    | inl e ↦ absurd (ground (arith, get-map_values f r.agents k))
    | inr (a, e) ↦
        ground (arith, get-map_values f r.agents k, v.keyed k a e, same_nick a (f a) (quiet a))
  ];
  mirrored = Mirrors-map f r.db r.agents quiet v.mirrored;
}
