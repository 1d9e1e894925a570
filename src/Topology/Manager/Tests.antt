-- ===== src/Topology/Manager/Tests.antt =====
-- The theorem on the reaper of channels at a concrete input.
use scuttlebot.Common.{
  ◌↔◌, ◌++◌, List, map, reverse, contains_text, pos, Text, bytes, text_eq, [], ◌∷◌, true, none,
  some, ◌≡◌, refl, if◌then◌else◌,
}
use scuttlebot.Common.Dict
use scuttlebot.Common.Dict.{Dict}
use scuttlebot.Topology.{Policy}
use scuttlebot.Topology.Manager.{Manager, ChannelRecord, reap}
use scuttlebot.Topology.Manager.Reaping.{reap-overdue, dropping, Outlived}

abbrev policy1 : Policy
policy1 = record {
  static_channels = [];
  types =
      record {
        name = bytes "task";
        prefix = bytes "task.";
        autojoin = [];
        modes = [];
        supervision = [];
        ephemeral = true;
        ttl = pos 60;
      }
      ∷ [];
}

abbrev manager1 : Manager
manager1 = record {
  nick = bytes "topology";
  oper_pass = [];
  policy = some policy1;
  connected = true;
  sent = [];
  channels =
      (bytes "#task.1", record { name = bytes "#task.1"; provisioned_at = 5 })
      ∷ (bytes "#fleet", record { name = bytes "#fleet"; provisioned_at = 5 })
      ∷ [];
}

reap-overdue_example :
    (m' : Manager) × (names : List Text) × (reap 100 manager1 ≡ some m')
    × (m'.sent ≡ reverse (map dropping names) ++ manager1.sent)
    × ((k : Text)
        → (contains_text names k ≡ true) ↔ (
            (r : ChannelRecord) × (Dict.get manager1.channels k ≡ some r) × Outlived policy1 100 r))
    × ((k : Text)
        → Dict.get m'.channels k
          ≡ (if contains_text names k then none else Dict.get manager1.channels k))
unfolding Dict.get text_eq
reap-overdue_example =
    reap-overdue policy1 100 manager1 refl refl (refl, (refl, tt)) (refl, (refl, tt))
