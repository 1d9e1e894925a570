-- ===== src/Snitch/Tests.antt =====
-- The theorems on the snitch at concrete inputs.
use scuttlebot.Common.{◌⊎◌, ◌+◌, bytes, List, [], ◌∷◌, ◌≡◌, refl, arith}
use scuttlebot.Common.Dict
use scuttlebot.Common.Dict.{Dict}
use scuttlebot.Common.Windows.{within}
use scuttlebot.Snitch.{nicks_of, window, Config, Snitch, trimmed, check_flood}
use scuttlebot.Snitch.Windows.{Sent, times_of, record_all, trimmed-record_all}
use scuttlebot.Snitch.Floods.{
  Flooded, JustNoted, Handled, Soon, floods, handle_all, check_flood-once,
}

abbrev config1 : Config
config1 = record {
  nick = bytes "snitch";
  alert_channel = bytes "#mod";
  alert_nicks = [];
  flood_messages = 2;
  flood_window = 5;
  join_part_threshold = 5;
  join_part_window = 30;
  monitor_nicks = [];
}

abbrev snitch1 : Snitch
snitch1 = record { cfg = config1; windows = []; alerted = []; alerts = [] }

abbrev messages1 : List Sent
messages1 =
    (bytes "#a", bytes "bob", 1)
    ∷ (bytes "#a", bytes "eve", 2)
    ∷ (bytes "#a", bytes "bob", 3)
    ∷ (bytes "#a", bytes "bob", 7)
    ∷ []

abbrev flooded : Snitch
flooded = record_all messages1 snitch1

trimmed-record_all_example :
    (trimmed flooded (bytes "#a") (bytes "bob") 8).msgs
    ≡ within 8 snitch1.cfg.flood_window (times_of (bytes "#a") (bytes "bob") messages1)
unfolding window nicks_of Dict.get
trimmed-record_all_example =
    trimmed-record_all (bytes "#a") (bytes "bob") messages1 8 snitch1 refl
      (omega arith, (omega arith, (omega arith, (omega arith, tt)))) (omega arith)

abbrev checked : Snitch
checked = check_flood (bytes "#a") (bytes "bob") 7 flooded

check_flood-once_example :
    ((checked.alerts ≡ flooded.alerts)
      × ((¬ Flooded (bytes "#a") (bytes "bob") 7 flooded)
          ⊎ JustNoted (bytes "#a") (bytes "bob") 7 flooded))
    ⊎ (Flooded (bytes "#a") (bytes "bob") 7 flooded
        × (floods (bytes "#a") (bytes "bob") checked.alerts
            ≡ floods (bytes "#a") (bytes "bob") flooded.alerts + 1)
        × ((ms : List Handled)
            → Soon 7 ms
            → floods (bytes "#a") (bytes "bob") (handle_all ms checked).alerts
              ≡ floods (bytes "#a") (bytes "bob") flooded.alerts + 1))
check_flood-once_example = check_flood-once (bytes "#a") (bytes "bob") 7 flooded
