-- ===== src/Steward/Tests.antt =====
-- The theorems on the steward at concrete inputs.
use scuttlebot.Common.{
  lower_byte, to_lower, is_space, drop_while, trim_right, pos, contains_byte, trim_left, bytes, [],
  ◌∷◌, true, false, none, some, ◌≡◌, refl, arith,
}
use scuttlebot.Common.Dict
use scuttlebot.Common.Dict.{Dict}
use scuttlebot.Common.Windows.{after}
use scuttlebot.Sentinel.{Labels, report}
use scuttlebot.Steward.{
  after, Steward, Durations, mute, mute_key, unmute_expired, parse_sentinel_report,
}
use scuttlebot.Steward.Reports.{parse_sentinel_report-report}
use scuttlebot.Steward.Keys.{Issued, lifting}
use scuttlebot.Steward.Mutes.{turns, unmute_expired-mute}

abbrev labels1 : Labels
labels1 = record { nick = bytes "bob"; severity = bytes "high"; reason = bytes "spam in bulk" }

parse_sentinel_report-report_example :
    parse_sentinel_report (report (bytes "#a") labels1) ≡ (bytes "#a", labels1)
unfolding trim_left trim_right drop_while is_space contains_byte to_lower lower_byte
parse_sentinel_report-report_example =
    parse_sentinel_report-report (bytes "#a") labels1 ((omega arith, refl, refl), refl)
      ((omega arith, refl, refl), refl) ((omega arith, refl, refl), refl)
      ((omega arith, refl, refl), refl) refl

abbrev durations1 : Durations
durations1 = record { parse_duration = λ t. none; show_rounded = λ d. bytes "a while" }

abbrev steward1 : Steward
steward1 = record {
  cfg = record {
    nick = bytes "steward";
    mod_channel = bytes "#moderation";
    operator_nicks = bytes "op" ∷ [];
    auto_act = true;
    mute_duration = pos 10;
    silence_low_warnings = false;
    dm_on_action = true;
    cooldown_per_nick = 5;
  };
  cooldown = [];
  mutes = [];
  sent = [];
}

unmute_expired-mute_example :
    let before =
      turns (9 ∷ 15 ∷ []) (mute durations1 (bytes "bob") (bytes "#a") (pos 10) 5 steward1) in
    (Dict.get before.mutes (mute_key (bytes "#a") (bytes "bob")) ≡ some (after 5 (pos 10)))
    × Issued (lifting (bytes "bob") (bytes "#a")) (unmute_expired 20 before).sent
    × (Dict.get (unmute_expired 20 before).mutes (mute_key (bytes "#a") (bytes "bob")) ≡ none)
unfolding contains_byte after
unmute_expired-mute_example =
    unmute_expired-mute durations1 (bytes "bob") (bytes "#a") (pos 10) 5 20 (9 ∷ 15 ∷ []) steward1
      refl tt (omega arith, (omega arith, tt)) (omega arith)
