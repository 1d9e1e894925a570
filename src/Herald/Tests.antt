-- ===== src/Herald/Tests.antt =====
-- The theorems on the herald at concrete inputs. Its floats are natural numbers.
use scuttlebot.Common.{
  replicate, has_prefix, ◌/◌, pos, ℕ, ◌+◌, ◌-◌, ◌*◌, ◌≤◌, Text, bytes, text_eq, text_eq_iff, List,
  [], ◌∷◌, true, some, ◌≡◌, refl, arith, ltb, leb, length,
}
use scuttlebot.Common.Dict
use scuttlebot.Common.Dict.{Dict}
use scuttlebot.Warden.Limits.{Floats}
use scuttlebot.Herald.{Event, RouteConfig, Herald, route, new_herald}
use scuttlebot.Herald.Routing.{route-longest}
use scuttlebot.Herald.Accounting.{turn, emitted, Step, run, turns, emits, known, run-turns}

abbrev floats1 : Floats
floats1 = record {
  Float = ℕ;
  of_nat = λ n. n;
  seconds = λ n. n / 1_000_000_000;
  plus = λ a b. a + b;
  minus = λ a b. a - b;
  times = λ a b. a * b;
  less = ltb;
  at_most = leb;
}

abbrev routes1 : RouteConfig
routes1 = record {
  routes = (bytes "ci.", bytes "#ci") ∷ (bytes "ci.build.", bytes "#builds") ∷ [];
  default_channel = bytes "#general";
}

abbrev event1 : Event
event1 = record {
  type = bytes "ci.build.failed";
  channel = [];
  message = bytes "no";
  mention_nicks = [];
}

abbrev herald1 : Herald floats1
herald1 = record (new_herald floats1 [] routes1 0 (pos 0) 0) { connected = true }

-- The prefixes are no longer than the second.
longest1 :
    (q other : Text)
    → Dict.get routes1.routes q ≡ some other
    → has_prefix (bytes "ci.build.failed") q ≡ true
    → length q ≤ length (bytes "ci.build.")
unfolding Dict.get
longest1 q other found matches =
    ground (arith, text_eq_iff (bytes "ci.") q, text_eq_iff (bytes "ci.build.") q)

route-longest_example : route routes1 (bytes "ci.build.failed") ≡ bytes "#builds"
unfolding Dict.get text_eq has_prefix
route-longest_example =
    route-longest routes1 (bytes "ci.build.failed") (bytes "ci.build.") (bytes "#builds")
      (refl, (refl, tt)) refl (λ e. ground arith) refl longest1

abbrev times1 : List ℕ
times1 = replicate 256 7

abbrev steps1 : List Step
steps1 = emitted event1 ∷ emitted event1 ∷ turn 5 ∷ emitted event1 ∷ []

run-turns_example :
    (length (turns times1 (run steps1 herald1)).queue ≡ 0)
    × ((turns times1 (run steps1 herald1)).delivered + (turns times1 (run steps1 herald1)).dropped
        ≡ known herald1 + emits steps1)
unfolding new_herald
run-turns_example = run-turns steps1 times1 herald1 refl (omega arith) (omega arith) (omega arith)
