-- ===== src/Herald/Routing.antt =====
-- The route of an event: the longest prefix wins, whatever the order of the map.
use scuttlebot.Common.{
  has_prefix, ℕ, ◌+◌, ◌≤◌, ◌<◌, Text, text_eq, text_eq_refl, text_eq_iff, [], ◌∷◌, true, false,
  ◌&&◌, none, some, ◌≡◌, ◌≢◌, inl, inr, refl, sym, ◌∙◌, arith, Bool-cases, leb, length,
}
use scuttlebot.Common.Dict
use scuttlebot.Common.Dict.{Dict}
use mathlib.Core.Path.{subst}
use scuttlebot.Herald.{RouteConfig, best_route, route}

-- Two prefixes of one text that are equally long are the same.
same_prefix :
    (s p q : Text) → has_prefix s p ≡ true → has_prefix s q ≡ true → length p ≡ length q → p ≡ q
unfolding has_prefix
same_prefix s [] [] hp hq e = refl
same_prefix s [] (d ∷ q) hp hq e = ground arith
same_prefix s (c ∷ p) [] hp hq e = ground arith
same_prefix [] (c ∷ p) (d ∷ q) hp hq e = ground arith
same_prefix (x ∷ s) (c ∷ p) (d ∷ q) hp hq e = ground (arith, same_prefix s p q)

-- No prefix of the event type in `routes` is as long as `n`.
abbrev Below : Dict Text → Text → ℕ → Type 0
Below routes ty n =
    (q ch : Text) → Dict.get routes q ≡ some ch → has_prefix ty q ≡ true → length q < n

-- The entries after the first stay what they are.
get-tail :
    (j v : Text) (d : Dict Text) (k w : Text)
    → Dict.IsMap ((j, v) ∷ d)
    → Dict.get d k ≡ some w
    → Dict.get ((j, v) ∷ d) k ≡ some w
unfolding Dict.get
get-tail j v d k w m h = elim (Bool-cases (text_eq j k)) [
  | inl same ↦
      let gone : Dict.get d k ≡ none =
        subst (λ x. Dict.get d x ≡ none) ((text_eq_iff j k).0 same) m.0 in
      cc
  | inr other ↦ rw other h
]

Below-tail :
    (j v : Text) (routes : Dict Text) (ty : Text) (n : ℕ)
    → Dict.IsMap ((j, v) ∷ routes)
    → Below ((j, v) ∷ routes) ty n
    → Below routes ty n
Below-tail j v routes ty n m below q ch found matches =
    below q ch (get-tail j v routes q ch m found) matches

get-head : (j v : Text) (d : Dict Text) → Dict.get ((j, v) ∷ d) j ≡ some v
unfolding Dict.get
get-head j v d = rw (text_eq_refl j) refl

-- No entry beats a prefix longer than all.
best_route-Below :
    (routes : Dict Text) (ty best : Text) (n : ℕ)
    → Dict.IsMap routes
    → Below routes ty n
    → best_route routes ty best n ≡ best
unfolding best_route
best_route-Below [] ty best n m below = refl
best_route-Below ((q, ch) ∷ routes) ty best n m below =
    let rest = best_route-Below routes ty best n m.1 (Below-tail q ch routes ty n m below) in
    let shorter = below q ch (get-head q ch routes) in
    elim (Bool-cases (has_prefix ty q)) [
      | inl matches ↦
          let short = shorter matches in
          let worse : leb n (length q) ≡ false = ground arith in rw (matches, worse) rest
      | inr other ↦ rw other rest
    ]

best_route-first :
    (q c : Text) (routes : Dict Text) (ty best : Text) (n : ℕ)
    → Dict.IsMap ((q, c) ∷ routes)
    → has_prefix ty q ≡ true
    → n ≤ length q
    → Below ((q, c) ∷ routes) ty (length q + 1)
    → best_route ((q, c) ∷ routes) ty best n ≡ c
unfolding best_route
best_route-first q c routes ty best n m matches few below =
    let rest =
      best_route-Below routes ty c (length q + 1) m.1
        (Below-tail q c routes ty (length q + 1) m below) in
    let better : leb n (length q) ≡ true = ground arith in rw (matches, better) rest

shorter_prefix :
    (s p q : Text)
    → has_prefix s p ≡ true
    → has_prefix s q ≡ true
    → length q < length p + 1
    → text_eq q p ≡ false
    → length q + 1 ≤ length p
shorter_prefix s p q hp hq short differ = ground (arith, same_prefix s q p hq hp, text_eq_iff q p)

best_route_lem :
    (routes : Dict Text) (ty p ch best : Text) (n : ℕ)
    → Dict.IsMap routes
    → Dict.get routes p ≡ some ch
    → has_prefix ty p ≡ true
    → n ≤ length p
    → Below routes ty (length p + 1)
    → best_route routes ty best n ≡ ch
unfolding best_route Dict.get
best_route_lem [] ty p ch best n m found matches few below = ground arith
best_route_lem ((q, c) ∷ routes) ty p ch best n m found matches few below =
    let below' = Below-tail q c routes ty (length p + 1) m below in
    elim (Bool-cases (text_eq q p)) [
      | inl same ↦
          let e = (text_eq_iff q p).0 same in
          best_route-first q c routes ty best n m (rw e matches) (rw e few)
            (subst (λ x. Below ((q, c) ∷ routes) ty (length x + 1)) (sym e) below)
          ∙ ground (arith, found, same)
      | inr other ↦
          let found' : Dict.get routes p ≡ some ch = ground (arith, found, other) in
          elim (Bool-cases (has_prefix ty q && leb n (length q))) [
            | inl better ↦ rw better (
                best_route_lem routes ty p ch c (length q + 1) m.1 found' matches
                  (shorter_prefix ty p q matches (ground arith)
                    (below q c (get-head q c routes) (ground arith)) other)
                  below')
            | inr worse ↦
                rw worse (best_route_lem routes ty p ch best n m.1 found' matches few below')
          ]
    ]

-- The channel of an event type is that of the longest prefix of it among the routes, whatever the order
-- of the map, where that channel is not the empty text.
pub route-longest :
    (cfg : RouteConfig) (ty p ch : Text)
    → Dict.IsMap cfg.routes
    → Dict.get cfg.routes p ≡ some ch
    → ch ≢ []
    → has_prefix ty p ≡ true
    → ((q other : Text)
        → Dict.get cfg.routes q ≡ some other
        → has_prefix ty q ≡ true
        → length q ≤ length p)
    → route cfg ty ≡ ch
unfolding route
route-longest cfg ty p ch m found named matches longest =
    let e =
      best_route_lem cfg.routes ty p ch [] 0 m found matches (omega arith)
        (λ q other has fits. omega (arith, longest q other has fits)) in
    rw e (ground (arith, text_eq_iff ch []))

-- Where no route is a prefix of the event type, it goes to the default channel.
route-default :
    (cfg : RouteConfig) (ty : Text)
    → Dict.IsMap cfg.routes
    → ((q other : Text) → Dict.get cfg.routes q ≡ some other → has_prefix ty q ≡ false)
    → route cfg ty ≡ cfg.default_channel
unfolding route text_eq
route-default cfg ty m unmatched =
    let e =
      best_route-Below cfg.routes ty [] 0 m
        (λ q other has fits. ground (arith, unmatched q other has)) in
    rw e refl
