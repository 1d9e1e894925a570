-- ===== src/Relay/Names.antt =====
-- Normalised names of channels.
use scuttlebot.Common.{
  contains_text, Text, text_eq, text_eq_iff, List, [], ◌∷◌, ◌++◌, false, ◌||◌, ◌≡◌, inl, inr, refl,
  arith, Bool-cases,
}
use scuttlebot.Relay.Channels.{normalize_channels, add_channels, add_channel, normalize_channel}

-- No channel stands twice.
pub Distinct : List Text → Type 0
Distinct [] = Unit
Distinct (c ∷ cs) = (contains_text cs c ≡ false) × Distinct cs

contains_text-append :
    (cs : List Text) (c x : Text)
    → contains_text (cs ++ (c ∷ [])) x ≡ contains_text cs x || text_eq c x
unfolding contains_text
contains_text-append [] c x = ground arith
contains_text-append (d ∷ cs) c x = ground (arith, contains_text-append cs c x)

Distinct-append :
    (cs : List Text) (c : Text)
    → Distinct cs
    → contains_text cs c ≡ false
    → Distinct (cs ++ (c ∷ []))
unfolding Distinct contains_text
Distinct-append [] c d h = (refl, tt)
Distinct-append (x ∷ cs) c (first, rest) h = (
  ground (arith, contains_text-append cs c x, text_eq_iff x c, text_eq_iff c x),
  Distinct-append cs c rest (ground arith),
)

add_channel-Distinct : (out : List Text) (c : Text) → Distinct out → Distinct (add_channel out c)
unfolding add_channel
add_channel-Distinct out c d = elim (Bool-cases (text_eq (normalize_channel c) [])) [
  | inl blank ↦ rw (add_channel, blank) d
  | inr named ↦ elim (Bool-cases (contains_text out (normalize_channel c))) [
    | inl seen ↦ rw (add_channel, named, seen) d
    | inr new ↦ rw (add_channel, named, new) (Distinct-append out (normalize_channel c) d new)
  ]
]

add_channels-Distinct : (out cs : List Text) → Distinct out → Distinct (add_channels out cs)
unfolding add_channels
add_channels-Distinct out [] d = d
add_channels-Distinct out (c ∷ cs) d =
    add_channels-Distinct (add_channel out c) cs (add_channel-Distinct out c d)

-- Of the primary channel and the others, none stands twice after normalisation.
pub normalize_channels-Distinct :
    (primary : Text) (channels : List Text) → Distinct (normalize_channels primary channels)
unfolding normalize_channels Distinct
normalize_channels-Distinct primary channels =
    add_channels-Distinct (add_channel [] primary) channels (add_channel-Distinct [] primary tt)
