-- ===== src/Topology/Matching.antt =====
-- Which type a channel has.
use scuttlebot.Common.{
  trim_prefix, has_prefix, Text, bytes, List, [], ◌∷◌, ◌++◌, true, false, some, ◌≡◌, ◌↔◌, inl, inr,
  refl, sym, ap, arith, Bool-cases, All,
}
use scuttlebot.Topology.{Policy, ChannelType, first_type, match_type}

back :
    (before after : List ChannelType) (slug : Text) (t : ChannelType)
    → has_prefix slug t.prefix ≡ true
    → All (λ u. has_prefix slug u.prefix ≡ false) before
    → first_type (before ++ (t ∷ after)) slug ≡ some t
unfolding first_type
back [] after slug t fits others = rw fits refl
back (u ∷ before) after slug t fits (other, others) =
    rw other (back before after slug t fits others)

forth :
    (ts : List ChannelType) (slug : Text) (t : ChannelType)
    → first_type ts slug ≡ some t
    → (before : List ChannelType) × (after : List ChannelType) × (ts ≡ before ++ (t ∷ after))
      × (has_prefix slug t.prefix ≡ true)
      × All (λ u. has_prefix slug u.prefix ≡ false) before
unfolding first_type
forth [] slug t h = cc
forth (u ∷ ts) slug t h = elim (Bool-cases (has_prefix slug u.prefix)) [
  | inl fits ↦ let same : u ≡ t = ground arith in ([], ts, rw same refl, rw (sym same) fits, tt)
  | inr other ↦
      let (before, after, e, fits, others) = forth ts slug t (ground arith) in
      (u ∷ before, after, ap (λ (xs : List ChannelType). u ∷ xs) e, fits, (other, others))
]

first_type_iff :
    (ts : List ChannelType) (slug : Text) (t : ChannelType)
    → (first_type ts slug ≡ some t) ↔ (
        (before : List ChannelType) × (after : List ChannelType) × (ts ≡ before ++ (t ∷ after))
        × (has_prefix slug t.prefix ≡ true)
        × All (λ u. has_prefix slug u.prefix ≡ false) before)
unfolding first_type
first_type_iff ts slug t = (
  forth ts slug t,
  λ (before, after, e, fits, others). rw e (back before after slug t fits others),
)

-- A channel is of a type exactly if the name after "#" begins with the prefix of that type and with
-- none of the prefixes of the types configured before it.
pub match_type_iff :
    (p : Policy) (channel : Text) (t : ChannelType)
    → (match_type p channel ≡ some t) ↔ (
        (before : List ChannelType) × (after : List ChannelType) × (p.types ≡ before ++ (t ∷ after))
        × (has_prefix (trim_prefix channel (bytes "#")) t.prefix ≡ true)
        × All (λ u. has_prefix (trim_prefix channel (bytes "#")) u.prefix ≡ false) before)
unfolding match_type
match_type_iff p channel t = first_type_iff p.types (trim_prefix channel (bytes "#")) t
