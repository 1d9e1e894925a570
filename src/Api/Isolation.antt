-- ===== src/Api/Isolation.antt =====
-- What keeps the channels of teams apart.
use scuttlebot.Common.{
  has_prefix_iff, exists, trim_space, contains_byte, to_lower, has_prefix, Text, bytes, text_eq,
  List, [], ◌∷◌, ◌++◌, true, false, ◌≡◌, refl, sym, ◌∙◌, arith,
}
use scuttlebot.Common.Recent.{append_assoc, snoc_append}
use scuttlebot.Api.Team.{normalize_scoped_channel, channel_allowed_for_team}

-- A channel of a team, after normalizing.
abbrev pub team_channel : Text → Text → Text
team_channel team rest = bytes "#team-" ++ (to_lower team ++ (45 ∷ rest))

has_prefix-before : (a b c : Text) → has_prefix (a ++ b) (a ++ c) ≡ has_prefix b c
unfolding has_prefix
has_prefix-before [] b c = refl
has_prefix-before (x ∷ a) b c = ground (arith, has_prefix-before a b c)

-- Two names without a dash, each closed by one: the one starts the other only where they are the same.
dashed :
    (t u rest : Text)
    → contains_byte t 45 ≡ false
    → contains_byte u 45 ≡ false
    → has_prefix (u ++ (45 ∷ rest)) (t ++ (45 ∷ [])) ≡ text_eq u t
unfolding has_prefix contains_byte text_eq
dashed [] [] rest ht hu = refl
dashed [] (d ∷ u) rest ht hu = ground arith
dashed (c ∷ t) [] rest ht hu = ground arith
dashed (c ∷ t) (d ∷ u) rest ht hu = ground (arith, dashed t u rest)

team_channel-nonempty : (team rest : Text) → text_eq (team_channel team rest) [] ≡ false
unfolding text_eq
team_channel-nonempty team rest = refl

team_channel-prefix :
    (team rest : Text) → has_prefix (team_channel team rest) (bytes "#team-") ≡ true
team_channel-prefix team rest =
    (has_prefix_iff (team_channel team rest) (bytes "#team-")).1
      (to_lower team ++ (45 ∷ rest), refl)

-- The test for a team's channel that is not shared.
scoped :
    (channel key_team team rest : Text) (shared : List Text)
    → text_eq (trim_space key_team) [] ≡ false
    → normalize_scoped_channel channel ≡ team_channel team rest
    → exists (λ other. text_eq (team_channel team rest) (normalize_scoped_channel other)) shared
      ≡ false
    → channel_allowed_for_team channel key_team shared
      ≡ has_prefix (to_lower team ++ (45 ∷ rest)) (to_lower (trim_space key_team) ++ (45 ∷ []))
unfolding channel_allowed_for_team
scoped channel key_team team rest shared named normal own =
    rw (named, normal, team_channel-nonempty team rest, own, team_channel-prefix team rest)
      (has_prefix-before (bytes "#team-") (to_lower team ++ (45 ∷ rest))
        (to_lower (trim_space key_team) ++ (45 ∷ [])))

-- A key of a team may use a channel of a team that is not shared just where the two are the same team in
-- lower case, if neither team's name has a dash.
pub channel_allowed_for_team-plain :
    (channel key_team team rest : Text) (shared : List Text)
    → text_eq (trim_space key_team) [] ≡ false
    → normalize_scoped_channel channel ≡ team_channel team rest
    → exists (λ other. text_eq (team_channel team rest) (normalize_scoped_channel other)) shared
      ≡ false
    → contains_byte (to_lower (trim_space key_team)) 45 ≡ false
    → contains_byte (to_lower team) 45 ≡ false
    → channel_allowed_for_team channel key_team shared
      ≡ text_eq (to_lower team) (to_lower (trim_space key_team))
channel_allowed_for_team-plain channel key_team team rest shared named normal own plain plain' =
    scoped channel key_team team rest shared named normal own
    ∙ dashed (to_lower (trim_space key_team)) (to_lower team) rest plain plain'

-- A key of a team may use every channel of a team whose name is the key's team, a dash and more.
pub channel_allowed_for_team-dashed :
    (channel key_team team more rest : Text) (shared : List Text)
    → text_eq (trim_space key_team) [] ≡ false
    → normalize_scoped_channel channel ≡ team_channel team rest
    → exists (λ other. text_eq (team_channel team rest) (normalize_scoped_channel other)) shared
      ≡ false
    → to_lower team ≡ to_lower (trim_space key_team) ++ (45 ∷ more)
    → channel_allowed_for_team channel key_team shared ≡ true
channel_allowed_for_team-dashed channel key_team team more rest shared named normal own longer =
    let key = to_lower (trim_space key_team) in
    scoped channel key_team team rest shared named normal own
    ∙ (has_prefix_iff (to_lower team ++ (45 ∷ rest)) (key ++ (45 ∷ []))).1 (
      more ++ (45 ∷ rest),
      rw longer (
          append_assoc key (45 ∷ more) (45 ∷ rest)
          ∙ sym (snoc_append key 45 (more ++ (45 ∷ rest)))),
    )
