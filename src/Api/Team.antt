-- ===== src/Api/Team.antt =====
-- What a key that belongs to a team may see and change, internal/api/team_scope.go.
use scuttlebot.Common.{
  has_prefix, exists, to_lower, select, trim_space, Text, bytes, text_eq, List, [], ◌++◌, Bool,
  true, false, ◌||◌, not, Option, none, some, if◌then◌else◌,
}
use scuttlebot.Topology.{equal_fold}

-- normalizeScopedChannel
unfoldable pub normalize_scoped_channel : Text → Text
normalize_scoped_channel channel =
    let c = trim_space channel in
    if text_eq c []
    then []
    else to_lower (if not (has_prefix c (bytes "#")) then bytes "#" ++ c else c)

-- channelAllowedForTeam
unfoldable pub channel_allowed_for_team : Text → Text → List Text → Bool
channel_allowed_for_team channel key_team shared =
    let team = trim_space key_team in
    if text_eq team []
    then true
    else let c = normalize_scoped_channel channel in
      if text_eq c []
      then false
      else if exists (λ other. text_eq c (normalize_scoped_channel other)) shared
      then true
      else if not (has_prefix c (bytes "#team-"))
      then true
      else has_prefix c (bytes "#team-" ++ (to_lower team ++ bytes "-"))

-- agentAllowedForTeam, of the agent's team
unfoldable pub agent_allowed_for_team : Text → Text → Bool
agent_allowed_for_team agent_team key_team =
    let team = trim_space key_team in text_eq team [] || equal_fold agent_team team

-- effectiveRegisterTeam
unfoldable pub effective_register_team : Text → Text → Option Text
effective_register_team key_team requested_team =
    let team = trim_space key_team in
    let requested = trim_space requested_team in
    if text_eq team []
    then some requested
    else if text_eq requested [] || equal_fold requested team
    then some team
    else none

-- effectiveUpdatedTeam
unfoldable pub effective_updated_team : Text → Option Text → Option Text
effective_updated_team key_team requested_team = elim requested_team [
  | none ↦ some []
  | some r ↦
      let team = trim_space r in
      if text_eq (trim_space key_team) []
      then some team
      else if text_eq team [] || not (equal_fold team (trim_space key_team))
      then none
      else some (trim_space key_team)
]

-- filterChannelInfosByTeam, of channels of which `name` reads the name
unfoldable pub filter_channels_by_team :
    {A : Type 0} → (A → Text) → List A → Text → List Text → List A
unfolding channel_allowed_for_team
filter_channels_by_team name channels key_team shared =
    if text_eq key_team []
    then channels
    else select (λ c. channel_allowed_for_team (name c) key_team shared) channels
