-- ===== src/ClaudeRelay/Settings.antt =====
-- How the relay reads its arguments and settings.
use scuttlebot.Common.{
  take, drop, index_of, trim_left, trim_space, negsuc, fields, trim_right, trim_prefix, pos,
  positive?, to_lower, contains_text, ℤ, has_prefix, join, forall, map, exists, contains, ℕ, ◌+◌,
  Text, bytes, text_eq, List, [], ◌∷◌, ◌++◌, Bool, true, false, ◌&&◌, ◌||◌, not, Option, none, some,
  if◌then◌else◌, ltb, leb, ◌==◌, length,
}
use scuttlebot.Common.Dict
use scuttlebot.Common.Dict.{Dict}

-- extractResumeID
unfoldable pub extract_resume_id : List Text → Text
extract_resume_id [] = []
extract_resume_id (flag ∷ []) = []
extract_resume_id (flag ∷ val ∷ args) =
    let rest = extract_resume_id (val ∷ args) in
    if (text_eq flag (bytes "--resume")
        || text_eq flag (bytes "-r")
        || text_eq flag (bytes "--continue"))
      && leb 32 (length val)
      && contains val (bytes "-")
    then val
    else rest

-- compactCommand
unfoldable pub compact_command : Text → Text
compact_command cmd =
    let joined = join (bytes " ") (fields (trim_space cmd)) in
    let trimmed =
      if has_prefix joined (bytes "cd ")
      then (elim (index_of joined (bytes " && ")) [
        | none ↦ joined
        | some idx ↦ if ltb 0 idx then trim_space (drop (idx + 4) joined) else joined
      ])
      else joined in
    if ltb 140 (length trimmed) then take 140 trimmed ++ bytes "..." else trimmed

abbrev value_of : Dict Text → Text → Text
value_of d key = elim (Dict.get d key) [ none ↦ [] | some v ↦ v ]

-- getenvOr, of the environment and the file
unfoldable pub getenv_or : Dict Text → Dict Text → Text → Text → Text
getenv_or env file key fallback =
    if not (text_eq (value_of env key) [])
    then value_of env key
    else if not (text_eq (value_of file key) [])
    then value_of file key
    else fallback

-- getenvIntOr, with strconv.Atoi
unfoldable pub getenv_int_or : (Text → Option ℤ) → Dict Text → Dict Text → Text → ℤ → ℤ
unfolding getenv_or
getenv_int_or atoi env file key fallback =
    let value = getenv_or env file key [] in
    if text_eq value [] then fallback else (elim (atoi value) [ none ↦ fallback | some n ↦ n ])

-- getenvBoolOr
unfoldable pub getenv_bool_or : Dict Text → Dict Text → Text → Bool → Bool
unfolding getenv_or
getenv_bool_or env file key fallback =
    let value = getenv_or env file key [] in
    if text_eq value []
    then fallback
    else not
        (contains_text (bytes "0" ∷ bytes "false" ∷ bytes "no" ∷ bytes "off" ∷ []) (to_lower value))

abbrev is_digit : ℕ → Bool
is_digit c = leb 48 c && leb c 57

-- The text of a duration, with seconds for a number alone.
unfoldable pub with_unit : Text → Text
with_unit value = if forall is_digit value then value ++ bytes "s" else value

-- getenvDurationOr, with time.ParseDuration
unfoldable pub getenv_duration_or : (Text → Option ℤ) → Dict Text → Dict Text → Text → ℕ → ℕ
unfolding getenv_or with_unit
getenv_duration_or parse env file key fallback =
    let value = getenv_or env file key [] in
    if text_eq value [] then fallback else (elim (parse (with_unit value)) [
      | none ↦ fallback
      | some d ↦ elim (positive? d) [ none ↦ fallback | some n ↦ n ]
    ])

-- getenvDurationAllowZeroOr
unfoldable pub getenv_duration_allow_zero_or :
    (Text → Option ℤ) → Dict Text → Dict Text → Text → ℕ → ℕ
unfolding getenv_or with_unit
getenv_duration_allow_zero_or parse env file key fallback =
    let value = getenv_or env file key [] in
    if text_eq value [] then fallback else (elim (parse (with_unit value)) [
      | none ↦ fallback
      | some (pos n) ↦ n
      | some (negsuc n) ↦ fallback
    ])

-- The loop of targetCWD: `taken` is whether the argument before asked for a directory.
unfoldable pub target_from : Bool → Text → List Text → Text
target_from taken target [] = target
target_from taken target (arg ∷ args) =
    if taken
    then target_from false arg args
    else if text_eq arg (bytes "-C") || text_eq arg (bytes "--cd")
    then target_from true target args
    else if has_prefix arg (bytes "-C=")
    then target_from false (trim_prefix arg (bytes "-C=")) args
    else if has_prefix arg (bytes "--cd=")
    then target_from false (trim_prefix arg (bytes "--cd=")) args
    else target_from false target args

-- The bytes that sanitize keeps.
abbrev is_kept : ℕ → Bool
is_kept c = (leb 97 c && leb c 122) || (leb 65 c && leb c 90) || is_digit c || c == 45 || c == 95

-- sanitize, of ASCII text
unfoldable pub sanitize : Text → Text
sanitize value =
    let dashed = map (λ c. if is_kept c then c else 45) value in
    let result = trim_right (λ c. c == 45) (trim_left (λ c. c == 45) dashed) in
    if text_eq result [] then bytes "session" else result

-- boolString
unfoldable pub bool_string : Bool → Text
bool_string v = if v then bytes "1" else bytes "0"

-- The first argument that is no flag decides.
unfoldable pub first_word_relays : List Text → Bool
first_word_relays [] = true
first_word_relays (arg ∷ args) =
    let rest = first_word_relays args in
    if has_prefix arg (bytes "-")
    then rest
    else not (text_eq arg (bytes "help") || text_eq arg (bytes "completion"))

-- shouldRelaySession
unfoldable pub should_relay_session : List Text → Bool
unfolding first_word_relays
should_relay_session args =
    if exists
      (λ arg. contains_text (bytes "-h" ∷ bytes "--help" ∷ bytes "-V" ∷ bytes "--version" ∷ []) arg)
      args
    then false
    else first_word_relays args

-- allChannels
unfoldable pub all_channels : Text → List Text → List Text
all_channels channel channels = if text_eq channel [] then channels else channel ∷ channels

-- mergeChannels
unfoldable pub merge_channels : List Text → List Text → List Text
merge_channels merged [] = merged
merge_channels merged (ch ∷ extra) =
    if contains_text merged ch
    then merge_channels merged extra
    else merge_channels (merged ++ (ch ∷ [])) extra
