-- ===== src/Auth/ApiKeys/Scopes.antt =====
-- ParseScopes of internal/auth/apikeys.go.
use scuttlebot.Auth.ApiKeys.{valid_scopes, Scope}
use mathlib.Core.Path.{subst}
use scuttlebot.Common.{
  All-Member, split_on-join, contains_byte, contains_text_iff, Member, contains_text, Text, bytes,
  text_eq, List, [], ◌∷◌, false, Result, ok, err, ◌≡◌, ◌≢◌, inl, inr, refl, arith, Bool-cases,
  if◌then◌else◌, ltb, length, All,
}
use scuttlebot.Common.{trim_space, split_on, join}

pub data ScopeError : Type 0 where
  unknown_scope : Text → ScopeError
  no_scope : ScopeError

abbrev add_scope : Scope → Result ScopeError (List Scope) → Result ScopeError (List Scope)
add_scope p (ok scopes) = ok (p ∷ scopes)
add_scope p (err e) = err e

-- The loop over the parts.
parse_parts : List Text → Result ScopeError (List Scope)
unfolding trim_space contains_text
parse_parts [] = ok []
parse_parts (part ∷ parts) =
    let p = trim_space part in
    let rest = parse_parts parts in
    if text_eq p []
    then rest
    else if contains_text valid_scopes p
    then add_scope p rest
    else err (unknown_scope p)

-- ParseScopes
unfoldable pub parse_scopes : Text → Result ScopeError (List Scope)
unfolding parse_parts split_on
parse_scopes s = elim (parse_parts (split_on b',' s)) [
  | ok scopes ↦ if ltb 0 (length scopes) then ok scopes else err no_scope
  | err e ↦ err e
]

abbrev AllValid : Result ScopeError (List Scope) → Type 0
AllValid (ok scopes) = All (λ p. Member p valid_scopes) scopes
AllValid (err e) = Unit

AllValid-add_scope :
    (p : Scope) (rest : Result ScopeError (List Scope))
    → Member p valid_scopes
    → AllValid rest
    → AllValid (add_scope p rest)
AllValid-add_scope p (ok scopes) m v = (m, v)
AllValid-add_scope p (err e) m v = tt

parse_parts-AllValid : (parts : List Text) → AllValid (parse_parts parts)
unfolding parse_parts
parse_parts-AllValid [] = tt
parse_parts-AllValid (part ∷ parts) = elim (Bool-cases (text_eq (trim_space part) [])) [
  | inl blank ↦ rw (blank, parse_parts) (parse_parts-AllValid parts)
  | inr full ↦ elim (Bool-cases (contains_text valid_scopes (trim_space part))) [
    | inl known ↦
        rw (full, known, parse_parts)
          (AllValid-add_scope _ (parse_parts parts)
            ((contains_text_iff valid_scopes (trim_space part)).0 known)
            (parse_parts-AllValid parts))
    | inr unknown ↦ rw (full, unknown, parse_parts) tt
  ]
]

by_parts :
    (parts : Result ScopeError (List Scope)) {scopes : List Scope}
    → AllValid parts
    → (elim parts [
      | ok scopes ↦ if ltb 0 (length scopes) then ok scopes else err no_scope
      | err e ↦ err e
    ])
      ≡ ok scopes
    → All (λ p. Member p valid_scopes) scopes × (scopes ≢ [])
by_parts (ok []) v h = absurd (ground arith)
by_parts (ok (p ∷ ps)) {scopes} v h =
    let e : p ∷ ps ≡ scopes = ground arith in
    (subst (All (λ p. Member p valid_scopes)) e v, λ none_left. absurd (ground arith))
by_parts (err e) v h = absurd (ground arith)

-- What is parsed is a list of recognised scopes, and has at least one.
pub parse_scopes_sound :
    (s : Text) {scopes : List Scope}
    → parse_scopes s ≡ ok scopes
    → All (λ p. Member p valid_scopes) scopes × (scopes ≢ [])
unfolding parse_scopes
parse_scopes_sound s h = by_parts (parse_parts (split_on b',' s)) (parse_parts-AllValid _) h

-- Each scope is a word: not empty, unchanged by trimming, and without a comma.
abbrev IsWord : Text → Type 0
IsWord p = (trim_space p ≡ p) × (text_eq p [] ≡ false) × (contains_byte p b',' ≡ false)

scopes_are_words : All IsWord valid_scopes
unfolding trim_space text_eq contains_byte
scopes_are_words = (
  (refl, refl, refl),
  (
    (refl, refl, refl),
    (
      (refl, refl, refl),
      (
        (refl, refl, refl),
        ((refl, refl, refl), ((refl, refl, refl), ((refl, refl, refl), ((refl, refl, refl), tt)))),
      ),
    ),
  ),
)

parse_parts_words :
    (scopes : List Scope) → All (λ p. Member p valid_scopes) scopes → parse_parts scopes ≡ ok scopes
unfolding parse_parts
parse_parts_words [] v = refl
parse_parts_words (p ∷ ps) v =
    let (trimmed, full, _) = All-Member IsWord p valid_scopes scopes_are_words v.0 in
    ground
      (arith, trimmed, full, (contains_text_iff valid_scopes p).1 v.0, parse_parts_words ps v.1)

no_commas :
    (scopes : List Scope)
    → All (λ p. Member p valid_scopes) scopes
    → All (λ p. contains_byte p b',' ≡ false) scopes
no_commas [] v = tt
no_commas (p ∷ ps) v = ((All-Member IsWord p valid_scopes scopes_are_words v.0).2, no_commas ps v.1)

-- Any recognised scopes, joined by commas, are parsed back as they were.
pub parse_scopes-join :
    (p : Scope) (ps : List Scope)
    → All (λ q. Member q valid_scopes) (p ∷ ps)
    → parse_scopes (join (bytes ",") (p ∷ ps)) ≡ ok (p ∷ ps)
unfolding parse_scopes
parse_scopes-join p ps v =
    ground (arith, split_on-join b',' p ps (no_commas (p ∷ ps) v), parse_parts_words (p ∷ ps) v)
