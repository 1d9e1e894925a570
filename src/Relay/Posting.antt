-- ===== src/Relay/Posting.antt =====
-- Which channels a message reaches.
use scuttlebot.Common.{
  to_lower, trim_space, ◌≤◌, Text, text_eq, List, [], ◌∷◌, true, false, Option, none, some, ◌≡◌,
  inl, inr, refl, sym, ap, ◌∙◌, arith, Option-cases, Bool-cases, if◌then◌else◌,
}
use scuttlebot.Relay.Levels.{
  minimal, actions_only, full, debug, Filtered, Level, Resolution, Post, post_at_level, accepts,
  resolution_of, post_for, level_number, parse_resolution, resolution_name,
}

-- One call for each channel that accepts the level.
pub wanted : Filtered → List Text → Level → Text → Text → List Post
wanted f [] level text meta = []
wanted f (ch ∷ chs) level text meta =
    let rest = wanted f chs level text meta in
    if accepts (resolution_of f ch) level then post_for ch text meta ∷ rest else rest

-- Calls in order, up to the first that fails.
pub post_all : {E : Type 0} → (Post → Option E) → List Post → List Post × Option E
post_all call [] = ([], none)
post_all call (p ∷ ps) =
    let (posts, e) = post_all call ps in
    elim (call p) [ some failed ↦ (p ∷ [], some failed) | none ↦ (p ∷ posts, e) ]

post_all-fine :
    {E : Type 0} (call : Post → Option E) (p : Post) (ps : List Post)
    → call p ≡ none
    → post_all call (p ∷ ps) ≡ (p ∷ (post_all call ps).0, (post_all call ps).1)
unfolding post_all
post_all-fine call p ps h = rw (post_all, h) refl

post_all-failed :
    {E : Type 0} (call : Post → Option E) (p : Post) (ps : List Post) {e : E}
    → call p ≡ some e
    → post_all call (p ∷ ps) ≡ (p ∷ [], some e)
unfolding post_all
post_all-failed call p ps h = rw (post_all, h) refl

module _ {E : Type 0} (call : Post → Option E) (f : Filtered) (ch : Text) (chs : List Text)
    (level : Level) (text meta : Text) where
  post_at_level-skip :
      accepts (resolution_of f ch) level ≡ false
      → post_at_level call f (ch ∷ chs) level text meta ≡ post_at_level call f chs level text meta
  unfolding post_at_level
  post_at_level-skip h = rw h refl

  post_at_level-fine :
      accepts (resolution_of f ch) level ≡ true
      → call (post_for ch text meta) ≡ none
      → post_at_level call f (ch ∷ chs) level text meta ≡ (
        post_for ch text meta ∷ (post_at_level call f chs level text meta).0,
        (post_at_level call f chs level text meta).1,
      )
  unfolding post_at_level
  post_at_level-fine h fine = rw (h, fine) refl

  post_at_level-failed :
      {e : E}
      → accepts (resolution_of f ch) level ≡ true
      → call (post_for ch text meta) ≡ some e
      → post_at_level call f (ch ∷ chs) level text meta ≡ (post_for ch text meta ∷ [], some e)
  unfolding post_at_level
  post_at_level-failed h failed = rw (h, failed) refl

  post_at_level-here :
      (ps : List Post)
      → accepts (resolution_of f ch) level ≡ true
      → post_at_level call f chs level text meta ≡ post_all call ps
      → post_at_level call f (ch ∷ chs) level text meta ≡ post_all call (post_for ch text meta ∷ ps)
  post_at_level-here ps h rest = elim (Option-cases (call (post_for ch text meta))) [
    | inl fine ↦
        post_at_level-fine h fine
        ∙ ap (λ (r : List Post × Option E). (post_for ch text meta ∷ r.0, r.1)) rest
        ∙ sym (post_all-fine call (post_for ch text meta) ps fine)
    | inr (e, failed) ↦
        post_at_level-failed h failed ∙ sym (post_all-failed call (post_for ch text meta) ps failed)
  ]

-- A message is posted once to each channel whose resolution accepts its level, in the order of the
-- channels, and to no other; the first post that fails is the last, and its error is returned.
pub post_at_level-wanted :
    {E : Type 0} (call : Post → Option E) (f : Filtered) (channels : List Text) (level : Level)
    (text meta : Text)
    → post_at_level call f channels level text meta
      ≡ post_all call (wanted f channels level text meta)
unfolding wanted
post_at_level-wanted call f [] level text meta = unfold post_at_level post_all in refl
post_at_level-wanted call f (ch ∷ chs) level text meta =
    let rest = post_at_level-wanted call f chs level text meta in
    elim (Bool-cases (accepts (resolution_of f ch) level)) [
      | inl here ↦ rw here (post_at_level-here call f ch chs level text meta _ here rest)
      | inr skipped ↦ rw skipped (post_at_level-skip call f ch chs level text meta skipped ∙ rest)
    ]

-- A resolution that accepts a level accepts every coarser one too.
pub accepts_coarser :
    (r : Resolution) (l k : Level)
    → level_number k ≤ level_number l
    → accepts r l ≡ true
    → accepts r k ≡ true
unfolding accepts
accepts_coarser r l k h yes_l = ground arith

-- A resolution is read back from its name.
pub parse_resolution-resolution_name :
    (r : Resolution) → parse_resolution (resolution_name r) ≡ some r
unfolding parse_resolution resolution_name text_eq trim_space to_lower
parse_resolution-resolution_name minimal = refl
parse_resolution-resolution_name actions_only = refl
parse_resolution-resolution_name full = refl
parse_resolution-resolution_name debug = refl
