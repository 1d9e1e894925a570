-- ===== src/Common/Texts.antt =====
-- Sets of texts, as lists: `map[string]struct{}` where the code only asks for membership.
use mathlib.Core.Path.{◌≡◌}
use mathlib.Core.Logic.{◌↔◌, ◌⊎◌, inl, inr}
use mathlib.Core.Bool.{Bool, true, false, ◌||◌}
use mathlib.Core.List.{List, [], ◌∷◌}
use native.Mathlib.Omega.{arith}
use scuttlebot.Common.Bytes.{Text, text_eq, text_eq_iff}

unfoldable pub contains_text : List Text → Text → Bool
contains_text [] t = false
contains_text (x ∷ xs) t = text_eq x t || contains_text xs t

-- `t` is an entry of the list.
abbrev pub Member : Text → List Text → Type 0
Member t [] = ⊥
Member t (x ∷ xs) = (x ≡ t) ⊎ Member t xs

contains_text-Member : (xs : List Text) (t : Text) → contains_text xs t ≡ true → Member t xs
unfolding contains_text
contains_text-Member [] t h = cc
contains_text-Member (x ∷ xs) t h = ground (arith, text_eq_iff x t, contains_text-Member xs t)

Member-contains_text : (xs : List Text) (t : Text) → Member t xs → contains_text xs t ≡ true
unfolding contains_text
Member-contains_text [] t h = absurd h
Member-contains_text (x ∷ xs) t (inl e) = ground (arith, text_eq_iff x t)
Member-contains_text (x ∷ xs) t (inr m) = ground (arith, Member-contains_text xs t m)

pub contains_text_iff : (xs : List Text) (t : Text) → (contains_text xs t ≡ true) ↔ Member t xs
contains_text_iff xs t = (contains_text-Member xs t, Member-contains_text xs t)
