-- ===== src/Common/Bytes.antt =====
-- Text as a list of byte values, with the functions of Go's package `strings` that the program uses.
-- They are those of ASCII text: letters and white space beyond ASCII are not folded or trimmed.
use Prim.Native.Nat.{ℕ, ◌+◌}
use Prim.Native.Char.{code}
use Prim.Native.String.{String}
use mathlib.Core.Path.{◌≡◌, refl}
use mathlib.Core.Logic.{◌↔◌}
use mathlib.Core.Option.{Option, none, some}
use mathlib.Core.Bool.{Bool, true, false, ◌&&◌, ◌||◌}
use mathlib.Core.List.{List, [], ◌∷◌, ◌++◌, reverse}
use native.Mathlib.Omega.{arith}
use scuttlebot.Common.Tests.{if◌then◌else◌, ◌==◌, leb}
use scuttlebot.Common.Lists.{length, drop}

abbrev pub Text : Type 0
Text = List ℕ

-- A literal. Those of the development are ASCII.
abbrev pub bytes : String → Text
bytes String.[] = []
bytes (String.◌∷◌ c s) = code c ∷ bytes s

unfoldable pub text_eq : Text → Text → Bool
text_eq [] [] = true
text_eq [] (b ∷ t) = false
text_eq (a ∷ s) [] = false
text_eq (a ∷ s) (b ∷ t) = a == b && text_eq s t

pub text_eq_refl : (s : Text) → text_eq s s ≡ true
unfolding text_eq
text_eq_refl [] = refl
text_eq_refl (a ∷ s) = ground (arith, text_eq_refl s)

pub text_eq_sound : (s t : Text) → text_eq s t ≡ true → s ≡ t
unfolding text_eq
text_eq_sound [] [] h = refl
text_eq_sound [] (b ∷ t) h = cc
text_eq_sound (a ∷ s) [] h = cc
text_eq_sound (a ∷ s) (b ∷ t) h = ground (arith, text_eq_sound s t)

pub text_eq_iff : (s t : Text) → (text_eq s t ≡ true) ↔ (s ≡ t)
text_eq_iff s t = (text_eq_sound s t, λ e. rw e (text_eq_refl t))

-- strings.HasPrefix
unfoldable pub has_prefix : Text → Text → Bool
has_prefix s [] = true
has_prefix [] (p ∷ ps) = false
has_prefix (c ∷ s) (p ∷ ps) = c == p && has_prefix s ps

has_prefix_sound : (s p : Text) → has_prefix s p ≡ true → s ≡ p ++ drop (length p) s
unfolding has_prefix
has_prefix_sound s [] h = refl
has_prefix_sound [] (p ∷ ps) h = cc
has_prefix_sound (c ∷ s) (p ∷ ps) h = ground (arith, has_prefix_sound s ps)

pub has_prefix-append : (p rest : Text) → has_prefix (p ++ rest) p ≡ true
unfolding has_prefix
has_prefix-append [] rest = refl
has_prefix-append (c ∷ p) rest = ground (arith, has_prefix-append p rest)

pub has_prefix_iff : (s p : Text) → (has_prefix s p ≡ true) ↔ ((rest : Text) × (s ≡ p ++ rest))
has_prefix_iff s p =
    (λ h. (drop (length p) s, has_prefix_sound s p h), λ (rest, e). rw e (has_prefix-append p rest))

-- strings.TrimPrefix
unfoldable pub trim_prefix : Text → Text → Text
unfolding has_prefix
trim_prefix s p = if has_prefix s p then drop (length p) s else s

unfoldable pub contains_byte : Text → ℕ → Bool
contains_byte [] b = false
contains_byte (c ∷ s) b = c == b || contains_byte s b

-- strings.ContainsAny
unfoldable pub contains_any : Text → Text → Bool
unfolding contains_byte
contains_any [] set = false
contains_any (c ∷ s) set = contains_byte set c || contains_any s set

unfoldable pub is_space : ℕ → Bool
is_space c = c == 32 || (leb 9 c && leb c 13)

unfoldable pub drop_while : (ℕ → Bool) → Text → Text
drop_while p [] = []
drop_while p (c ∷ s) = let rest = drop_while p s in if p c then rest else c ∷ s

unfoldable pub trim_left : (ℕ → Bool) → Text → Text
unfolding drop_while
trim_left p s = drop_while p s

unfoldable pub trim_right : (ℕ → Bool) → Text → Text
unfolding drop_while
trim_right p s = reverse (drop_while p (reverse s))

-- strings.TrimSpace
unfoldable pub trim_space : Text → Text
unfolding trim_left trim_right is_space
trim_space s = trim_right is_space (trim_left is_space s)

unfoldable pub lower_byte : ℕ → ℕ
lower_byte c = if leb 65 c && leb c 90 then c + 32 else c

-- strings.ToLower
unfoldable pub to_lower : Text → Text
unfolding lower_byte
to_lower [] = []
to_lower (c ∷ s) = lower_byte c ∷ to_lower s

-- strings.Split at one byte, the current piece in reverse.
unfoldable pub split_from : ℕ → Text → Text → List Text
split_from sep acc [] = reverse acc ∷ []
split_from sep acc (c ∷ s) =
    let cut = split_from sep [] s in
    let more = split_from sep (c ∷ acc) s in if c == sep then reverse acc ∷ cut else more

unfoldable pub split_on : ℕ → Text → List Text
unfolding split_from
split_on sep s = split_from sep [] s

-- strings.Fields, the current word in reverse.
unfoldable pub fields_from : Text → Text → List Text
unfolding is_space
fields_from [] [] = []
fields_from (a ∷ acc) [] = reverse (a ∷ acc) ∷ []
fields_from [] (c ∷ s) =
    let skip = fields_from [] s in
    let word = fields_from (c ∷ []) s in if is_space c then skip else word
fields_from (a ∷ acc) (c ∷ s) =
    let cut = fields_from [] s in
    let more = fields_from (c ∷ a ∷ acc) s in if is_space c then reverse (a ∷ acc) ∷ cut else more

unfoldable pub fields : Text → List Text
unfolding fields_from
fields s = fields_from [] s

-- strings.Join
unfoldable pub join : Text → List Text → Text
join sep [] = []
join sep (t ∷ []) = t
join sep (t ∷ u ∷ ts) = t ++ (sep ++ join sep (u ∷ ts))

-- strings.Contains
unfoldable pub contains : Text → Text → Bool
unfolding has_prefix
contains [] sub = has_prefix [] sub
contains (c ∷ s) sub = has_prefix (c ∷ s) sub || contains s sub

-- strings.Index: the first place where the text stands.
unfoldable pub index_of : Text → Text → Option ℕ
unfolding has_prefix
index_of [] sub = if has_prefix [] sub then some 0 else none
index_of (c ∷ s) sub =
    let later = index_of s sub in
    if has_prefix (c ∷ s) sub then some 0 else (elim later [ none ↦ none | some i ↦ some (i + 1) ])
