-- ===== src/Common/Format.antt =====
-- Case, order and quoting of texts: strings.ToUpper, sort.Strings and the verbs of package fmt that
-- the replies of the bots use.
use Prim.Native.Nat.{ℕ, ◌+◌, ◌-◌, ◌/◌, ◌%◌}
use mathlib.Core.Bool.{Bool, true, false, ◌&&◌, ◌||◌}
use mathlib.Core.List.{List, [], ◌∷◌, ◌++◌}
use scuttlebot.Common.Tests.{if◌then◌else◌, ◌==◌, leb, ltb}
use scuttlebot.Common.Lists.{length, replicate}
use scuttlebot.Common.Bytes.{Text}

-- strings.ToUpper
unfoldable pub upper_byte : ℕ → ℕ
upper_byte c = if leb 97 c && leb c 122 then c - 32 else c

unfoldable pub to_upper : Text → Text
unfolding upper_byte
to_upper [] = []
to_upper (c ∷ s) = upper_byte c ∷ to_upper s

-- Bytewise order, as Go compares strings.
unfoldable pub text_le : Text → Text → Bool
text_le [] t = true
text_le (a ∷ s) [] = false
text_le (a ∷ s) (b ∷ t) = ltb a b || (a == b && text_le s t)

unfoldable pub insert_sorted : Text → List Text → List Text
unfolding text_le
insert_sorted t [] = t ∷ []
insert_sorted t (u ∷ us) = if text_le t u then t ∷ u ∷ us else u ∷ insert_sorted t us

-- sort.Strings
unfoldable pub sort_texts : List Text → List Text
unfolding insert_sorted
sort_texts [] = []
sort_texts (t ∷ ts) = insert_sorted t (sort_texts ts)

unfoldable pub hex_digit : ℕ → ℕ
hex_digit d = if ltb d 10 then d + 48 else d + 87

unfoldable pub quote_byte : ℕ → Text
unfolding hex_digit
quote_byte c =
    if c == 34 || c == 92
    then 92 ∷ c ∷ []
    else if c == 7
    then 92 ∷ 97 ∷ []
    else if c == 8
    then 92 ∷ 98 ∷ []
    else if c == 9
    then 92 ∷ 116 ∷ []
    else if c == 10
    then 92 ∷ 110 ∷ []
    else if c == 11
    then 92 ∷ 118 ∷ []
    else if c == 12
    then 92 ∷ 102 ∷ []
    else if c == 13
    then 92 ∷ 114 ∷ []
    else if leb 32 c && ltb c 127
    then c ∷ []
    else 92 ∷ 120 ∷ hex_digit (c / 16) ∷ hex_digit (c % 16) ∷ []

unfoldable pub quote_all : Text → Text
unfolding quote_byte
quote_all [] = []
quote_all (c ∷ s) = quote_byte c ++ quote_all s

-- The verb %q of package fmt.
unfoldable pub quote : Text → Text
unfolding quote_all
quote s = 34 ∷ (quote_all s ++ (34 ∷ []))

-- The verb %-12s and the like: blanks on the right up to a width.
unfoldable pub pad_right : ℕ → Text → Text
pad_right width s = s ++ replicate (width - length s) 32
