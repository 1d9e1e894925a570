-- ===== src/Common/Splitting.antt =====
-- strings.Split after strings.Join, and facts of every member of a list.
use mathlib.Core.List.{reverse-cons, append_assoc, append-nil}
use mathlib.Core.Path.{◌≡◌, refl, subst, ◌∙◌, ap}
use mathlib.Core.Logic.{inl, inr}
use mathlib.Core.Bool.{false}
use mathlib.Core.List.{List, [], ◌∷◌, ◌++◌, reverse}
use native.Mathlib.Omega.{arith}
use Prim.Native.Nat.{ℕ}
use scuttlebot.Common.Bytes.{Text, split_from, split_on, join, contains_byte}
use scuttlebot.Common.Texts.{Member}
use scuttlebot.Common.Lists.{All}

split_last :
    (sep : ℕ) (acc t : Text)
    → contains_byte t sep ≡ false
    → split_from sep acc t ≡ (reverse acc ++ t) ∷ []
unfolding split_from contains_byte
split_last sep acc [] h = rw append-nil refl
split_last sep acc (c ∷ t) h =
    ground
      (arith, split_last sep (c ∷ acc) t, reverse-cons c acc, append_assoc (reverse acc) (c ∷ []) t)

split_first :
    (sep : ℕ) (acc t rest : Text)
    → contains_byte t sep ≡ false
    → split_from sep acc (t ++ (sep ∷ rest)) ≡ (reverse acc ++ t) ∷ split_from sep [] rest
unfolding split_from contains_byte
split_first sep acc [] rest h = rw append-nil (ground arith)
split_first sep acc (c ∷ t) rest h = ground (
  arith,
  split_first sep (c ∷ acc) t rest,
  reverse-cons c acc,
  append_assoc (reverse acc) (c ∷ []) t,
)

-- Splitting at a byte undoes joining by it, where no part has the byte.
pub split_on-join :
    (sep : ℕ) (t : Text) (ts : List Text)
    → All (λ u. contains_byte u sep ≡ false) (t ∷ ts)
    → split_on sep (join (sep ∷ []) (t ∷ ts)) ≡ t ∷ ts
unfolding split_on join
split_on-join sep t [] h = split_last sep [] t h.0
split_on-join sep t (u ∷ us) h =
    split_first sep [] t (join (sep ∷ []) (u ∷ us)) h.0
    ∙ ap (λ (rest : List Text). t ∷ rest) (split_on-join sep u us h.1)

pub All-Member {ℓ} : (P : Text → Type ℓ) (x : Text) (xs : List Text) → All P xs → Member x xs → P x
All-Member P x [] h m = absurd m
All-Member P x (y ∷ xs) h (inl e) = subst P e h.0
All-Member P x (y ∷ xs) h (inr m) = All-Member P x xs h.1 m
