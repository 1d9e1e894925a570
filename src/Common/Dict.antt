-- ===== src/Common/Dict.antt =====
-- Go maps with text keys, as association lists: an absent key reads as `none`. The order of the
-- entries stands for the order of one iteration over the map.
use scuttlebot.Common.{Bool-cases}
use mathlib.Core.Path.{◌≡◌, refl}
use mathlib.Core.Logic.{◌≢◌, inl, inr}
use mathlib.Core.Option.{Option, none, some}
use mathlib.Core.List.{List, [], ◌∷◌}
use native.Mathlib.Omega.{arith}
use scuttlebot.Common.Bytes.{Text, text_eq, text_eq_iff, text_eq_refl}
use scuttlebot.Common.Tests.{Bool-cases, if◌then◌else◌}

abbrev pub Dict {ℓ} : Type ℓ → Type ℓ
Dict V = List (Text × V)

module _ {ℓ} {V : Type ℓ} where
  -- m[k]
  unfoldable pub get : Dict V → Text → Option V
  get [] k = none
  get ((j, v) ∷ d) k = if text_eq j k then some v else get d k

  -- m[k] = v
  unfoldable pub put : Dict V → Text → V → Dict V
  put [] k v = (k, v) ∷ []
  put ((j, w) ∷ d) k v = if text_eq j k then (j, v) ∷ d else (j, w) ∷ put d k v

  -- delete(m, k)
  unfoldable pub remove : Dict V → Text → Dict V
  remove [] k = []
  remove ((j, v) ∷ d) k = let rest = remove d k in if text_eq j k then rest else (j, v) ∷ rest

  pub get-put :
      (d : Dict V) (k j : Text) (v : V)
      → get (put d k v) j ≡ (if text_eq k j then some v else get d j)
  unfolding get put
  get-put [] k j v = refl
  get-put ((i, w) ∷ d) k j v =
      ground (arith, text_eq_iff k j, text_eq_iff i k, text_eq_iff i j, get-put d k j v)

  pub get-remove :
      (d : Dict V) (k j : Text) → get (remove d k) j ≡ (if text_eq k j then none else get d j)
  unfolding get remove
  get-remove [] k j = ground arith
  get-remove ((i, w) ∷ d) k j =
      ground (arith, text_eq_iff k j, text_eq_iff i k, text_eq_iff i j, get-remove d k j)

  pub get-put_self : (d : Dict V) (k : Text) (v : V) → get (put d k v) k ≡ some v
  get-put_self d k v = rw (get-put d k k v, text_eq_refl k)

  pub get-remove_self : (d : Dict V) (k : Text) → get (remove d k) k ≡ none
  get-remove_self d k = rw (get-remove d k k, text_eq_refl k)

  pub get-put_ne : (d : Dict V) (k j : Text) (v : V) → k ≢ j → get (put d k v) j ≡ get d j
  get-put_ne d k j v h = ground (arith, text_eq_iff k j, get-put d k j v)

  pub get-remove_ne : (d : Dict V) (k j : Text) → k ≢ j → get (remove d k) j ≡ get d j
  get-remove_ne d k j h = ground (arith, text_eq_iff k j, get-remove d k j)

  -- No key stands twice, as in a Go map.
  abbrev pub IsMap : Dict V → Type ℓ
  IsMap [] = Unit
  IsMap ((k, v) ∷ d) = (get d k ≡ none) × IsMap d

  pub put-IsMap : (d : Dict V) (k : Text) (v : V) → IsMap d → IsMap (put d k v)
  unfolding put get
  put-IsMap [] k v m = (refl, tt)
  put-IsMap ((j, w) ∷ d) k v m = elim (Bool-cases (text_eq j k)) [
    | inl same ↦ rw same m
    | inr other ↦ rw other (
      ground (arith, get-put d k j v, text_eq_iff k j, text_eq_iff j k, m.0),
      put-IsMap d k v m.1,
    )
  ]

  pub remove-IsMap : (d : Dict V) (k : Text) → IsMap d → IsMap (remove d k)
  unfolding remove get
  remove-IsMap [] k m = tt
  remove-IsMap ((j, w) ∷ d) k m = elim (Bool-cases (text_eq j k)) [
    | inl same ↦ rw same (remove-IsMap d k m.1)
    | inr other ↦ rw other (ground (arith, get-remove d k j), remove-IsMap d k m.1)
  ]

-- The same change of every value.
module _ {ℓ κ} {V : Type ℓ} {W : Type κ} where
  unfoldable pub map_values : (V → W) → Dict V → Dict W
  map_values f [] = []
  map_values f ((k, v) ∷ d) = (k, f v) ∷ map_values f d

  abbrev pub map_option : (V → W) → Option V → Option W
  map_option f none = none
  map_option f (some v) = some (f v)

  pub get-map_values :
      (f : V → W) (d : Dict V) (k : Text) → get (map_values f d) k ≡ map_option f (get d k)
  unfolding map_values get
  get-map_values f [] k = refl
  get-map_values f ((j, v) ∷ d) k = ground (arith, get-map_values f d k)

module _ {ℓ κ} {V : Type ℓ} {W : Type κ} where
  pub map_values-IsMap : (f : V → W) (d : Dict V) → IsMap d → IsMap (map_values f d)
  unfolding map_values
  map_values-IsMap f [] m = tt
  map_values-IsMap f ((j, v) ∷ d) m =
      (ground (arith, get-map_values f d j), map_values-IsMap f d m.1)
