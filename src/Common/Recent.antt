-- ===== src/Common/Recent.antt =====
-- The last entries of a list that grows at its end.
use Prim.Native.Nat.{ℕ, zero, suc, ◌+◌, ◌-◌, ◌≤◌}
use mathlib.Core.Path.{◌≡◌, refl, ap, sym, ◌∙◌}
use mathlib.Core.Logic.{inl, inr}
use mathlib.Core.Bool.{true}
use mathlib.Core.List.{List, [], ◌∷◌, ◌++◌}
use native.Mathlib.Omega.{arith}
use scuttlebot.Common.Tests.{ltb, Bool-cases}
use scuttlebot.Common.Lists.{length, length-append, length-drop, drop, take, keep_last, set}

add_zero : (j : ℕ) → 0 + j ≡ j
add_zero j = omega arith

suc_add : (k j : ℕ) → suc k + j ≡ suc (k + j)
suc_add k j = omega arith

module _ {ℓ} {A : Type ℓ} where
  pub drop_all-append :
      (k : ℕ) (xs ys : List A) → k ≤ length xs → drop k (xs ++ ys) ≡ drop k xs ++ ys
  drop_all-append zero xs ys h = refl
  drop_all-append (suc k) [] ys h = ground arith
  drop_all-append (suc k) (x ∷ xs) ys h = drop_all-append k xs ys (omega (arith, h))

  drop-nil : (j : ℕ) → drop {A = A} j [] ≡ []
  drop-nil zero = refl
  drop-nil (suc j) = refl

  pub drop-drop : (j k : ℕ) (xs : List A) → drop j (drop k xs) ≡ drop (k + j) xs
  drop-drop j zero xs = rw (add_zero j) refl
  drop-drop j (suc k) [] = rw (suc_add k j) (drop-nil j)
  drop-drop j (suc k) (x ∷ xs) = rw (suc_add k j) (drop-drop j k xs)

  pub keep_last_lem : (n : ℕ) (xs : List A) → keep_last n xs ≡ drop (length xs - n) xs
  keep_last_lem n xs = elim (Bool-cases (ltb n (length xs))) [
    | inl long ↦ rw long refl
    | inr short ↦ let none_left : length xs - n ≡ 0 = ground arith in rw (short, none_left) refl
  ]

  -- Keeping the last entries after every addition keeps the last entries of the whole.
  pub keep_last-keep_last :
      (n : ℕ) (xs : List A) (x : A)
      → keep_last n (keep_last n xs ++ (x ∷ [])) ≡ keep_last n (xs ++ (x ∷ []))
  keep_last-keep_last n xs x =
      let k : ℕ = length xs - n in
      let whole = xs ++ (x ∷ []) in
      let in_part : keep_last n xs ++ (x ∷ []) ≡ drop (length xs - n) whole =
        rw (keep_last_lem n xs) (sym (drop_all-append (length xs - n) xs (x ∷ []) (omega arith))) in
      let size : (length xs - n) + (length (drop (length xs - n) whole) - n) ≡ length whole - n =
        omega (arith, length-drop (length xs - n) whole, length-append xs (x ∷ [])) in
      rw in_part (
        keep_last_lem n (drop (length xs - n) whole)
        ∙ drop-drop _ (length xs - n) whole
        ∙ ap (λ i. drop i whole) size
        ∙ sym (keep_last_lem n whole))

module _ {ℓ} {A : Type ℓ} where
  pub set-append : (xs ys : List A) (y v : A) → set (xs ++ (y ∷ ys)) (length xs) v ≡ xs ++ (v ∷ ys)
  set-append [] ys y v = refl
  set-append (x ∷ xs) ys y v = ap (λ (zs : List A). x ∷ zs) (set-append xs ys y v)

  pub take-append_length : (xs ys : List A) → take (length xs) (xs ++ ys) ≡ xs
  take-append_length [] ys = refl
  take-append_length (x ∷ xs) ys = ap (λ (zs : List A). x ∷ zs) (take-append_length xs ys)

  pub drop-append_length : (xs ys : List A) → drop (length xs) (xs ++ ys) ≡ ys
  drop-append_length [] ys = refl
  drop-append_length (x ∷ xs) ys = drop-append_length xs ys

  pub keep_last_short : (n : ℕ) (xs : List A) → length xs ≤ n → keep_last n xs ≡ xs
  keep_last_short n xs h = ground arith

  pub keep_last_full : (n : ℕ) (x : A) (xs : List A) → length xs ≡ n → keep_last n (x ∷ xs) ≡ xs
  keep_last_full n x xs h =
      let one : suc (length xs) - n ≡ 1 = omega arith in
      let long : ltb n (suc (length xs)) ≡ true = ground arith in rw (long, one) refl

  pub snoc_append : (xs : List A) (y : A) (ys : List A) → (xs ++ (y ∷ [])) ++ ys ≡ xs ++ (y ∷ ys)
  snoc_append [] y ys = refl
  snoc_append (x ∷ xs) y ys = ap (λ (zs : List A). x ∷ zs) (snoc_append xs y ys)

  pub append_nil : (xs : List A) → xs ++ [] ≡ xs
  append_nil [] = refl
  append_nil (x ∷ xs) = ap (λ (zs : List A). x ∷ zs) (append_nil xs)

  pub append_assoc : (xs ys zs : List A) → (xs ++ ys) ++ zs ≡ xs ++ (ys ++ zs)
  append_assoc [] ys zs = refl
  append_assoc (x ∷ xs) ys zs = ap (λ (ws : List A). x ∷ ws) (append_assoc xs ys zs)
