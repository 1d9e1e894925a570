-- ===== src/Common/Searching.antt =====
-- Where a text stands in another.
use scuttlebot.Common.{
  Bool-cases, if◌then◌else◌, drop, length, has_prefix, index_of, Text, ℕ, zero, suc, ◌<◌, ◌≤◌, ◌+◌,
  none, some, true, false, ◌≡◌, ◌∙◌, ◌⊎◌, ap, refl, arith, [], ◌∷◌, inl, inr,
}

-- A text stands at `k` and at no place before.
abbrev pub First : Text → Text → ℕ → Type 0
First s n k =
    (has_prefix (drop k s) n ≡ true)
    × ((i : ℕ) → i < k → has_prefix (drop i s) n ≡ false)
    × (k + length n ≤ length s)

pub has_prefix-fits : (s n : Text) → has_prefix s n ≡ true → length n ≤ length s
unfolding has_prefix
has_prefix-fits s [] h = omega arith
has_prefix-fits [] (c ∷ n) h = ground arith
has_prefix-fits (d ∷ s) (c ∷ n) h = ground (arith, has_prefix-fits s n)

First-here : (s n : Text) → has_prefix s n ≡ true → First s n 0
First-here s n h = (h, λ i small. ground arith, omega (arith, has_prefix-fits s n h))

First-later :
    (c : ℕ) (s n : Text) (k : ℕ)
    → has_prefix (c ∷ s) n ≡ false
    → First s n k
    → First (c ∷ s) n (suc k)
First-later c s n k not_here (at, before, fits) = (at, go, omega (arith, fits))
  where
    go : (i : ℕ) → i < suc k → has_prefix (drop i (c ∷ s)) n ≡ false
    go zero h = not_here
    go (suc i) h = before i (omega (arith, h))

index_of-cons_none :
    (c : ℕ) (s n : Text)
    → has_prefix (c ∷ s) n ≡ false
    → index_of s n ≡ none
    → index_of (c ∷ s) n ≡ none
unfolding index_of
index_of-cons_none c s n h e = rw (h, e) refl

index_of-cons_some :
    (c : ℕ) (s n : Text) (j : ℕ)
    → has_prefix (c ∷ s) n ≡ false
    → index_of s n ≡ some j
    → index_of (c ∷ s) n ≡ some (j + 1)
unfolding index_of
index_of-cons_some c s n j h e = rw (h, e) refl

index_of-cons_here :
    (c : ℕ) (s n : Text) → has_prefix (c ∷ s) n ≡ true → index_of (c ∷ s) n ≡ some 0
unfolding index_of
index_of-cons_here c s n h = rw h refl

index_of-nil : (n : Text) → index_of [] n ≡ (if has_prefix [] n then some 0 else none)
unfolding index_of
index_of-nil n = refl

-- The place found is the first one; where none is found, there is none.
pub index_of-First :
    (s n : Text)
    → ((k : ℕ) × (index_of s n ≡ some k) × First s n k)
      ⊎ ((index_of s n ≡ none) × ((i : ℕ) → i ≤ length s → has_prefix (drop i s) n ≡ false))
index_of-First [] n = elim (Bool-cases (has_prefix [] n)) [
  | inl h ↦ inl (0, index_of-nil n ∙ rw h refl, First-here [] n h)
  | inr h ↦ inr (index_of-nil n ∙ rw h refl, λ i small. nil-drop i n h)
]
  where
    nil-drop : (i : ℕ) (n : Text) → has_prefix [] n ≡ false → has_prefix (drop i []) n ≡ false
    nil-drop zero n h = h
    nil-drop (suc i) n h = h
index_of-First (c ∷ s) n = elim (Bool-cases (has_prefix (c ∷ s) n)) [
  | inl h ↦ inl (0, index_of-cons_here c s n h, First-here (c ∷ s) n h)
  | inr h ↦ elim (index_of-First s n) [
    | inl (k, e, first) ↦
        inl (
          suc k,
          index_of-cons_some c s n k h e ∙ ap some (omega arith),
          First-later c s n k h first,
        )
    | inr (e, absent) ↦ inr (index_of-cons_none c s n h e, absent-cons c s n h absent)
  ]
]
  where
    absent-cons :
        (c : ℕ) (s n : Text)
        → has_prefix (c ∷ s) n ≡ false
        → ((i : ℕ) → i ≤ length s → has_prefix (drop i s) n ≡ false)
        → (i : ℕ) → i ≤ length (c ∷ s)
        → has_prefix (drop i (c ∷ s)) n ≡ false
    absent-cons c s n h absent zero small = h
    absent-cons c s n h absent (suc i) small = absent i (omega (arith, small))

pub index_of-prefix : (s n : Text) → has_prefix s n ≡ true → index_of s n ≡ some 0
index_of-prefix [] n h = index_of-nil n ∙ rw h refl
index_of-prefix (c ∷ s) n h = index_of-cons_here c s n h
