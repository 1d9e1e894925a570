-- ===== src/Common/Trimming.antt =====
-- Trimming a text of the spaces around it.
use scuttlebot.Common.{
  drop_while, trim_left, trim_right, trim_space, is_space, contains_byte, reverse, length-append, ℕ,
  suc, ◌≤◌, ◌<◌, Text, [], ◌∷◌, ◌++◌, Bool, ◌||◌, ◌≡◌, inl, inr, refl, sym, ap, ◌∙◌, arith,
  Bool-cases, length,
}
use mathlib.Core.List.{reverse-cons, reverse, reverse-append, reverse-reverse}

pub length-drop_while : (p : ℕ → Bool) (s : Text) → length (drop_while p s) ≤ length s
unfolding drop_while
length-drop_while p [] = omega arith
length-drop_while p (c ∷ s) = ground (arith, length-drop_while p s)

drop_while-append :
    (p : ℕ → Bool) (b x : Text) → 0 < length b → drop_while p b ≡ b → drop_while p (b ++ x) ≡ b ++ x
unfolding drop_while
drop_while-append p [] x some_byte h = ground arith
drop_while-append p (c ∷ b) x some_byte h = elim (Bool-cases (p c)) [
  | inl spaced ↦
      let shorter = length-drop_while p b in
      let whole : drop_while p b ≡ c ∷ b = ground (arith, h, spaced) in
      let size : length (drop_while p b) ≡ suc (length b) = ap length whole in
      ground (arith, shorter, size)
  | inr kept ↦ rw kept refl
]

pub length-reverse : (s : Text) → length (reverse s) ≡ length s
length-reverse [] = refl
length-reverse (c ∷ s) =
    rw (reverse-cons c s) (omega (arith, length-append (reverse s) (c ∷ []), length-reverse s))

trim_right-append :
    (p : ℕ → Bool) (a b : Text) → 0 < length b → trim_right p b ≡ b → trim_right p (a ++ b) ≡ a ++ b
unfolding trim_right
trim_right-append p a b some_byte h =
    let tail : drop_while p (reverse b) ≡ reverse b =
      sym (reverse-reverse (drop_while p (reverse b))) ∙ ap reverse h in
    rw
      (
        reverse-append a b,
        drop_while-append p (reverse b) (reverse a) (omega (arith, length-reverse b, some_byte))
            tail,
        ← reverse-append a b,
      )
      (reverse-reverse (a ++ b))

-- A text that is not empty and has no space at either end.
abbrev pub Trimmed : Text → Type 0
Trimmed s = (0 < length s) × (trim_left is_space s ≡ s) × (trim_right is_space s ≡ s)

trim_left-space : (s : Text) → trim_left is_space (32 ∷ s) ≡ trim_left is_space s
unfolding trim_left is_space drop_while
trim_left-space s = refl

pub trim_left-append : (s x : Text) → Trimmed s → trim_left is_space (s ++ x) ≡ s ++ x
unfolding trim_left
trim_left-append s x (some_byte, left, right) = drop_while-append is_space s x some_byte left

trim_right-space : (s : Text) → trim_right is_space (s ++ (32 ∷ [])) ≡ trim_right is_space s
unfolding trim_right is_space drop_while
trim_right-space s = rw (reverse-append s (32 ∷ [])) refl

pub trim_space-before : (s : Text) → Trimmed s → trim_space (32 ∷ s) ≡ s
unfolding trim_space
trim_space-before s (some_byte, left, right) = rw (trim_left-space s, left) right

pub trim_space-around : (s : Text) → Trimmed s → trim_space (32 ∷ (s ++ (32 ∷ []))) ≡ s
unfolding trim_space
trim_space-around s t =
    rw (trim_left-space (s ++ (32 ∷ [])), trim_left-append s (32 ∷ []) t, trim_right-space s) t.2

-- A label that starts with no space, and a trimmed text after it.
pub Trimmed-append :
    (a b : Text) → trim_left is_space (a ++ b) ≡ a ++ b → Trimmed b → Trimmed (a ++ b)
Trimmed-append a b left (some_byte, _, right) = (
  omega (arith, some_byte, length-append a b),
  left,
  trim_right-append is_space a b some_byte right,
)

pub contains_byte-append :
    (a b : Text) (c : ℕ) → contains_byte (a ++ b) c ≡ contains_byte a c || contains_byte b c
unfolding contains_byte
contains_byte-append [] b c = refl
contains_byte-append (d ∷ a) b c = ground (arith, contains_byte-append a b c)

pub length-trim_space : (s : Text) → length (trim_space s) ≤ length s
unfolding trim_space trim_right trim_left
length-trim_space s = omega (
  arith,
  length-reverse (drop_while is_space (reverse (drop_while is_space s))),
  length-drop_while is_space (reverse (drop_while is_space s)),
  length-reverse (drop_while is_space s),
  length-drop_while is_space s,
)
