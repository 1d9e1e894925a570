-- ===== src/ClaudeRelay/Mirror.antt =====
-- How the relay breaks a text of the session into messages, in cmd/claude-relay/main.go.
use scuttlebot.Common.{
  length-drop, drop, split_on, take, map, trim_space, ℕ, zero, suc, ◌+◌, ◌≤◌, ◌<◌, Text, text_eq,
  List, [], ◌∷◌, ◌++◌, true, false, ◌&&◌, Option, none, some, ◌≡◌, inl, inr, refl, ap, arith,
  Option-cases, Bool-cases, if◌then◌else◌, ltb, ◌==◌, length, All,
}
use scuttlebot.Common.Trimming.{length-trim_space}

abbrev pub mirror_line_max : ℕ
mirror_line_max = 360

-- strings.ReplaceAll of CR LF by LF, and then of CR by LF.
unfoldable pub replace_cr_lf : Text → Text
replace_cr_lf [] = []
replace_cr_lf (c ∷ []) = c ∷ []
replace_cr_lf (c ∷ d ∷ s) =
    let rest = replace_cr_lf (d ∷ s) in if c == 13 && d == 10 then rest else c ∷ rest

abbrev cr_to_lf : Text → Text
cr_to_lf s = map (λ c. if c == 13 then 10 else c) s

-- strings.LastIndex of one byte
unfoldable pub last_index : ℕ → Text → Option ℕ
last_index b [] = none
last_index b (c ∷ s) = elim (last_index b s) [
  | some i ↦ some (i + 1)
  | none ↦ if c == b then some 0 else none
]

-- Where a line that is too long is cut: at its last blank that leaves something before it.
unfoldable pub cut_of : Text → ℕ
unfolding last_index
cut_of line = elim (last_index 32 (take mirror_line_max line)) [
  | none ↦ mirror_line_max
  | some i ↦ if i == 0 then mirror_line_max else i
]

-- The pieces of a trimmed line, `none` when the fuel does not suffice.
unfoldable pub break_line : ℕ → Text → Option (List Text)
unfolding cut_of
break_line zero line = none
break_line (suc fuel) line =
    if ltb mirror_line_max (length line)
    then (elim (break_line fuel (trim_space (drop (cut_of line) line))) [
      | none ↦ none
      | some rest ↦ some (take (cut_of line) line ∷ rest)
    ])
    else if text_eq line []
    then some []
    else some (line ∷ [])

-- The loop of splitMirrorText over the lines.
unfoldable pub break_lines : List Text → Option (List Text)
unfolding break_line
break_lines [] = some []
break_lines (raw ∷ lines) =
    let line = trim_space raw in
    elim (break_line (length line + 1) line) [
      | none ↦ none
      | some pieces ↦ elim (break_lines lines) [ none ↦ none | some rest ↦ some (pieces ++ rest) ]
    ]

-- splitMirrorText
unfoldable pub split_mirror_text : Text → Option (List Text)
unfolding replace_cr_lf break_lines
split_mirror_text text = break_lines (split_on 10 (cr_to_lf (replace_cr_lf text)))

length-take : (n : ℕ) (s : Text) → n ≤ length s → length (take n s) ≡ n
length-take zero s h = refl
length-take (suc n) [] h = absurd (omega (arith, h))
length-take (suc n) (c ∷ s) h = ap suc (length-take n s (omega (arith, h)))

last_index-before : (b : ℕ) (s : Text) (i : ℕ) → last_index b s ≡ some i → i < length s
unfolding last_index
last_index-before b [] i h = cc
last_index-before b (c ∷ s) i h = elim (Option-cases (last_index b s)) [
  | inl absent ↦ ground (arith, h, absent)
  | inr (j, found) ↦ ground (arith, h, found, last_index-before b s j found)
]

nonzero : (i : ℕ) → i == 0 ≡ false → 0 < i
nonzero i h = ground arith

less : (a b : ℕ) → ltb a b ≡ true → a < b
less a b h = ground arith

not_less : (a b : ℕ) → ltb a b ≡ false → b ≤ a
not_less a b h = ground arith

given_byte : (s : Text) → text_eq s [] ≡ false → 0 < length s
unfolding text_eq
given_byte [] h = ground arith
given_byte (c ∷ s) h = omega arith

-- A cut leaves something before it, and not too much.
cut_of_lem :
    (line : Text)
    → mirror_line_max < length line
    → (0 < cut_of line) × (cut_of line ≤ mirror_line_max)
unfolding cut_of
cut_of_lem line long = elim (Option-cases (last_index 32 (take mirror_line_max line))) [
  | inl absent ↦ rw absent (omega arith, omega arith)
  | inr (i, found) ↦
      let before = last_index-before 32 (take mirror_line_max line) i found in
      let size = length-take mirror_line_max line (omega (arith, long)) in
      elim (Bool-cases (i == 0)) [
        | inl start ↦ rw (found, start) (omega arith, omega arith)
        | inr later ↦ rw (found, later) (nonzero i later, omega (arith, before, size))
      ]
]

-- A piece that can be sent.
abbrev pub Fits : Text → Type 0
Fits p = (0 < length p) × (length p ≤ mirror_line_max)

abbrev pub Pieces : Option (List Text) → Type 0
Pieces r = (pieces : List Text) × (r ≡ some pieces) × All Fits pieces

break_line-Pieces : (fuel : ℕ) (line : Text) → length line < fuel → Pieces (break_line fuel line)
unfolding break_line
break_line-Pieces zero line enough = absurd (omega (arith, enough))
break_line-Pieces (suc fuel) line enough = elim (Bool-cases (ltb mirror_line_max (length line))) [
  | inl long ↦
      let far = less mirror_line_max (length line) long in
      let (some_byte, few) = cut_of_lem line far in
      let size = length-take (cut_of line) line (omega (arith, far, few)) in
      let (rest, e, fit) = break_line-Pieces fuel (trim_space (drop (cut_of line) line)) (
        omega (
          arith,
          far,
          some_byte,
          few,
          enough,
          length-trim_space (drop (cut_of line) line),
          length-drop (cut_of line) line,
        )) in
      (
        take (cut_of line) line ∷ rest,
        rw (break_line, long, e) refl,
        ((omega (arith, size, some_byte), omega (arith, size, few)), fit),
      )
  | inr short ↦ elim (Bool-cases (text_eq line [])) [
    | inl blank ↦ ([], rw (break_line, short, blank) refl, tt)
    | inr given ↦ (
      line ∷ [],
      rw (break_line, short, given) refl,
      ((given_byte line given, not_less mirror_line_max (length line) short), tt),
    )
  ]
]

All-append : (P : Text → Type 0) (xs ys : List Text) → All P xs → All P ys → All P (xs ++ ys)
All-append P [] ys h h' = h'
All-append P (x ∷ xs) ys (p, h) h' = (p, All-append P xs ys h h')

break_lines-Pieces : (lines : List Text) → Pieces (break_lines lines)
unfolding break_lines
break_lines-Pieces [] = ([], refl, tt)
break_lines-Pieces (raw ∷ lines) =
    let (pieces, e, fit) =
      break_line-Pieces (length (trim_space raw) + 1) (trim_space raw) (omega arith) in
    let (rest, e', fit') = break_lines-Pieces lines in
    (pieces ++ rest, rw (break_lines, e, e') refl, All-append Fits pieces rest fit fit')

-- Every text is broken into messages, of which none is empty and none longer than 360 bytes.
pub split_mirror_text-Fits :
    (text : Text) → (pieces : List Text) × (split_mirror_text text ≡ some pieces) × All Fits pieces
unfolding split_mirror_text
split_mirror_text-Fits text = break_lines-Pieces (split_on 10 (cr_to_lf (replace_cr_lf text)))
