-- ===== src/IrcAgent/Mentions.antt =====
-- When a text mentions a nick.
use scuttlebot.Common.{
  length-append, has_prefix_iff, get_elem?, to_lower, ◌∙◌, ◌∙◌, ◌∙◌, ◌∙◌, ◌∙◌, ◌∙◌, ◌∙◌, ◌∙◌, ◌∙◌,
  ◌∙◌, ◌∙◌, ◌∙◌, ◌∙◌, ◌∙◌, ◌∙◌, ◌∙◌, ◌∙◌, ◌∙◌, ◌∙◌, drop, ◌∙◌, has_prefix, length-drop, ℕ, zero,
  suc, ◌+◌, ◌-◌, ◌≤◌, ◌<◌, Text, [], ◌∷◌, ◌++◌, Bool, true, false, ◌&&◌, some, ◌≡◌, ◌⊎◌, inl, inr,
  refl, sym, ap, ◌∙◌, arith, Bool-cases, ltb, leb, ◌==◌, length,
}
use scuttlebot.Common.Searching.{index_of-prefix, index_of-First, has_prefix-fits}
use scuttlebot.Common.Recent.{drop-drop}
use scuttlebot.IrcAgent.{
  standalone, Search, answer, mentions_from, mentions_nick, contains_word, byte_is, is_al_num,
}

-- The nick stands at a place, and no letter, digit or other byte of a name stands beside it.
abbrev pub mention_at : Text → Text → ℕ → Bool
mention_at lower needle i = has_prefix (drop i lower) needle && standalone lower needle i

-- Nothing stands past the end of a text.
past_end : (s n : Text) (i : ℕ) → 0 < length n → length s < i → has_prefix (drop i s) n ≡ false
past_end s n i some_byte beyond = elim (Bool-cases (has_prefix (drop i s) n)) [
  | inl h ↦ ground (arith, has_prefix-fits (drop i s) n h, length-drop i s)
  | inr h ↦ h
]

-- What is said of the places of the rest of a text, said of the places of the whole.
shifted :
    (s n : Text) (start i : ℕ)
    → start ≤ i
    → has_prefix (drop (i - start) (drop start s)) n ≡ has_prefix (drop i s) n
shifted s n start i h =
    ap (λ t. has_prefix t n) (drop-drop (i - start) start s ∙ ap (λ j. drop j s) (omega (arith, h)))

no_mention : (s n : Text) (i : ℕ) → has_prefix (drop i s) n ≡ false → mention_at s n i ≡ false
no_mention s n i h = rw h refl

-- The loop of MentionsNick decides whether the nick is mentioned at `start` or later.
Decides : Search → Text → Text → ℕ → Type 0
Decides r lower needle start =
    ((r ≡ answer true) × (i : ℕ) × (mention_at lower needle i ≡ true))
    ⊎ ((r ≡ answer false) × ((i : ℕ) → start ≤ i → mention_at lower needle i ≡ false))

-- Every place from `start` on is before the place found, that place, or after it.
none_until :
    (lower needle : Text) (start k : ℕ)
    → ((i : ℕ) → i < k → has_prefix (drop i (drop start lower)) needle ≡ false)
    → mention_at lower needle (k + start) ≡ false
    → ((i : ℕ) → k + start + 1 ≤ i → mention_at lower needle i ≡ false)
    → (i : ℕ) → start ≤ i
    → mention_at lower needle i ≡ false
none_until lower needle start k before at after i late = elim (Bool-cases (ltb i (k + start))) [
  | inl early ↦
      no_mention lower needle i
        (sym (shifted lower needle start i late) ∙ before (i - start) (ground arith))
  | inr later ↦ elim (Bool-cases (i == k + start)) [
    | inl same ↦ ap (λ j. mention_at lower needle j) (ground arith) ∙ at
    | inr other ↦ after i (ground arith)
  ]
]

none_after :
    (lower needle : Text) (start : ℕ)
    → 0 < length needle
    → ((i : ℕ)
        → i ≤ length (drop start lower)
        → has_prefix (drop i (drop start lower)) needle ≡ false)
    → (i : ℕ) → start ≤ i
    → mention_at lower needle i ≡ false
none_after lower needle start named absent i late =
    no_mention lower needle i (elim (Bool-cases (leb i (length lower))) [
      | inl inside ↦
          sym (shifted lower needle start i late)
          ∙ absent (i - start) (ground (arith, length-drop start lower))
      | inr beyond ↦ past_end lower needle i named (ground arith)
    ])

mentions_from-Decides :
    (fuel : ℕ) (lower needle : Text) (start : ℕ)
    → 0 < length needle
    → start ≤ length lower
    → length lower + 2 ≤ fuel + start
    → Decides (mentions_from fuel lower needle start) lower needle start
unfolding mentions_from Decides
mentions_from-Decides zero lower needle start named inside enough = ground arith
mentions_from-Decides (suc fuel) lower needle start named inside enough =
    let in_range : ltb (length lower) start ≡ false = ground arith in
    let size = length-drop start lower in
    elim (index_of-First (drop start lower) needle) [
      | inl (k, e, (at, before, fits)) ↦
          let here : has_prefix (drop (k + start) lower) needle ≡ true =
            ap (λ t. has_prefix t needle)
              (ap (λ j. drop j lower) (omega arith) ∙ sym (drop-drop k start lower))
            ∙ at in
          elim (Bool-cases (standalone lower needle (k + start))) [
            | inl alone ↦ rw (in_range, e, alone) (inl (refl, k + start, rw (here, alone) refl))
            | inr beside ↦
                rw (in_range, e, beside)
                  (elim (mentions_from-Decides fuel lower needle (k + start + 1) named
                    (omega (arith, fits, size, named)) (omega (arith, enough))) [
                      | inl found ↦ inl found
                      | inr (e', after) ↦ inr (
                        e',
                        none_until lower needle start k before (rw (here, beside) refl) after,
                      )
                    ])
          ]
      | inr (e, absent) ↦ rw (in_range, e) (inr (refl, none_after lower needle start named absent))
    ]

length-to_lower : (s : Text) → length (to_lower s) ≡ length s
unfolding to_lower
length-to_lower [] = refl
length-to_lower (c ∷ s) = ap suc (length-to_lower s)

-- For a nick that is not empty, the search for a mention ends with an answer: yes, where the nick stands
-- somewhere in the text in any case with no byte of a name beside it, and no, where it does so nowhere.
pub mentions_nick-Decides :
    (text nick : Text)
    → 0 < length nick
    → ((mentions_nick text nick ≡ answer true)
        × (i : ℕ) × (mention_at (to_lower text) (to_lower nick) i ≡ true))
      ⊎ ((mentions_nick text nick ≡ answer false)
          × ((i : ℕ) → mention_at (to_lower text) (to_lower nick) i ≡ false))
unfolding mentions_nick Decides
mentions_nick-Decides text nick named =
    let size = length-to_lower text in
    elim (mentions_from-Decides (length text + 2) (to_lower text) (to_lower nick) 0
      (omega (arith, length-to_lower nick, named)) (omega arith) (omega (arith, size))) [
        | inl found ↦ inl found
        | inr (e', nowhere) ↦ inr (e', λ i. nowhere i (omega arith))
      ]

get_elem?-after :
    (word : Text) (c : ℕ) (rest : Text) → get_elem? (word ++ (c ∷ rest)) (length word) ≡ some c
get_elem?-after [] c rest = refl
get_elem?-after (d ∷ word) c rest = get_elem?-after word c rest

-- A text that starts with the word and then goes on with a byte of a name does not contain the word for
-- containsWord, whatever comes later.
pub contains_word-first :
    (word : Text) (c : ℕ) (rest : Text)
    → is_al_num c ≡ true
    → contains_word (word ++ (c ∷ rest)) word ≡ false
unfolding contains_word
contains_word-first word c rest named =
    let found =
      index_of-prefix (word ++ (c ∷ rest)) word
        ((has_prefix_iff (word ++ (c ∷ rest)) word).1 (c ∷ rest, refl)) in
    let next : get_elem? (word ++ (c ∷ rest)) (0 + length word) ≡ some c =
      ap (λ i. get_elem? (word ++ (c ∷ rest)) i) (omega arith) ∙ get_elem?-after word c rest in
    let inside : leb (length (word ++ (c ∷ rest))) (0 + length word) ≡ false =
      ground (arith, length-append word (c ∷ rest)) in
    let adjacent : byte_is is_al_num (word ++ (c ∷ rest)) (0 + length word) ≡ true =
      rw (byte_is, next) named in
    rw (contains_word, found, adjacent, inside) refl
