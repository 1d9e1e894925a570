-- ===== src/Bridge/History.antt =====
-- The circular buffer implements the list of the last messages, oldest first.
use scuttlebot.Common.Recent.{
  keep_last-keep_last, snoc_append, keep_last_full, append_nil, keep_last_short, set-append,
  append_assoc, drop-append_length, take-append_length,
}
use scuttlebot.Common.{
  length-replicate, replicate, length-append, ◌%◌, keep_last, ℕ, zero, suc, ◌+◌, ◌<◌, List, [], ◌∷◌,
  ◌++◌, true, false, ◌≡◌, ◌⊎◌, inl, inr, refl, sym, ap, ◌∙◌, arith, Bool-cases, if◌then◌else◌, ltb,
  ◌==◌, length,
}
use scuttlebot.Bridge.Ring.{RingBuf, push, snapshot, new_ring_buf}

wrapped : (head c : ℕ) → head + 1 ≡ c → (head + 1) % c ≡ 0
wrapped head c e = grind arith

size_last :
    (c size n : ℕ)
    → n + 1 ≡ c
    → (size ≡ n) ⊎ (size ≡ c)
    → (if ltb size c then size + 1 else size) ≡ c
size_last c size n e (inl s) = ground arith
size_last c size n e (inr s) = ground arith

inside : (head c : ℕ) → head + 1 < c → (head + 1) % c ≡ head + 1
inside head c h = grind arith

size_below : (c size n : ℕ) → size ≡ n → size < c → (if ltb size c then size + 1 else size) ≡ suc n
size_below c size n s h = ground arith

size_full : (c size : ℕ) → size ≡ c → (if ltb size c then size + 1 else size) ≡ c
size_full c size s = ground arith

module _ {ℓ} {A : Type ℓ} where
  -- What a buffer stands for. The slots are those before the head, the one at the head, and the rest.
  -- While the buffer fills, the messages kept are those before the head; then they go round from it.
  pub record Holds (r : RingBuf A) (kept : List A) : Type ℓ where
    pub before : List A
    pub next : A
    pub after : List A
    pub slots : r.msgs ≡ before ++ (next ∷ after)
    pub at : r.head ≡ length before
    pub sized : length before + suc (length after) ≡ r.cap
    pub shows :
        ((r.size ≡ length before) × (r.size < r.cap) × (kept ≡ before))
        ⊎ ((r.size ≡ r.cap) × (kept ≡ (next ∷ after) ++ before))

  length_zero : (xs : List A) → length xs ≡ 0 → xs ≡ []
  length_zero [] h = refl
  length_zero (x ∷ xs) h = absurd (omega (arith, h))

  filling :
      (r : RingBuf A) (kept : List A) (h : Holds r kept)
      → r.size ≡ length h.before
      → kept ≡ h.before
      → snapshot r ≡ kept
  unfolding snapshot
  filling r kept h size same = elim (Bool-cases (r.size == 0)) [
    | inl none_yet ↦ rw (snapshot, none_yet) (sym (same ∙ length_zero h.before (ground arith)))
    | inr some_yet ↦
        let below : ltb r.size r.cap ≡ true = ground (arith, h.sized) in
        rw
          (snapshot, some_yet, below, size, h.slots, take-append_length h.before (h.next ∷ h.after))
          (sym same)
  ]

  round :
      (r : RingBuf A) (kept : List A) (h : Holds r kept)
      → r.size ≡ r.cap
      → kept ≡ (h.next ∷ h.after) ++ h.before
      → snapshot r ≡ kept
  unfolding snapshot
  round r kept h size same =
      let some_yet : (r.size == 0) ≡ false = ground (arith, h.sized) in
      let full : ltb r.size r.cap ≡ false = ground arith in
      rw
        (
          snapshot,
          some_yet,
          full,
          h.slots,
          h.at,
          take-append_length h.before (h.next ∷ h.after),
          drop-append_length h.before (h.next ∷ h.after),
        )
        (sym same)

  snapshot-Holds : (r : RingBuf A) (kept : List A) → Holds r kept → snapshot r ≡ kept
  snapshot-Holds r kept h = elim h.shows [
    | inl (size, lt, same) ↦ filling r kept h size same
    | inr (size, same) ↦ round r kept h size same
  ]

  first : List A → A → A
  first [] m = m
  first (x ∷ xs) m = x

  others : List A → A → List A
  others [] m = []
  others (x ∷ xs) m = xs ++ (m ∷ [])

  snoc_split : (xs : List A) (m : A) → xs ++ (m ∷ []) ≡ first xs m ∷ others xs m
  unfolding first others
  snoc_split [] m = refl
  snoc_split (x ∷ xs) m = refl

  length-snoc : (xs : List A) (m : A) → length (xs ++ (m ∷ [])) ≡ suc (length xs)
  length-snoc xs m = omega (arith, length-append xs (m ∷ []))

  -- The messages that are kept after one more, where the next slot is the last one of the buffer.
  kept_last :
      (cap size : ℕ) (kept before : List A) (next m : A)
      → length before + 1 ≡ cap
      → ((size ≡ length before) × (kept ≡ before)) ⊎ ((size ≡ cap) × (kept ≡ next ∷ before))
      → keep_last cap (kept ++ (m ∷ [])) ≡ before ++ (m ∷ [])
  kept_last cap size kept before next m sized (inl (s, same)) =
      rw same
        (keep_last_short cap (before ++ (m ∷ [])) (omega (arith, length-snoc before m, sized)))
  kept_last cap size kept before next m sized (inr (s, same)) =
      rw same
        (keep_last_full cap next (before ++ (m ∷ [])) (omega (arith, length-snoc before m, sized)))

  push_last :
      (r : RingBuf A) (kept : List A) (m : A) (h : Holds r kept)
      → h.after ≡ []
      → Holds (push r m) (keep_last r.cap (kept ++ (m ∷ [])))
  unfolding push
  push_last r kept m h last =
      let total : length h.before + 1 ≡ r.cap = omega (arith, h.sized, ap length last) in
      let ends : ((r.size ≡ length h.before) × (kept ≡ h.before))
          ⊎ ((r.size ≡ r.cap) × (kept ≡ h.next ∷ h.before)) =
        elim h.shows [
          | inl (s, lt, same) ↦ inl (s, same)
          | inr (s, same) ↦ inr (s, same ∙ ap (λ (xs : List A). (h.next ∷ xs) ++ h.before) last)
        ] in
      let sizes : (r.size ≡ length h.before) ⊎ (r.size ≡ r.cap) = elim h.shows [
        | inl (s, lt, same) ↦ inl s
        | inr (s, same) ↦ inr s
      ] in
      record {
        before = [];
        next = first h.before m;
        after = others h.before m;
        slots = rw (h.slots, h.at, last) (set-append h.before [] h.next m ∙ snoc_split h.before m);
        at = rw h.at (wrapped (length h.before) r.cap total);
        sized = omega (arith, total, ap length (snoc_split h.before m), length-snoc h.before m);
        shows = inr (
          size_last r.cap r.size (length h.before) total sizes,
          kept_last r.cap r.size kept h.before h.next m total ends
              ∙ snoc_split h.before m
              ∙ sym (append_nil (first h.before m ∷ others h.before m)),
        );
      }

  kept_round :
      (cap : ℕ) (kept before rest : List A) (next a m : A)
      → length before + suc (suc (length rest)) ≡ cap
      → kept ≡ (next ∷ a ∷ rest) ++ before
      → keep_last cap (kept ++ (m ∷ [])) ≡ (a ∷ rest) ++ (before ++ (m ∷ []))
  kept_round cap kept before rest next a m sized same =
      let tail = a ∷ rest in
      let regroup : kept ++ (m ∷ []) ≡ next ∷ (tail ++ (before ++ (m ∷ []))) =
        ap (λ (xs : List A). xs ++ (m ∷ [])) same
        ∙ ap (λ (xs : List A). next ∷ xs) (append_assoc (a ∷ rest) before (m ∷ [])) in
      rw regroup (
        keep_last_full cap next ((a ∷ rest) ++ (before ++ (m ∷ []))) (
          omega
            (arith, length-append (a ∷ rest) (before ++ (m ∷ [])), length-snoc before m, sized)))

  -- There is a slot after the next one.
  push_inner :
      (r : RingBuf A) (kept : List A) (m a : A) (rest : List A) (h : Holds r kept)
      → h.after ≡ a ∷ rest
      → Holds (push r m) (keep_last r.cap (kept ++ (m ∷ [])))
  unfolding push
  push_inner r kept m a rest h more =
      let total : length h.before + suc (suc (length rest)) ≡ r.cap =
        omega (arith, h.sized, ap length more) in
      record {
        before = h.before ++ (m ∷ []);
        next = a;
        after = rest;
        slots =
            rw (h.slots, h.at, more)
              (set-append h.before (a ∷ rest) h.next m ∙ sym (snoc_append h.before m (a ∷ rest)));
        at = rw h.at (
            inside (length h.before) r.cap (omega (arith, total))
            ∙ omega (arith, length-snoc h.before m));
        sized = omega (arith, total, length-snoc h.before m);
        shows = elim h.shows [
          | inl (s, lt, same) ↦ inl (
            size_below r.cap r.size (length h.before) s lt ∙ sym (length-snoc h.before m),
            omega (arith, size_below r.cap r.size (length h.before) s lt, s, total),
            rw same (
                keep_last_short r.cap (h.before ++ (m ∷ []))
                  (omega (arith, length-snoc h.before m, total))),
          )
          | inr (s, same) ↦ inr (
            size_full r.cap r.size s,
            kept_round r.cap kept h.before rest h.next a m total
                (same ∙ ap (λ (xs : List A). (h.next ∷ xs) ++ h.before) more),
          )
        ];
      }

  after-cases : (xs : List A) → (xs ≡ []) ⊎ ((a : A) × (rest : List A) × (xs ≡ a ∷ rest))
  after-cases [] = inl refl
  after-cases (a ∷ rest) = inr (a, rest, refl)

  push-Holds :
      (r : RingBuf A) (kept : List A) (m : A)
      → Holds r kept
      → Holds (push r m) (keep_last r.cap (kept ++ (m ∷ [])))
  push-Holds r kept m h = elim (after-cases h.after) [
    | inl last ↦ push_last r kept m h last
    | inr (a, rest, more) ↦ push_inner r kept m a rest h more
  ]

  -- The buffer after these messages, in order.
  unfoldable pub push_all : RingBuf A → List A → RingBuf A
  push_all r [] = r
  push_all r (m ∷ ms) = push_all (push r m) ms

  push_all-Holds :
      (r : RingBuf A) (past ms : List A)
      → Holds r (keep_last r.cap past)
      → Holds (push_all r ms) (keep_last r.cap (past ++ ms))
  unfolding push_all push
  push_all-Holds r past [] h = rw (append_nil past) h
  push_all-Holds r past (m ∷ ms) h = rw (← snoc_append past m ms) (
      push_all-Holds (push r m) (past ++ (m ∷ [])) ms
        (rw (← keep_last-keep_last r.cap past m) (push-Holds r (keep_last r.cap past) m h)))

  pub new-Holds : (blank : A) (n : ℕ) → Holds (new_ring_buf blank (suc n)) []
  unfolding new_ring_buf
  new-Holds blank n = record {
    before = [];
    next = blank;
    after = replicate n blank;
    slots = refl;
    at = refl;
    sized = omega (arith, length-replicate n blank);
    shows = inl (refl, omega arith, refl);
  }

  -- A buffer with room for at least one message holds, after any messages, the last of them, oldest
  -- first: as many as it has room for, or all where there are fewer.
  pub snapshot-push_all :
      (blank : A) (n : ℕ) (ms : List A)
      → 0 < n
      → snapshot (push_all (new_ring_buf blank n) ms) ≡ keep_last n ms
  unfolding new_ring_buf
  snapshot-push_all blank zero ms h = absurd (omega arith)
  snapshot-push_all blank (suc n) ms h =
      snapshot-Holds (push_all (new_ring_buf blank (suc n)) ms) (keep_last (suc n) ms) (
        push_all-Holds (new_ring_buf blank (suc n)) [] ms (
          rw (keep_last_short (suc n) (let none_yet : List A = [] in none_yet) (omega arith))
            (new-Holds blank n)))
