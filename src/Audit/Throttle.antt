-- ===== src/Audit/Throttle.antt =====
-- How many events of one type are recorded in a window.
use scuttlebot.Common.{
  ◌⊎◌, true, min, ℕ, suc, ◌+◌, ◌-◌, ◌≤◌, ◌<◌, Text, List, [], ◌∷◌, false, none, some, ◌≡◌, inl, inr,
  refl, ap, ◌∙◌, arith, Bool-cases, if◌then◌else◌, ltb, leb, length,
}
use scuttlebot.Common.Dict
use scuttlebot.Common.Dict.{Dict}
use scuttlebot.Audit.{
  write, write_summary, true, min, AuditBot, Bucket, Cap, throttle_admit, cap_for, bucket_for,
  roll_over, admit,
}

-- The bot after the throttle saw an event of a type at each of these times, and how many it let through.
pub admit_all : Text → List ℕ → AuditBot → ℕ × AuditBot
admit_all ty [] b = (0, b)
admit_all ty (t ∷ ts) b =
    let (admitted, b') = throttle_admit ty t b in
    let (n, b'') = admit_all ty ts b' in ((if admitted then 1 else 0) + n, b'')

-- Every time lies in the window that starts at `start`.
unfoldable pub InWindow : ℕ → ℕ → List ℕ → Type 0
InWindow start span [] = Unit
InWindow start span (t ∷ ts) = (start ≤ t) × (t < start + span) × InWindow start span ts

roll_over-inside :
    (rule : Cap) (now : ℕ) (bk : Bucket)
    → now - bk.window_start < bk.rule.window
    → roll_over rule now bk ≡ (0, bk)
unfolding roll_over
roll_over-inside rule now bk h =
    let open_still : leb bk.rule.window (now - bk.window_start) ≡ false = ground arith in
    rw open_still refl

buckets-admit_one :
    (ty : Text) (now : ℕ) (b : AuditBot) (rule : Cap)
    → cap_for b ty ≡ some rule
    → now - (bucket_for b ty rule now).window_start < (bucket_for b ty rule now).rule.window
    → ((throttle_admit ty now b).0 ≡ (admit (bucket_for b ty rule now)).0)
      × (Dict.get (throttle_admit ty now b).1.buckets ty
          ≡ some (admit (bucket_for b ty rule now)).1)
      × ((throttle_admit ty now b).1.throttle ≡ b.throttle)
unfolding throttle_admit
buckets-admit_one ty now b rule capped inside =
    let same = roll_over-inside rule now (bucket_for b ty rule now) inside in
    (
      rw (throttle_admit, capped, same) refl,
      rw (throttle_admit, capped, same)
          (Dict.get-put_self b.buckets ty (admit (bucket_for b ty rule now)).1),
      rw (throttle_admit, capped, same) refl,
    )

cap_for-throttle :
    (b b' : AuditBot) (ty : Text) → b'.throttle ≡ b.throttle → cap_for b' ty ≡ cap_for b ty
unfolding cap_for
cap_for-throttle b b' ty e = rw e refl

bucket_known :
    (b : AuditBot) (ty : Text) (rule : Cap) (now : ℕ) (bk : Bucket)
    → Dict.get b.buckets ty ≡ some bk
    → bucket_for b ty rule now ≡ bk
unfolding bucket_for
bucket_known b ty rule now bk h = rw (bucket_for, h) refl

bucket_new :
    (b : AuditBot) (ty : Text) (rule : Cap) (now : ℕ)
    → Dict.get b.buckets ty ≡ none
    → bucket_for b ty rule now ≡ record { rule = rule; window_start = now; count = 0; dropped = 0 }
unfolding bucket_for
bucket_new b ty rule now h = rw (bucket_for, h) refl

-- Counting a bucket up by one event.
admit_lem :
    (bk : Bucket)
    → ((admit bk).0 ≡ ltb bk.count bk.rule.max)
      × ((admit bk).1.rule ≡ bk.rule)
      × ((admit bk).1.window_start ≡ bk.window_start)
      × ((admit bk).1.count ≡ (if ltb bk.count bk.rule.max then bk.count + 1 else bk.count))
unfolding admit
admit_lem bk = elim (Bool-cases (ltb bk.count bk.rule.max)) [
  | inl h ↦ rw h (refl, refl, refl, refl)
  | inr h ↦ rw h (refl, refl, refl, refl)
]

still_few : (n max : ℕ) → n ≤ max → (if ltb n max then n + 1 else n) ≤ max
still_few n max h = ground arith

spent :
    (n len max : ℕ)
    → n ≤ max
    → (if ltb n max then 1 else 0) + min len (max - (if ltb n max then n + 1 else n))
      ≡ min (suc len) (max - n)
spent n len max h = ground arith

-- The bot whose open bucket for a type is known, when an event of the type comes in its window.
next_known :
    (ty : Text) (t : ℕ) (b : AuditBot) (rule : Cap) (bk : Bucket)
    → cap_for b ty ≡ some rule
    → bucket_for b ty rule t ≡ bk
    → bk.rule ≡ rule
    → bk.window_start ≤ t
    → t < bk.window_start + rule.window
    → ((throttle_admit ty t b).0 ≡ ltb bk.count rule.max)
      × (Dict.get (throttle_admit ty t b).1.buckets ty ≡ some (admit bk).1)
      × (cap_for (throttle_admit ty t b).1 ty ≡ some rule)
next_known ty t b rule bk capped known ruled from before =
    let (first, stored, throttle) =
      buckets-admit_one ty t b rule capped (rw (known, ruled) (omega (arith, from, before))) in
    let allowed = (admit_lem bk).0 in
    (
      first ∙ (rw known allowed ∙ ap (λ r. ltb bk.count r.max) ruled),
      stored ∙ ap (λ k. some (admit k).1) known,
      cap_for-throttle b (throttle_admit ty t b).1 ty throttle ∙ capped,
    )

admit_all_known :
    (ty : Text) (ts : List ℕ) (b : AuditBot) (rule : Cap) (bk : Bucket)
    → cap_for b ty ≡ some rule
    → Dict.get b.buckets ty ≡ some bk
    → bk.rule ≡ rule
    → bk.count ≤ rule.max
    → InWindow bk.window_start rule.window ts
    → (admit_all ty ts b).0 ≡ min (length ts) (rule.max - bk.count)
unfolding admit_all InWindow
admit_all_known ty [] b rule bk capped known ruled few inside = ground arith
admit_all_known ty (t ∷ ts) b rule bk capped known ruled few (from, before, inside) =
    let (first, stored, capped') =
      next_known ty t b rule bk capped (bucket_known b ty rule t bk known) ruled from before in
    let (_, ruled', start, counted) = admit_lem bk in
    let counted' : (admit bk).1.count ≡ (if ltb bk.count rule.max then bk.count + 1 else bk.count) =
      counted ∙ ap (λ r. if ltb bk.count r.max then bk.count + 1 else bk.count) ruled in
    let ih =
      admit_all_known ty ts (throttle_admit ty t b).1 rule (admit bk).1 capped' stored
        (ruled' ∙ ruled) (rw counted' (still_few bk.count rule.max few)) (rw start inside) in
    rw (first, ih, counted') (spent bk.count (length ts) rule.max few)

-- The bucket of a type at the first event of a window: there is none, or its window has passed.
abbrev pub Over : AuditBot → Text → ℕ → Type 0
Over b ty now =
    (Dict.get b.buckets ty ≡ none)
    ⊎ ((old : Bucket) × (Dict.get b.buckets ty ≡ some old)
        × (old.window_start + old.rule.window ≤ now))

abbrev fresh : Cap → ℕ → Bucket
fresh rule now = record { rule = rule; window_start = now; count = 0; dropped = 0 }

throttle-write_summary :
    (ty : Text) (dropped window now : ℕ) (b : AuditBot)
    → (write_summary ty dropped window now b).throttle ≡ b.throttle
unfolding write_summary write
throttle-write_summary ty dropped window now b = refl

-- What the first event of a window finds.
opened :
    (b : AuditBot) (ty : Text) (rule : Cap) (now : ℕ)
    → 0 < rule.window
    → Over b ty now
    → (roll_over rule now (bucket_for b ty rule now)).1 ≡ fresh rule now
unfolding roll_over
opened b ty rule now wide (inl new) =
    let open_still : leb rule.window (now - now) ≡ false = ground arith in
    rw (bucket_new b ty rule now new, open_still) refl
opened b ty rule now wide (inr (old, known, passed)) =
    let over : leb old.rule.window (now - old.window_start) ≡ true = ground arith in
    rw (bucket_known b ty rule now old known, over) refl

first_event :
    (ty : Text) (now : ℕ) (b : AuditBot) (rule : Cap)
    → cap_for b ty ≡ some rule
    → (roll_over rule now (bucket_for b ty rule now)).1 ≡ fresh rule now
    → ((throttle_admit ty now b).0 ≡ ltb 0 rule.max)
      × (Dict.get (throttle_admit ty now b).1.buckets ty ≡ some (admit (fresh rule now)).1)
      × ((throttle_admit ty now b).1.throttle ≡ b.throttle)
unfolding throttle_admit
first_event ty now b rule capped found =
    let dropped = (roll_over rule now (bucket_for b ty rule now)).0 in
    let kept = throttle-write_summary ty dropped rule.window now b in
    (
      rw (throttle_admit, capped, found) ((admit_lem (fresh rule now)).0),
      rw (throttle_admit, capped, found)
          (Dict.get-put_self b.buckets ty (admit (fresh rule now)).1),
      rw (throttle_admit, capped) (ground (arith, kept)),
    )

-- In a window that starts with the first of them, because there was no window for the type or the last
-- one has passed, of the events of a capped type as many are let through as the cap allows, or all where
-- there are fewer, however many were let through before.
pub admit_all_new :
    (ty : Text) (t : ℕ) (ts : List ℕ) (b : AuditBot) (rule : Cap)
    → cap_for b ty ≡ some rule
    → Over b ty t
    → 0 < rule.window
    → InWindow t rule.window ts
    → (admit_all ty (t ∷ ts) b).0 ≡ min (length (t ∷ ts)) rule.max
unfolding admit_all
admit_all_new ty t ts b rule capped over wide inside =
    let bk = fresh rule t in
    let (first, stored, throttle) = first_event ty t b rule capped (opened b ty rule t wide over) in
    let (_, ruled', start, counted) = admit_lem bk in
    let ih =
      admit_all_known ty ts (throttle_admit ty t b).1 rule (admit bk).1
        (cap_for-throttle b (throttle_admit ty t b).1 ty throttle ∙ capped) stored ruled'
        (rw counted (still_few 0 rule.max (omega arith))) (rw start inside) in
    rw (first, ih, counted) (let e = spent 0 (length ts) rule.max (omega arith) in ground arith)
