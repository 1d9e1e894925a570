-- ===== src/Steward/Mutes.antt =====
-- How a mute ends.
use scuttlebot.Common.{
  ◌≢◌, ◌≤◌, All, contains_text, ℤ, contains_byte, ℕ, ◌<◌, Text, text_eq, text_eq_iff, List, [], ◌∷◌,
  false, none, some, ◌≡◌, inl, inr, refl, sym, ap, ◌∙◌, arith, Option-cases,
}
use scuttlebot.Common.Dict
use scuttlebot.Common.Dict.{Dict}
use scuttlebot.Steward.{
  Durations, Steward, send, announce, mute, unmute, mute_key, expired_mutes, split_key, unmute_keys,
  remove_keys, unmute_expired,
}
use scuttlebot.Common.Windows.{after}
use scuttlebot.Steward.Keys.{
  Issued, lifting, expired, remove_keys-get, lift, lift-none, lift-some, lift-keeps, keep-gone,
  unmute_keys-lifting, mute_key-split_key,
}

unmute-other :
    (nick channel : Text) (b : Steward) (key : Text)
    → mute_key channel nick ≢ key
    → Dict.get (unmute nick channel b).mutes key ≡ Dict.get b.mutes key
unfolding unmute send announce
unmute-other nick channel b key h = Dict.get-remove_ne b.mutes (mute_key channel nick) key h

lift-other :
    (k : Text) (b : Steward) (key : Text)
    → k ≢ key
    → Dict.get (lift k b).mutes key ≡ Dict.get b.mutes key
lift-other k b key h = elim (Option-cases (split_key k)) [
  | inl odd ↦ ap (λ (x : Steward). Dict.get x.mutes key) (lift-none k b odd)
  | inr ((channel, nick), e) ↦
      ap (λ (x : Steward). Dict.get x.mutes key) (lift-some k channel nick b e)
      ∙ unmute-other nick channel b key
          (λ same. h (sym (mute_key-split_key k channel nick e) ∙ same))
]

keep-other :
    (keys : List Text) (b : Steward) (key : Text)
    → contains_text keys key ≡ false
    → Dict.get (unmute_keys keys b).mutes key ≡ Dict.get b.mutes key
unfolding unmute_keys contains_text lift
keep-other [] b key h = refl
keep-other (k ∷ keys) b key h =
    let others : contains_text keys key ≡ false = ground arith in
    let differs : text_eq k key ≡ false = ground arith in
    keep-other keys (lift k b) key others
    ∙ lift-other k b key (λ same. absurd (ground (arith, (text_eq_iff k key).1 same)))

keep-IsMap :
    (keys : List Text) (b : Steward) → Dict.IsMap b.mutes → Dict.IsMap (unmute_keys keys b).mutes
unfolding unmute_keys lift
keep-IsMap [] b m = m
keep-IsMap (k ∷ keys) b m = keep-IsMap keys (lift k b) (
    lift-keeps (λ x. Dict.IsMap x.mutes)
      (λ nick channel x held.
        unfold unmute send announce in Dict.remove-IsMap x.mutes (mute_key channel nick) held)
      k b m)

remove_keys-IsMap : (keys : List Text) (d : Dict ℕ) → Dict.IsMap d → Dict.IsMap (remove_keys keys d)
unfolding remove_keys
remove_keys-IsMap [] d m = m
remove_keys-IsMap (k ∷ keys) d m =
    remove_keys-IsMap keys (Dict.remove d k) (Dict.remove-IsMap d k m)

absent :
    (now : ℕ) (d : Dict ℕ) (key : Text)
    → Dict.get d key ≡ none
    → contains_text (expired_mutes now d) key ≡ false
unfolding expired_mutes Dict.get contains_text
absent now [] key h = refl
absent now ((k, t) ∷ d) key h = ground (arith, absent now d key, text_eq_iff k key)

not_expired :
    (now at : ℕ) (d : Dict ℕ) (key : Text)
    → Dict.IsMap d
    → Dict.get d key ≡ some at
    → now ≤ at
    → contains_text (expired_mutes now d) key ≡ false
unfolding expired_mutes Dict.get contains_text
not_expired now at [] key m h early = refl
not_expired now at ((k, t) ∷ d) key (alone, m) h early =
    ground (arith, not_expired now at d key m, absent now d key, text_eq_iff k key)

-- A turn of the loop before a mute's time keeps it.
early_turn :
    (now at : ℕ) (b : Steward) (key : Text)
    → Dict.IsMap b.mutes
    → Dict.get b.mutes key ≡ some at
    → now ≤ at
    → Dict.IsMap (unmute_expired now b).mutes
      × (Dict.get (unmute_expired now b).mutes key ≡ some at)
unfolding unmute_expired
early_turn now at b key m h early =
    let keys = expired_mutes now b.mutes in
    let kept = not_expired now at b.mutes key m h early in
    let b' = record b { mutes = remove_keys keys b.mutes } in
    (
      keep-IsMap keys b' (remove_keys-IsMap keys b.mutes m),
      keep-other keys b' key kept ∙ (remove_keys-get keys b.mutes key ∙ rw kept h),
    )

-- The loop's turns at these times.
pub turns : List ℕ → Steward → Steward
turns [] b = b
turns (t ∷ ts) b = turns ts (unmute_expired t b)

early_turns :
    (ts : List ℕ) (at : ℕ) (b : Steward) (key : Text)
    → Dict.IsMap b.mutes
    → Dict.get b.mutes key ≡ some at
    → All (λ t. t ≤ at) ts
    → Dict.get (turns ts b).mutes key ≡ some at
unfolding turns
early_turns [] at b key m h early = h
early_turns (t ∷ ts) at b key m h (early, rest) =
    let (m', h') = early_turn t at b key m h early in
    early_turns ts at (unmute_expired t b) key m' h' rest

-- A turn of the loop after a mute's time lifts it in the channel and forgets it.
late_turn :
    (nick channel : Text) (at later : ℕ) (b : Steward)
    → contains_byte channel 58 ≡ false
    → Dict.get b.mutes (mute_key channel nick) ≡ some at
    → at < later
    → Issued (lifting nick channel) (unmute_expired later b).sent
      × (Dict.get (unmute_expired later b).mutes (mute_key channel nick) ≡ none)
unfolding unmute_expired
late_turn nick channel at later b plain h late =
    let key = mute_key channel nick in
    let due = expired later at b.mutes key h late in
    (
      unmute_keys-lifting (expired_mutes later b.mutes) nick channel _ plain due,
      keep-gone (expired_mutes later b.mutes) _ key
          (remove_keys-get (expired_mutes later b.mutes) b.mutes key ∙ rw due refl),
    )

muted_lem :
    (dur : Durations) (nick channel : Text) (d : ℤ) (now : ℕ) (b : Steward)
    → Dict.IsMap b.mutes
    → Dict.IsMap (mute dur nick channel d now b).mutes
      × (Dict.get (mute dur nick channel d now b).mutes (mute_key channel nick)
          ≡ some (after now d))
unfolding mute send announce
muted_lem dur nick channel d now b m = (
  Dict.put-IsMap b.mutes (mute_key channel nick) (after now d) m,
  Dict.get-put_self b.mutes (mute_key channel nick) (after now d),
)

-- A mute of a nick in a channel, the name of which has no colon, lasts its time and ends: whatever turns
-- the loop takes up to that time, the mute is still noted after them, and the first turn after that time
-- lifts it in the channel and forgets it.
pub unmute_expired-mute :
    (dur : Durations) (nick channel : Text) (d : ℤ) (now later : ℕ) (ts : List ℕ) (b : Steward)
    → contains_byte channel 58 ≡ false
    → Dict.IsMap b.mutes
    → All (λ t. t ≤ after now d) ts
    → after now d < later
    → let before = turns ts (mute dur nick channel d now b) in
      (Dict.get before.mutes (mute_key channel nick) ≡ some (after now d))
      × Issued (lifting nick channel) (unmute_expired later before).sent
      × (Dict.get (unmute_expired later before).mutes (mute_key channel nick) ≡ none)
unmute_expired-mute dur nick channel d now later ts b plain m early late =
    let muted = mute dur nick channel d now b in
    let (m', noted) = muted_lem dur nick channel d now b m in
    let still = early_turns ts (after now d) muted (mute_key channel nick) m' noted early in
    let (lifted, gone) =
      late_turn nick channel (after now d) later (turns ts muted) plain still late in
    (still, lifted, gone)
