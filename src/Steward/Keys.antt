-- ===== src/Steward/Keys.antt =====
-- What lifting the mutes of some keys sends and forgets.
use scuttlebot.Common.{
  Option, take, map, reverse, has_prefix, contains_text, drop, contains_byte, index_of, ℕ, suc, ◌+◌,
  ◌<◌, Text, bytes, text_eq, text_eq_iff, List, [], ◌∷◌, ◌++◌, true, false, none, some, ◌≡◌, ◌⊎◌,
  inl, inr, refl, sym, ap, ◌∙◌, arith, Option-cases, Bool-cases, if◌then◌else◌, length,
}
use scuttlebot.Common.Dict
use scuttlebot.Common.Dict.{Dict}
use scuttlebot.Common.Recent.{take-append_length}
use mathlib.Core.Path.{subst}
use scuttlebot.Steward.{
  message, Steward, Command, mode, send, announce, unmute, mute_key, expired_mutes, split_key,
  unmute_keys, remove_keys,
}

-- A command is among those that were sent.
abbrev pub Issued : Command → List Command → Type 0
Issued c [] = ⊥
Issued c (x ∷ xs) = (x ≡ c) ⊎ Issued c xs

Issued-append : (c : Command) (xs ys : List Command) → Issued c ys → Issued c (xs ++ ys)
Issued-append c [] ys h = h
Issued-append c (x ∷ xs) ys h = inr (Issued-append c xs ys h)

-- The command that lifts a mute.
abbrev pub lifting : Text → Text → Command
lifting nick channel = mode channel (bytes "-b") (bytes "m:" ++ (nick ++ bytes "!*@*"))

colon_at :
    (channel nick : Text)
    → contains_byte channel 58 ≡ false
    → index_of (channel ++ (58 ∷ nick)) (58 ∷ []) ≡ some (length channel)
unfolding index_of contains_byte has_prefix
colon_at [] nick h = refl
colon_at (c ∷ channel) nick h = ground (arith, colon_at channel nick)

drop-after : (channel nick : Text) → drop (length channel + 1) (channel ++ (58 ∷ nick)) ≡ nick
drop-after [] nick = refl
drop-after (c ∷ channel) nick =
    let next : length (c ∷ channel) + 1 ≡ suc (length channel + 1) = omega arith in
    ap (λ i. drop i (c ∷ (channel ++ (58 ∷ nick)))) next ∙ drop-after channel nick

pub split_key-mute_key :
    (channel nick : Text)
    → contains_byte channel 58 ≡ false
    → split_key (mute_key channel nick) ≡ some (channel, nick)
unfolding split_key
split_key-mute_key channel nick h =
    rw
      (
        split_key,
        colon_at channel nick h,
        take-append_length channel (58 ∷ nick),
        drop-after channel nick,
      )
      refl

pub expired :
    (now at : ℕ) (d : Dict ℕ) (key : Text)
    → Dict.get d key ≡ some at
    → at < now
    → contains_text (expired_mutes now d) key ≡ true
unfolding expired_mutes Dict.get contains_text
expired now at [] key h late = cc
expired now at ((k, t) ∷ d) key h late = ground (arith, expired now at d key, text_eq_iff k key)

pub remove_keys-get :
    (keys : List Text) (d : Dict ℕ) (key : Text)
    → Dict.get (remove_keys keys d) key ≡ (if contains_text keys key then none else Dict.get d key)
unfolding remove_keys contains_text
remove_keys-get [] d key = refl
remove_keys-get (k ∷ keys) d key =
    ground (arith, remove_keys-get keys (Dict.remove d k) key, Dict.get-remove d k key)

-- The unmute of one key.
unfoldable pub lift : Text → Steward → Steward
lift key b = elim (split_key key) [ none ↦ b | some (channel, nick) ↦ unmute nick channel b ]

pub lift-none : (k : Text) (b : Steward) → split_key k ≡ none → lift k b ≡ b
unfolding lift
lift-none k b e = rw (lift, e) refl

pub lift-some :
    (k channel nick : Text) (b : Steward)
    → split_key k ≡ some (channel, nick)
    → lift k b ≡ unmute nick channel b
unfolding lift
lift-some k channel nick b e = rw (lift, e) refl

-- What holds of a steward, and still does after an announcement or any unmute, still does after the key.
pub lift-keeps :
    (P : Steward → Type 0)
    → ((nick channel : Text) (b : Steward) → P b → P (unmute nick channel b))
    → (k : Text) (b : Steward) → P b
    → P (lift k b)
lift-keeps P keeps k b h = elim (Option-cases (split_key k)) [
  | inl odd ↦ subst P (sym (lift-none k b odd)) h
  | inr ((channel, nick), e) ↦ subst P (sym (lift-some k channel nick b e)) (keeps nick channel b h)
]

announce-Issued :
    (msg : Text) (b : Steward) (c : Command) → Issued c b.sent → Issued c (announce msg b).sent
unfolding announce
announce-Issued msg b c h =
    Issued-append c
      (if b.cfg.dm_on_action
        then reverse (map (λ op. message op (bytes "[steward] " ++ msg)) b.cfg.operator_nicks)
        else [])
      (message b.cfg.mod_channel (bytes "[steward] " ++ msg) ∷ b.sent) (inr h)

unmute-Issued :
    (nick channel : Text) (b : Steward) (c : Command)
    → Issued c (lifting nick channel ∷ b.sent)
    → Issued c (unmute nick channel b).sent
unfolding unmute send
unmute-Issued nick channel b c h =
    announce-Issued (bytes "unmuted " ++ (nick ++ (bytes " in " ++ channel)))
      (record b {
        mutes = Dict.remove b.mutes (mute_key channel nick);
        sent = lifting nick channel ∷ b.sent;
      })
      c h

unmute-gone :
    (nick channel : Text) (b : Steward) (key : Text)
    → Dict.get b.mutes key ≡ none
    → Dict.get (unmute nick channel b).mutes key ≡ none
unfolding unmute send announce
unmute-gone nick channel b key h =
    ground (arith, Dict.get-remove b.mutes (mute_key channel nick) key)

keep-Issued :
    (keys : List Text) (b : Steward) (c : Command)
    → Issued c b.sent
    → Issued c (unmute_keys keys b).sent
unfolding unmute_keys lift
keep-Issued [] b c h = h
keep-Issued (k ∷ keys) b c h = keep-Issued keys (lift k b) c (
    lift-keeps (λ x. Issued c x.sent)
      (λ nick channel x held. unmute-Issued nick channel x c (inr held)) k b h)

pub keep-gone :
    (keys : List Text) (b : Steward) (key : Text)
    → Dict.get b.mutes key ≡ none
    → Dict.get (unmute_keys keys b).mutes key ≡ none
unfolding unmute_keys lift
keep-gone [] b key h = h
keep-gone (k ∷ keys) b key h = keep-gone keys (lift k b) key (
    lift-keeps (λ x. Dict.get x.mutes key ≡ none) (λ nick channel x. unmute-gone nick channel x key)
      k b h)

lift-lifting :
    (nick channel : Text) (b : Steward)
    → contains_byte channel 58 ≡ false
    → Issued (lifting nick channel) (lift (mute_key channel nick) b).sent
lift-lifting nick channel b h =
    subst (λ x. Issued (lifting nick channel) x.sent)
      (sym (lift-some (mute_key channel nick) channel nick b (split_key-mute_key channel nick h)))
      (unmute-Issued nick channel b (lifting nick channel) (inl refl))

pub unmute_keys-lifting :
    (keys : List Text) (nick channel : Text) (b : Steward)
    → contains_byte channel 58 ≡ false
    → contains_text keys (mute_key channel nick) ≡ true
    → Issued (lifting nick channel) (unmute_keys keys b).sent
unfolding unmute_keys contains_text lift
unmute_keys-lifting [] nick channel b plain h = ground arith
unmute_keys-lifting (k ∷ keys) nick channel b plain h =
    elim (Bool-cases (text_eq k (mute_key channel nick))) [
      | inl same ↦ keep-Issued keys (lift k b) (lifting nick channel) (
          subst (λ x. Issued (lifting nick channel) (lift x b).sent)
            (sym ((text_eq_iff k (mute_key channel nick)).0 same))
            (lift-lifting nick channel b plain))
      | inr other ↦
          unmute_keys-lifting keys nick channel (lift k b) plain (ground (arith, h, other))
    ]

colon_first :
    (c : ℕ) (k : Text) (i : ℕ)
    → index_of (c ∷ k) (58 ∷ []) ≡ some i
    → index_of k (58 ∷ []) ≡ none
    → take i (c ∷ k) ++ (58 ∷ drop (i + 1) (c ∷ k)) ≡ c ∷ k
unfolding index_of has_prefix
colon_first c k i h e = elim (Bool-cases (has_prefix (c ∷ k) (58 ∷ []))) [
  | inl here ↦
      let at : i ≡ 0 = ground arith in let colon : c ≡ 58 = ground arith in rw (at, colon) refl
  | inr other ↦ absurd (ground arith)
]

colon_next :
    (c : ℕ) (k : Text) (i j : ℕ)
    → index_of (c ∷ k) (58 ∷ []) ≡ some i
    → index_of k (58 ∷ []) ≡ some j
    → take j k ++ (58 ∷ drop (j + 1) k) ≡ k
    → take i (c ∷ k) ++ (58 ∷ drop (i + 1) (c ∷ k)) ≡ c ∷ k
unfolding index_of has_prefix
colon_next c k i j h e ih = elim (Bool-cases (has_prefix (c ∷ k) (58 ∷ []))) [
  | inl here ↦
      let at : i ≡ 0 = ground arith in let colon : c ≡ 58 = ground arith in rw (at, colon) refl
  | inr other ↦
      let at : i ≡ suc j = ground arith in
      let next : suc j + 1 ≡ suc (j + 1) = omega arith in
      rw (at, next) (ap (λ (x : Text). c ∷ x) ih)
]

colon_split :
    (k : Text) (i : ℕ) → index_of k (58 ∷ []) ≡ some i → take i k ++ (58 ∷ drop (i + 1) k) ≡ k
unfolding index_of has_prefix
colon_split [] i h = cc
colon_split (c ∷ k) i h = elim (Option-cases (index_of k (58 ∷ []))) [
  | inl e ↦ colon_first c k i h e
  | inr (j, e) ↦ colon_next c k i j h e (colon_split k j e)
]

-- The channel and the nick of a key give the key again.
pub mute_key-split_key :
    (k channel nick : Text) → split_key k ≡ some (channel, nick) → mute_key channel nick ≡ k
unfolding split_key
mute_key-split_key k channel nick h = elim (Option-cases (index_of k (58 ∷ []))) [
  | inl e ↦ absurd (ground arith)
  | inr (i, e) ↦
      let parts : ◌≡◌ {A = Option (Text × Text)} (some (take i k, drop (i + 1) k))
          (some (channel, nick)) =
        rw (split_key, e) at h in
      let before : take i k ≡ channel = ground arith in
      let after : drop (i + 1) k ≡ nick = ground arith in rw (← before, ← after) (colon_split k i e)
]
