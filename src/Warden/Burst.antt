-- ===== src/Warden/Burst.antt =====
-- How many messages of a nick pass at one moment.
use scuttlebot.Warden.Loops.{record_message}
use scuttlebot.Common.{
  List, [], ◌∷◌, length, ◌⊎◌, inl, inr, Bool, ◌∙◌, min, ℕ, zero, suc, ◌+◌, ◌-◌, ◌≤◌, Text, true,
  false, none, ◌≡◌, refl, arith, if◌then◌else◌, ltb, leb,
}
use scuttlebot.Common.Dict
use scuttlebot.Common.Dict.{Dict}
use scuttlebot.Warden.Limits.{
  Limits, min_f, NickState, refilled, Floats, ChannelState, entry, store, consume,
}

-- What the bucket relies on for a rate that is finite: whole numbers up to the bound are exact, no time
-- at that rate adds nothing to one of them, and taking 1 away is exact too.
pub record Exact (fl : Floats) (bound : ℕ) (rate : fl.Float) : Type 0 where
  pub no_time :
      (a : ℕ) → a ≤ bound → fl.plus (fl.of_nat a) (fl.times (fl.seconds 0) rate) ≡ fl.of_nat a
  pub less_of_nat :
      (a b : ℕ) → a ≤ bound → b ≤ bound → fl.less (fl.of_nat a) (fl.of_nat b) ≡ ltb a b
  pub at_most_of_nat :
      (a b : ℕ) → a ≤ bound → b ≤ bound → fl.at_most (fl.of_nat a) (fl.of_nat b) ≡ leb a b
  pub minus_one : (a : ℕ) → suc a ≤ bound → fl.minus (fl.of_nat (suc a)) (fl.of_nat 1) ≡ fl.of_nat a

-- The history of a nick after a message, and then the bucket: what the handler asks of the state of a
-- channel for a message, before it counts a violation.
abbrev pub taken_note : {fl : Floats} → ChannelState fl → Text → ℕ → Text → Bool × ChannelState fl
taken_note cs nick now text = consume (record_message cs nick now text).1 nick now now

-- How many of these messages of a nick, all sent at one moment, the bucket allows.
pub allowed : {fl : Floats} → ChannelState fl → Text → ℕ → List Text → ℕ
allowed cs nick now [] = 0
allowed cs nick now (text ∷ texts) =
    (if (taken_note cs nick now text).0 then 1 else 0)
    + allowed (taken_note cs nick now text).1 nick now texts

pub consume-cfg :
    {fl : Floats} (cs : ChannelState fl) (nick : Text) (created now : ℕ)
    → (consume cs nick created now).1.cfg ≡ cs.cfg
unfolding consume store
consume-cfg cs nick created now = refl

pub entry-store :
    {fl : Floats} (cs : ChannelState fl) (nick : Text) (now : ℕ) (ns : NickState fl)
    → entry (store cs nick ns) nick now ≡ ns
unfolding entry store
entry-store cs nick now ns = rw (entry, Dict.get-put_self cs.nicks nick ns) refl

-- A message that is recorded leaves the bucket, the violations and the limits as they were.
pub entry-record_message :
    {fl : Floats} (cs : ChannelState fl) (nick text : Text) (now t : ℕ)
    → let before = entry cs nick now in
      let after = entry (record_message cs nick now text).1 nick t in
      (after.tokens ≡ before.tokens)
      × (after.last_refill ≡ before.last_refill)
      × (after.violations ≡ before.violations)
      × (after.last_action ≡ before.last_action)
      × ((record_message cs nick now text).1.cfg ≡ cs.cfg)
unfolding record_message
entry-record_message cs nick text now t = (
  rw (entry-store cs nick t _) refl,
  rw (entry-store cs nick t _) refl,
  rw (entry-store cs nick t _) refl,
  rw (entry-store cs nick t _) refl,
  unfold store in refl,
)

module _ {fl : Floats} (bound : ℕ) (rate : fl.Float) (exact : Exact fl bound rate) where
  spent : (k left : ℕ) → (if leb 1 left then 1 else 0) + min k (left - 1) ≡ min (suc k) left
  spent k left = ground arith

  full_lem :
      (cfg : Limits fl) (ns : NickState fl) (now left : ℕ)
      → cfg.messages_per_second ≡ rate
      → cfg.burst ≤ bound
      → left ≤ cfg.burst
      → ns.tokens ≡ fl.of_nat left
      → ns.last_refill ≡ now
      → refilled cfg ns now ≡ fl.of_nat left
  unfolding refilled min_f
  full_lem cfg ns now left rated wide fits has at_now =
      let no_time : now - now ≡ 0 = omega arith in
      let narrow : left ≤ bound = omega (arith, wide, fits) in
      let not_less : ltb cfg.burst left ≡ false = ground arith in
      rw
        (
          at_now,
          has,
          no_time,
          rated,
          exact.no_time left narrow,
          exact.less_of_nat cfg.burst left wide narrow,
          not_less,
        )
        refl

  taken :
      (left : ℕ)
      → left ≤ bound
      → (if leb 1 left then fl.minus (fl.of_nat left) (fl.of_nat 1) else fl.of_nat left)
        ≡ fl.of_nat (left - 1)
  taken zero h = ground arith
  taken (suc left) h =
      let some_left : leb 1 (suc left) ≡ true = ground arith in
      let before : suc left - 1 ≡ left = omega arith in
      rw (some_left, before) (exact.minus_one left h)

  -- The bucket of a nick has so many tokens, and was refilled at this moment.
  abbrev Has : ChannelState fl → Text → ℕ → ℕ → Type 0
  Has cs nick now left =
      ((entry cs nick now).tokens ≡ fl.of_nat left) × ((entry cs nick now).last_refill ≡ now)

  one_message :
      (cs : ChannelState fl) (nick : Text) (now left : ℕ)
      → cs.cfg.messages_per_second ≡ rate
      → cs.cfg.burst ≤ bound
      → 1 ≤ bound
      → left ≤ cs.cfg.burst
      → Has cs nick now left
      → ((consume cs nick now now).0 ≡ leb 1 left)
        × Has (consume cs nick now now).1 nick now (left - 1)
  unfolding consume
  one_message cs nick now left rated wide one fits (has, at_now) =
      let full = full_lem cs.cfg (entry cs nick now) now left rated wide fits has at_now in
      let narrow : left ≤ bound = omega (arith, wide, fits) in
      let enough = exact.at_most_of_nat 1 left one narrow in
      (
        rw (full, enough) refl,
        (
          rw (entry-store cs nick now _, full, enough) (taken left narrow),
          rw (entry-store cs nick now _) refl,
        ),
      )

  burst_from :
      (texts : List Text) (cs : ChannelState fl) (nick : Text) (now left : ℕ)
      → cs.cfg.messages_per_second ≡ rate
      → cs.cfg.burst ≤ bound
      → 1 ≤ bound
      → left ≤ cs.cfg.burst
      → Has cs nick now left
      → allowed cs nick now texts ≡ min (length texts) left
  unfolding allowed
  burst_from [] cs nick now left rated wide one fits has = ground arith
  burst_from (text ∷ texts) cs nick now left rated wide one fits (has, at_now) =
      let noted = (record_message cs nick now text).1 in
      let (same_tokens, same_time, _, _, same) = entry-record_message cs nick text now now in
      let (first, rest) =
        one_message noted nick now left (rw same rated) (rw same wide) one (rw same fits)
          (same_tokens ∙ has, same_time ∙ at_now) in
      let cfg = consume-cfg noted nick now now in
      let step =
        burst_from texts (consume noted nick now now).1 nick now (left - 1) (rw (cfg, same) rated)
          (rw (cfg, same) wide) one (rw (cfg, same) (omega arith)) rest in
      rw (first, step) (spent (length texts) left)

  -- Of the messages that a nick sends at one moment, each noted in its history first, the bucket allows
  -- as many as the burst of the channel, and no more, where it is full at that moment: so for a nick
  -- that the channel has no entry for. The floats are exact up to some bound, not below the burst, and the
  -- rate of the channel is finite.
  pub burst_allowed :
      (cs : ChannelState fl) (nick : Text) (now : ℕ) (texts : List Text)
      → (Dict.get cs.nicks nick ≡ none)
        ⊎ (((entry cs nick now).tokens ≡ fl.of_nat cs.cfg.burst)
            × ((entry cs nick now).last_refill ≡ now))
      → cs.cfg.messages_per_second ≡ rate
      → cs.cfg.burst ≤ bound
      → 1 ≤ bound
      → allowed cs nick now texts ≡ min (length texts) cs.cfg.burst
  unfolding entry
  burst_allowed cs nick now texts (inl new) rated wide one =
      burst_from texts cs nick now cs.cfg.burst rated wide one (omega arith)
        (rw (entry, new) refl, rw (entry, new) refl)
  burst_allowed cs nick now texts (inr full) rated wide one =
      burst_from texts cs nick now cs.cfg.burst rated wide one (omega arith) full
