-- ===== src/Bridge/Delivery.antt =====
-- What a channel's buffer and its subscribers have received.
use scuttlebot.Common.Recent.{snoc_append, append_nil, take-append_length}
use scuttlebot.Common.{
  length-append, ltb→lt, map, keep_last, take, select, ℕ, zero, suc, ◌≤◌, ◌<◌, Text, text_eq,
  text_eq_iff, List, [], ◌∷◌, ◌++◌, none, some, ◌≡◌, inl, inr, refl, sym, ap, ◌∙◌, arith,
  Option-cases, Bool-cases, if◌then◌else◌, ltb, length, All,
}
use scuttlebot.Common.Dict
use scuttlebot.Common.Dict.{Dict}
use scuttlebot.Bridge.Ring.{RingBuf, new_ring_buf, push}
use scuttlebot.Bridge.History.{push_all, snapshot-push_all}
use scuttlebot.Bridge.Hub.{
  Bridge, Message, Subscriber, blank, dispatch_message, join_channel, init_channel, messages,
  subscribers, subscribe, offer, offer_all, sub_capacity,
}

-- The bridge after these messages, in order.
pub dispatch_all : List Message → Bridge → Bridge
dispatch_all [] b = b
dispatch_all (m ∷ ms) b = dispatch_all ms (dispatch_message m b)

-- The messages for a channel.
abbrev pub sent_to : Text → List Message → List Message
sent_to channel ms = select (λ m. text_eq m.channel channel) ms

buffers-dispatch :
    (m : Message) (b : Bridge) (channel : Text) {rb : RingBuf Message}
    → Dict.get b.buffers channel ≡ some rb
    → Dict.get (dispatch_message m b).buffers channel
      ≡ some (if text_eq m.channel channel then push rb m else rb)
unfolding dispatch_message
buffers-dispatch m b channel {rb} h = elim (Option-cases (Dict.get b.buffers m.channel)) [
  | inl absent ↦ ground (arith, text_eq_iff m.channel channel)
  | inr (q, held) ↦ ground (
    arith,
    held,
    text_eq_iff m.channel channel,
    Dict.get-put b.buffers m.channel channel (push q m),
  )
]

subs-dispatch :
    (m : Message) (b : Bridge) (channel : Text) {rb : RingBuf Message} {ss : List Subscriber}
    → Dict.get b.buffers channel ≡ some rb
    → Dict.get b.subs channel ≡ some ss
    → Dict.get (dispatch_message m b).subs channel
      ≡ some (if text_eq m.channel channel then offer_all m ss else ss)
unfolding dispatch_message
subs-dispatch m b channel {rb} {ss} h h' = elim (Option-cases (Dict.get b.buffers m.channel)) [
  | inl absent ↦ ground (arith, text_eq_iff m.channel channel)
  | inr (q, held) ↦ elim (Option-cases (Dict.get b.subs m.channel)) [
    | inl nobody ↦ ground (arith, held, nobody, text_eq_iff m.channel channel)
    | inr (others, some_subs) ↦ ground (
      arith,
      held,
      some_subs,
      text_eq_iff m.channel channel,
      Dict.get-put b.subs m.channel channel (offer_all m others),
    )
  ]
]

buffers-dispatch_all :
    (ms : List Message) (b : Bridge) (channel : Text) (rb : RingBuf Message)
    → Dict.get b.buffers channel ≡ some rb
    → Dict.get (dispatch_all ms b).buffers channel ≡ some (push_all rb (sent_to channel ms))
unfolding dispatch_all push_all
buffers-dispatch_all [] b channel rb h = h
buffers-dispatch_all (m ∷ ms) b channel rb h = elim (Bool-cases (text_eq m.channel channel)) [
  | inl here ↦ rw here (
      buffers-dispatch_all ms (dispatch_message m b) channel (push rb m)
        (buffers-dispatch m b channel h ∙ rw here refl))
  | inr elsewhere ↦ rw elsewhere (
      buffers-dispatch_all ms (dispatch_message m b) channel rb
        (buffers-dispatch m b channel h ∙ rw elsewhere refl))
]

offers : List Message → List Subscriber → List Subscriber
offers [] ss = ss
offers (m ∷ ms) ss = offers ms (offer_all m ss)

subs-dispatch_all :
    (ms : List Message) (b : Bridge) (channel : Text) (rb : RingBuf Message) (ss : List Subscriber)
    → Dict.get b.buffers channel ≡ some rb
    → Dict.get b.subs channel ≡ some ss
    → Dict.get (dispatch_all ms b).subs channel ≡ some (offers (sent_to channel ms) ss)
unfolding dispatch_all offers
subs-dispatch_all [] b channel rb ss h h' = h'
subs-dispatch_all (m ∷ ms) b channel rb ss h h' = elim (Bool-cases (text_eq m.channel channel)) [
  | inl here ↦ rw here (
      subs-dispatch_all ms (dispatch_message m b) channel (push rb m) (offer_all m ss)
        (buffers-dispatch m b channel h ∙ rw here refl)
        (subs-dispatch m b channel h h' ∙ rw here refl))
  | inr elsewhere ↦ rw elsewhere (
      subs-dispatch_all ms (dispatch_message m b) channel rb ss
        (buffers-dispatch m b channel h ∙ rw elsewhere refl)
        (subs-dispatch m b channel h h' ∙ rw elsewhere refl))
]

join-lem :
    (channel : Text) (b : Bridge)
    → Dict.get b.buffers channel ≡ none
    → (Dict.get (join_channel channel b).buffers channel ≡ some (new_ring_buf blank b.buf_size))
      × (Dict.get (join_channel channel b).subs channel ≡ some [])
unfolding join_channel init_channel
join-lem channel b new = (
  ground (arith, new, Dict.get-put_self b.buffers channel (new_ring_buf blank b.buf_size)),
  ground
      (arith, new, Dict.get-put_self b.subs channel (let nobody : List Subscriber = [] in nobody)),
)

-- In a channel that the bridge had no buffer for, after it asked to join and any messages came in, the
-- messages shown are the last ones of that channel, oldest first: as many as the buffer has room for.
pub messages-dispatch_all :
    (channel : Text) (ms : List Message) (b : Bridge)
    → Dict.get b.buffers channel ≡ none
    → 0 < b.buf_size
    → messages channel (dispatch_all ms (join_channel channel b))
      ≡ keep_last b.buf_size (sent_to channel ms)
unfolding messages
messages-dispatch_all channel ms b new room =
    let (buffer, nobody) = join-lem channel b new in
    rw
      (
        messages,
        buffers-dispatch_all ms (join_channel channel b) channel (new_ring_buf blank b.buf_size)
            buffer,
      )
      (snapshot-push_all blank b.buf_size (sent_to channel ms) room)

offers-nil : (ms : List Message) → offers ms [] ≡ []
unfolding offers offer_all
offers-nil [] = refl
offers-nil (m ∷ ms) = offers-nil ms

buffers-subscribe :
    (channel : Text) (b : Bridge)
    → Dict.get (subscribe channel b).1.buffers channel ≡ Dict.get b.buffers channel
unfolding subscribe
buffers-subscribe channel b = refl

-- A subscriber that was there before the bridge had a buffer for the channel is dropped when the bridge
-- joins: whatever comes in afterwards, the channel has no subscriber.
pub early_subscriber_lost :
    (channel : Text) (ms : List Message) (b : Bridge)
    → Dict.get b.buffers channel ≡ none
    → subscribers channel (dispatch_all ms (join_channel channel (subscribe channel b).1)) ≡ []
unfolding subscribers
early_subscriber_lost channel ms b new =
    let b' = (subscribe channel b).1 in
    let (buffer, nobody) = join-lem channel b' (buffers-subscribe channel b ∙ new) in
    rw
      (
        subscribers,
        subs-dispatch_all ms (join_channel channel b') channel (new_ring_buf blank b'.buf_size) []
            buffer nobody,
      )
      (offers-nil (sent_to channel ms))

-- A subscriber to whom these messages were offered.
abbrev pub after_offers : List Message → Subscriber → Subscriber
after_offers ms s = record s { waiting = take sub_capacity (s.waiting ++ ms) }

take-append_full : (n : ℕ) (xs ys : List Message) → length xs ≡ n → take n (xs ++ ys) ≡ xs
take-append_full n xs ys e = rw (← e) (take-append_length xs ys)

take_all : (n : ℕ) (xs : List Message) → length xs ≤ n → take n xs ≡ xs
take_all zero [] h = refl
take_all zero (x ∷ xs) h = absurd (omega arith)
take_all (suc n) [] h = refl
take_all (suc n) (x ∷ xs) h = ap (λ (ys : List Message). x ∷ ys) (take_all n xs (omega (arith, h)))

abbrev with_waiting : Subscriber → List Message → Subscriber
with_waiting s ms = record s { waiting = ms }

after_offer :
    (m : Message) (ms : List Message) (s : Subscriber)
    → length s.waiting ≤ sub_capacity
    → (length (offer m s).waiting ≤ sub_capacity)
      × (after_offers ms (offer m s) ≡ after_offers (m ∷ ms) s)
unfolding offer
after_offer m ms s h = elim (Bool-cases (ltb (length s.waiting) sub_capacity)) [
  | inl room ↦ rw room (
    omega (arith, ltb→lt (length s.waiting) sub_capacity room, length-append s.waiting (m ∷ [])),
    ap (with_waiting s)
        (ap (λ (xs : List Message). take sub_capacity xs) (snoc_append s.waiting m ms)),
  )
  | inr full ↦
      let exact : length s.waiting ≡ sub_capacity = ground arith in
      rw full (
        h,
        ap (with_waiting s) (
            take-append_full sub_capacity s.waiting ms exact
            ∙ sym (take-append_full sub_capacity s.waiting (m ∷ ms) exact)),
      )
]

after_offer_all :
    (m : Message) (ms : List Message) (ss : List Subscriber)
    → All (λ s. length s.waiting ≤ sub_capacity) ss
    → All (λ s. length s.waiting ≤ sub_capacity) (offer_all m ss)
      × (map (after_offers ms) (offer_all m ss) ≡ map (after_offers (m ∷ ms)) ss)
unfolding offer_all
after_offer_all m ms [] h = (tt, refl)
after_offer_all m ms (s ∷ ss) (h, rest) =
    let (short, same) = after_offer m ms s h in
    let (shorts, sames) = after_offer_all m ms ss rest in ((short, shorts), rw (same, sames) refl)

no_offers :
    (ss : List Subscriber)
    → All (λ s. length s.waiting ≤ sub_capacity) ss
    → ss ≡ map (after_offers []) ss
no_offers [] h = refl
no_offers (s ∷ ss) (h, rest) =
    let same : s ≡ after_offers [] s = ap (with_waiting s) (
      sym (
        ap (λ (xs : List Message). take sub_capacity xs) (append_nil s.waiting)
        ∙ take_all sub_capacity s.waiting h)) in
    ap (λ (t : Subscriber). t ∷ ss) same
    ∙ ap (λ (ts : List Subscriber). after_offers [] s ∷ ts) (no_offers ss rest)

offers_lem :
    (ms : List Message) (ss : List Subscriber)
    → All (λ s. length s.waiting ≤ sub_capacity) ss
    → offers ms ss ≡ map (after_offers ms) ss
unfolding offers
offers_lem [] ss h = no_offers ss h
offers_lem (m ∷ ms) ss h =
    let (shorts, same) = after_offer_all m ms ss h in offers_lem ms (offer_all m ss) shorts ∙ same

-- For a channel that the bridge has a buffer and noted subscribers for, none of whom has more than 64
-- messages waiting: while nobody takes messages out, each subscriber receives the messages of that channel,
-- in order, until 64 wait for it, and the later ones are dropped; other subscribers do not matter.
pub subscribers-dispatch_all :
    (channel : Text) (ms : List Message) (b : Bridge) (rb : RingBuf Message) (ss : List Subscriber)
    → Dict.get b.buffers channel ≡ some rb
    → Dict.get b.subs channel ≡ some ss
    → All (λ s. length s.waiting ≤ sub_capacity) ss
    → subscribers channel (dispatch_all ms b) ≡ map (after_offers (sent_to channel ms)) ss
unfolding subscribers
subscribers-dispatch_all channel ms b rb ss h h' room =
    rw (subscribers, subs-dispatch_all ms b channel rb ss h h')
      (offers_lem (sent_to channel ms) ss room)
