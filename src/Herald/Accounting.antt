-- ===== src/Herald/Accounting.antt =====
-- What becomes of the events.
use scuttlebot.Common.{
  length-append, ℕ, suc, ◌+◌, ◌-◌, ◌^◌, ◌≤◌, ◌<◌, text_eq, List, [], ◌∷◌, true, ◌≡◌, inl, inr, refl,
  ap, ◌∙◌, arith, Bool-cases, ltb, length,
}
use scuttlebot.Herald.{
  default_queue_size, Event, Herald, emit, deliver, deliver_next, drop_event, next, allow,
  channel_of,
}
use scuttlebot.Warden.Limits.{Floats}

-- What happens to a herald after its start: an event comes, or the delivery loop takes its next turn.
pub data Step : Type 0 where
  emitted : Event → Step
  turn : ℕ → Step

pub run : {fl : Floats} → List Step → Herald fl → Herald fl
run [] b = b
run (emitted e ∷ steps) b = run steps (emit e b)
run (turn now ∷ steps) b = run steps (deliver_next now b)

-- How many events the steps bring.
abbrev pub emits : List Step → ℕ
emits [] = 0
emits (emitted e ∷ steps) = suc (emits steps)
emits (turn now ∷ steps) = emits steps

-- The events that a herald has an account of: delivered, dropped or waiting.
abbrev pub known : {fl : Floats} → Herald fl → ℕ
known b = b.delivered + b.dropped + length b.queue

next_lem : (n : ℕ) → n + 1 < 2 ^ 64 → next n ≡ n + 1
unfolding next
next_lem n h = omega (arith, h)

emit-known :
    {fl : Floats} (e : Event) (b : Herald fl)
    → known b + 1 < 2 ^ 64
    → (known (emit e b) ≡ known b + 1) × ((emit e b).connected ≡ b.connected)
unfolding emit drop_event
emit-known e b h = elim (Bool-cases (ltb (length b.queue) default_queue_size)) [
  | inl room ↦ rw room (omega (arith, length-append b.queue (e ∷ [])), refl)
  | inr full ↦ rw full (omega (arith, next_lem b.dropped (omega (arith, h))), refl)
]

emit-bounded :
    {fl : Floats} (e : Event) (b : Herald fl)
    → length b.queue ≤ default_queue_size
    → length (emit e b).queue ≤ default_queue_size
unfolding emit drop_event
emit-bounded e b h = elim (Bool-cases (ltb (length b.queue) default_queue_size)) [
  | inl room ↦ rw room (ground (arith, length-append b.queue (e ∷ [])))
  | inr full ↦ rw full h
]

-- What a delivery leaves of a connected herald.
deliver_lem :
    {fl : Floats} (now : ℕ) (e : Event) (b : Herald fl)
    → b.connected ≡ true
    → known b + 1 < 2 ^ 64
    → (known (deliver now e b) ≡ known b + 1)
      × ((deliver now e b).connected ≡ true)
      × ((deliver now e b).queue ≡ b.queue)
unfolding deliver drop_event
deliver_lem now e b online few =
    let delivers = next_lem b.delivered (omega (arith, few)) in
    let drops = next_lem b.dropped (omega (arith, few)) in
    elim (Bool-cases (text_eq (channel_of b.routes e) [])) [
      | inl nowhere ↦ rw nowhere (omega (arith, drops), online, refl)
      | inr somewhere ↦ elim (Bool-cases ((allow now b.limiter).0)) [
        | inl allowed ↦ rw (somewhere, allowed, online) (omega (arith, delivers), refl, refl)
        | inr limited ↦ rw (somewhere, limited) (omega (arith, drops), online, refl)
      ]
    ]

turn-queue :
    {fl : Floats} (now : ℕ) (b : Herald fl) (queue : List Event)
    → b.queue ≡ queue
    → b.connected ≡ true
    → known b < 2 ^ 64
    → (known (deliver_next now b) ≡ known b)
      × ((deliver_next now b).connected ≡ true)
      × (length (deliver_next now b).queue ≡ length b.queue - 1)
unfolding deliver_next
turn-queue now b [] e online few = rw e (refl, online, refl)
turn-queue now b (evt ∷ queue) e online few =
    let size : length b.queue ≡ suc (length queue) = ap length e in
    let (all, online', same) =
      deliver_lem now evt (record b { queue = queue }) online (omega (arith, few, size)) in
    rw e (omega (arith, all, size), online', ap length same ∙ omega arith)

turn_lem :
    {fl : Floats} (now : ℕ) (b : Herald fl)
    → b.connected ≡ true
    → known b < 2 ^ 64
    → (known (deliver_next now b) ≡ known b)
      × ((deliver_next now b).connected ≡ true)
      × (length (deliver_next now b).queue ≡ length b.queue - 1)
turn_lem now b = turn-queue now b b.queue refl

run_lem :
    {fl : Floats} (steps : List Step) (b : Herald fl)
    → b.connected ≡ true
    → length b.queue ≤ default_queue_size
    → known b + emits steps < 2 ^ 64
    → (known (run steps b) ≡ known b + emits steps)
      × ((run steps b).connected ≡ true)
      × (length (run steps b).queue ≤ default_queue_size)
unfolding run
run_lem [] b online small few = (omega arith, online, small)
run_lem (emitted e ∷ steps) b online small few =
    let (more, same) = emit-known e b (omega (arith, few)) in
    let (ih, online2, bounded) =
      run_lem steps (emit e b) (same ∙ online) (emit-bounded e b small)
        (omega (arith, few, more)) in
    (omega (arith, ih, more), online2, bounded)
run_lem (turn now ∷ steps) b online small few =
    let (all, online', shorter) = turn_lem now b online (omega (arith, few)) in
    let (ih, online2, bounded) =
      run_lem steps (deliver_next now b) online' (omega (arith, shorter, small))
        (omega (arith, few, all)) in
    (omega (arith, ih, all), online2, bounded)

-- Only turns, at these times.
pub turns : {fl : Floats} → List ℕ → Herald fl → Herald fl
turns [] b = b
turns (now ∷ times) b = turns times (deliver_next now b)

turns_lem :
    {fl : Floats} (times : List ℕ) (b : Herald fl)
    → b.connected ≡ true
    → length b.queue ≤ length times
    → known b < 2 ^ 64
    → (length (turns times b).queue ≡ 0) × (known (turns times b) ≡ known b)
unfolding turns
turns_lem [] b online enough few = (omega (arith, enough), refl)
turns_lem (now ∷ times) b online enough few =
    let (all, online', shorter) = turn_lem now b online few in
    let (empty, same) =
      turns_lem times (deliver_next now b) online' (omega (arith, shorter, enough))
        (omega (arith, few, all)) in
    (empty, same ∙ all)

-- Whatever events came to a connected herald and whenever its loop ran, after 256 more turns of the loop
-- the queue is empty and every event that came is counted once, as delivered or as dropped. The counters
-- stay below 2 ^ 64.
pub run-turns :
    {fl : Floats} (steps : List Step) (times : List ℕ) (b : Herald fl)
    → b.connected ≡ true
    → length b.queue ≤ default_queue_size
    → known b + emits steps < 2 ^ 64
    → default_queue_size ≤ length times
    → (length (turns times (run steps b)).queue ≡ 0)
      × ((turns times (run steps b)).delivered + (turns times (run steps b)).dropped
          ≡ known b + emits steps)
run-turns steps times b online small few enough =
    let (all, online', bounded) = run_lem steps b online small few in
    let (empty, same) =
      turns_lem times (run steps b) online' (omega (arith, bounded, enough))
        (omega (arith, all, few)) in
    (empty, omega (arith, empty, same, all))
