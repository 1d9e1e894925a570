-- ===== src/Bridge/Ring.antt =====
-- ringBuf of internal/bots/bridge/bridge.go: a circular buffer of a fixed capacity. A slot that was
-- never written holds `blank`, Go's zero value of Message.
use scuttlebot.Common.{
  drop, ◌%◌, take, set, replicate, ℕ, ◌+◌, List, [], ◌++◌, if◌then◌else◌, ltb, ◌==◌,
}

pub record RingBuf {ℓ} (A : Type ℓ) : Type ℓ where
  pub msgs : List A
  pub head : ℕ
  pub size : ℕ
  pub cap : ℕ

module _ {ℓ} {A : Type ℓ} where
  -- newRingBuf
  unfoldable pub new_ring_buf : A → ℕ → RingBuf A
  new_ring_buf blank cap = record { msgs = replicate cap blank; head = 0; size = 0; cap = cap }

  -- push
  unfoldable pub push : RingBuf A → A → RingBuf A
  push r m = record {
    msgs = set r.msgs r.head m;
    head = (r.head + 1) % r.cap;
    size = if ltb r.size r.cap then r.size + 1 else r.size;
    cap = r.cap;
  }

  -- snapshot
  unfoldable pub snapshot : RingBuf A → List A
  snapshot r =
      if r.size == 0
      then []
      else if ltb r.size r.cap
      then take r.size r.msgs
      else drop r.head r.msgs ++ take r.head r.msgs
