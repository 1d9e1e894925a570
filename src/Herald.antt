-- ===== src/Herald.antt =====
-- The herald, internal/bots/herald/herald.go: the queue of events, the route of an event to a channel, the
-- rate limit and the counters. An iteration over the map of routes takes its entries in the order of the
-- list. The uint64 counters wrap around. The time now is an argument, and so is floating point.
mod Tests
pub mod Routing
pub mod Accounting
use scuttlebot.Common.{
  ◌^◌, ◌%◌, ℕ, zero, suc, ◌+◌, ◌-◌, ◌*◌, ◌≤◌, ◌<◌, Text, bytes, text_eq, text_eq_refl, text_eq_iff,
  List, [], ◌∷◌, ◌++◌, Bool, true, false, ◌&&◌, ◌||◌, not, Option, none, some, Result, ok, err, ◌≡◌,
  ◌≢◌, ◌↔◌, ◌⊎◌, inl, inr, refl, sym, ap, ◌∙◌, arith, Option-cases, Bool-cases, if◌then◌else◌, ltb,
  leb, ◌==◌, length, All, count,
}
use scuttlebot.Common.Dict
use scuttlebot.Common.Dict.{Dict}
use scuttlebot.Common.{has_prefix, join, trim_space, ℤ, positive?, Text}
use scuttlebot.CmdParse.Router.{Context}
use scuttlebot.Warden.Limits.{Floats, min_f}

pub record Event : Type 0 where
  pub type : Text
  pub channel : Text
  pub message : Text
  pub mention_nicks : List Text

pub record RouteConfig : Type 0 where
  pub routes : Dict Text
  pub default_channel : Text

pub record RateLimiter (fl : Floats) : Type 0 where
  pub tokens : fl.Float
  pub max_burst : fl.Float
  pub rate : fl.Float
  pub last : ℕ

-- newRateLimiter
unfoldable pub new_rate_limiter : (fl : Floats) → fl.Float → ℕ → ℕ → RateLimiter fl
new_rate_limiter fl rate burst now = record {
  tokens = fl.of_nat burst;
  max_burst = fl.of_nat burst;
  rate = rate;
  last = now;
}

-- Allow
unfoldable pub allow : {fl : Floats} → ℕ → RateLimiter fl → Bool × RateLimiter fl
unfolding min_f
allow {fl} now r =
    let tokens =
      min_f fl r.max_burst (fl.plus r.tokens (fl.times (fl.seconds (now - r.last)) r.rate)) in
    if fl.at_most (fl.of_nat 1) tokens
    then (
      true,
      record {
        tokens = fl.minus tokens (fl.of_nat 1);
        max_burst = r.max_burst;
        rate = r.rate;
        last = now;
      },
    )
    else (false, record { tokens = tokens; max_burst = r.max_burst; rate = r.rate; last = now })

-- `sent` are the messages sent so far, the last one first.
pub record Herald (fl : Floats) : Type 0 where
  pub channels : List Text
  pub routes : RouteConfig
  pub limiter : RateLimiter fl
  pub queue : List Event
  pub connected : Bool
  pub sent : List (Text × Text)
  pub delivered : ℕ
  pub dropped : ℕ

abbrev pub default_queue_size : ℕ
default_queue_size = 256

-- New
unfoldable pub new_herald : (fl : Floats) → List Text → RouteConfig → fl.Float → ℤ → ℕ → Herald fl
unfolding new_rate_limiter
new_herald fl channels routes rate burst now = record {
  channels = channels;
  routes = routes;
  limiter =
      new_rate_limiter fl (if fl.at_most rate (fl.of_nat 0) then fl.of_nat 5 else rate)
        (elim (positive? burst) [ none ↦ 20 | some n ↦ n ]) now;
  queue = [];
  connected = false;
  sent = [];
  delivered = 0;
  dropped = 0;
}

-- A uint64 counter, one more.
unfoldable pub next : ℕ → ℕ
next n = (n + 1) % 2 ^ 64

unfoldable pub drop_event : {fl : Floats} → Herald fl → Herald fl
unfolding next
drop_event b = record b { dropped = next b.dropped }

-- Emit
unfoldable pub emit : {fl : Floats} → Event → Herald fl → Herald fl
unfolding drop_event
emit e b =
    if ltb (length b.queue) default_queue_size
    then record b { queue = b.queue ++ (e ∷ []) }
    else drop_event b

-- The loop of route: the channel of the best prefix so far, and one more than the prefix's length.
unfoldable pub best_route : Dict Text → Text → Text → ℕ → Text
best_route [] event_type best best_len = best
best_route ((prefix, ch) ∷ routes) event_type best best_len =
    let better = best_route routes event_type ch (length prefix + 1) in
    let same = best_route routes event_type best best_len in
    if has_prefix event_type prefix && leb best_len (length prefix) then better else same

-- route
unfoldable pub route : RouteConfig → Text → Text
unfolding best_route
route cfg event_type =
    let best = best_route cfg.routes event_type [] 0 in
    if text_eq best [] then cfg.default_channel else best

unfoldable pub channel_of : RouteConfig → Event → Text
unfolding route
channel_of cfg evt = if text_eq evt.channel [] then route cfg evt.type else evt.channel

unfoldable pub highlighted : Event → Text
highlighted evt =
    if ltb 0 (length evt.mention_nicks)
    then join (bytes " ") evt.mention_nicks ++ (bytes ": " ++ evt.message)
    else evt.message

-- deliver
unfoldable pub deliver : {fl : Floats} → ℕ → Event → Herald fl → Herald fl
unfolding channel_of highlighted allow drop_event next
deliver now evt b =
    let channel = channel_of b.routes evt in
    if text_eq channel []
    then drop_event b
    else let (allowed, limiter) = allow now b.limiter in
      let b' = record b { limiter = limiter } in
      if not allowed
      then drop_event b'
      else if b.connected
      then record b' { sent = (channel, highlighted evt) ∷ b.sent; delivered = next b.delivered }
      else b'

-- One turn of deliverLoop.
unfoldable pub deliver_next : {fl : Floats} → ℕ → Herald fl → Herald fl
unfolding deliver
deliver_next now b = elim b.queue [
  | [] ↦ b
  | e ∷ queue ↦ deliver now e (record b { queue = queue })
]

-- The channel that cmdTest takes.
unfoldable pub test_channel : RouteConfig → Context → Text → Text
test_channel cfg ctx args =
    let channel = trim_space args in
    if not (text_eq channel [])
    then channel
    else if not (text_eq ctx.channel [])
    then ctx.channel
    else cfg.default_channel

-- cmdTest
unfoldable pub cmd_test : {fl : Floats} → Context → Text → Herald fl → Text × Herald fl
unfolding test_channel emit
cmd_test ctx args b =
    let channel = test_channel b.routes ctx args in
    if text_eq channel []
    then (
      bytes "herald: no target channel "
          ++ (0xE2 ∷ 0x80 ∷ 0x94 ∷ bytes " pass #channel as argument"),
      b,
    )
    else (
      bytes "herald: queued TEST event to " ++ channel,
      emit
          (record {
            type = bytes "test.herald";
            channel = channel;
            message = bytes "herald TEST event from " ++ ctx.nick;
            mention_nicks = [];
          })
          b,
    )
