-- ===== src/Bridge/Hub.antt =====
-- The state of the bridge and what it does with messages: internal/bots/bridge/bridge.go. The Go channel
-- of a subscriber is the list of the messages that wait in it.
use scuttlebot.Common.{
  positive?, ℤ, contains_text, has_prefix, ℕ, ◌+◌, ◌*◌, Text, bytes, text_eq, List, [], ◌∷◌, ◌++◌,
  Bool, false, ◌||◌, Option, none, some, if◌then◌else◌, ltb, ◌==◌, length,
}
use scuttlebot.Common.Dict
use scuttlebot.Common.Dict.{Dict}
use scuttlebot.Bridge.Ring.{RingBuf, new_ring_buf, push, snapshot}

-- Meta, its data as raw text.
pub record Meta : Type 0 where
  pub type : Text
  pub payload : Text

pub record Message : Type 0 where
  pub at : ℕ
  pub channel : Text
  pub nick : Text
  pub text : Text
  pub msg_id : Text
  pub meta : Option Meta

abbrev pub blank : Message
blank = record { at = 0; channel = []; nick = []; text = []; msg_id = []; meta = none }

pub record Subscriber : Type 0 where
  pub id : ℕ
  pub waiting : List Message

-- The fields of Bot that change. `sent` is what was sent to IRC, the last line first.
pub record Bridge : Type 0 where
  pub nick : Text
  pub buf_size : ℕ
  pub buffers : Dict (RingBuf Message)
  pub subs : Dict (List Subscriber)
  pub sub_seq : ℕ
  pub joined : List Text
  pub web_users : Dict (Dict ℕ)
  pub web_user_ttl : ℕ
  pub msg_total : ℕ
  pub names_users : Dict (Dict Text)
  pub relay_sep : Text
  pub is_connected : Bool
  pub sent : List Text

abbrev pub default_web_user_ttl : ℕ
default_web_user_ttl = 5 * 60 * 1_000_000_000

-- The loop of New over the channel names.
unfoldable pub with_hash : Text → Text
with_hash ch = if text_eq ch [] || has_prefix ch (bytes "#") then ch else 35 ∷ ch

-- New, without the connection.
unfoldable pub new_bridge : Text → ℤ → ℤ → Bridge
new_bridge nick buf_size ttl = record {
  nick = if text_eq nick [] then bytes "bridge" else nick;
  buf_size = elim (positive? buf_size) [ none ↦ 200 | some n ↦ n ];
  buffers = [];
  subs = [];
  sub_seq = 0;
  joined = [];
  web_users = [];
  web_user_ttl = elim (positive? ttl) [ none ↦ default_web_user_ttl | some n ↦ n ];
  msg_total = 0;
  names_users = [];
  relay_sep = [];
  is_connected = false;
  sent = [];
}

-- The initialisation in JoinChannel and in the handler of JOIN: a channel without a buffer gets one, and
-- an empty set of subscribers.
unfoldable pub init_channel : Text → Bridge → Bridge
init_channel channel b = elim (Dict.get b.buffers channel) [
  | some _ ↦ b
  | none ↦ record b {
    buffers = Dict.put b.buffers channel (new_ring_buf blank b.buf_size);
    subs = Dict.put b.subs channel [];
  }
]

-- JoinChannel, without the request that it queues for the join loop.
unfoldable pub join_channel : Text → Bridge → Bridge
unfolding init_channel
join_channel channel b = init_channel channel b

-- The handler of JOIN, for the bridge's own nick.
unfoldable pub on_join : Text → Text → Bridge → Bridge
unfolding init_channel
on_join channel nick b =
    if text_eq nick b.nick
    then if contains_text b.joined channel
      then b
      else init_channel channel (record b { joined = b.joined ++ (channel ∷ []) })
    else b

unfoldable pub leave : Text → List Text → List Text
leave channel [] = []
leave channel (c ∷ cs) = let rest = leave channel cs in if text_eq c channel then rest else c ∷ rest

-- LeaveChannel
unfoldable pub leave_channel : Text → Bridge → Bridge
unfolding leave
leave_channel channel b = record b {
  joined = leave channel b.joined;
  buffers = Dict.remove b.buffers channel;
  subs = Dict.remove b.subs channel;
  sent = if b.is_connected then (bytes "PART " ++ channel) ∷ b.sent else b.sent;
}

-- Messages
unfoldable pub messages : Text → Bridge → List Message
messages channel b = elim (Dict.get b.buffers channel) [ none ↦ [] | some rb ↦ snapshot rb ]

unfoldable pub subscribers : Text → Bridge → List Subscriber
subscribers channel b = elim (Dict.get b.subs channel) [ none ↦ [] | some ss ↦ ss ]

-- Subscribe: the number of the new subscriber, which unsubscribing names.
unfoldable pub subscribe : Text → Bridge → ℕ × Bridge
unfolding subscribers
subscribe channel b =
    let id = b.sub_seq + 1 in
    (
      id,
      record b {
        sub_seq = id;
        subs =
            Dict.put b.subs channel
              (subscribers channel b ++ (record { id = id; waiting = [] } ∷ []));
      },
    )

unfoldable pub drop_subscriber : ℕ → List Subscriber → List Subscriber
drop_subscriber id [] = []
drop_subscriber id (s ∷ ss) =
    let rest = drop_subscriber id ss in if s.id == id then rest else s ∷ rest

-- The function that Subscribe returns. Deleting from a map that is not there does nothing.
unfoldable pub unsubscribe : Text → ℕ → Bridge → Bridge
unfolding drop_subscriber
unsubscribe channel id b = elim (Dict.get b.subs channel) [
  | none ↦ b
  | some ss ↦ record b { subs = Dict.put b.subs channel (drop_subscriber id ss) }
]

-- The room in the Go channel of a subscriber.
abbrev pub sub_capacity : ℕ
sub_capacity = 64

-- A send that does not wait: a message for a full channel is dropped.
unfoldable pub offer : Message → Subscriber → Subscriber
offer m s =
    if ltb (length s.waiting) sub_capacity then record s { waiting = s.waiting ++ (m ∷ []) } else s

unfoldable pub offer_all : Message → List Subscriber → List Subscriber
unfolding offer
offer_all m [] = []
offer_all m (s ∷ ss) = offer m s ∷ offer_all m ss

-- dispatch
unfoldable pub dispatch_message : Message → Bridge → Bridge
unfolding offer_all subscribers
dispatch_message m b = elim (Dict.get b.buffers m.channel) [
  | none ↦ record b { msg_total = b.msg_total + 1 }
  | some rb ↦ record b {
    msg_total = b.msg_total + 1;
    buffers = Dict.put b.buffers m.channel (push rb m);
    subs = elim (Dict.get b.subs m.channel) [
      | none ↦ b.subs
      | some ss ↦ Dict.put b.subs m.channel (offer_all m ss)
    ];
  }
]

-- What the handler of PRIVMSG reads of an event.
pub record Incoming : Type 0 where
  pub at : ℕ
  pub target : Text
  pub source : Text
  pub text : Text
  pub account : Option Text
  pub msg_id : Option Text
  pub meta_type : Option Text

-- A tag that is there and not empty.
unfoldable pub tag_or : Option Text → Text → Text
tag_or none other = other
tag_or (some t) other = if text_eq t [] then other else t

unfoldable pub message_of : Incoming → Message
unfolding tag_or
message_of e = record {
  at = e.at;
  channel = e.target;
  nick = tag_or e.account e.source;
  text = e.text;
  msg_id = elim e.msg_id [ none ↦ [] | some i ↦ i ];
  meta = elim e.meta_type [
    | none ↦ none
    | some t ↦ if text_eq t [] then none else some (record { type = t; payload = [] })
  ];
}

-- The handler of PRIVMSG.
unfoldable pub on_privmsg : Incoming → Bridge → Bridge
unfolding message_of
on_privmsg e b = if has_prefix e.target (bytes "#") then dispatch_message (message_of e) b else b
