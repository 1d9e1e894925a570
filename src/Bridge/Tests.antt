-- ===== src/Bridge/Tests.antt =====
-- The theorems on the bridge at concrete inputs.
use scuttlebot.Common.{
  map, pos, has_prefix, keep_last, Text, bytes, text_eq, List, [], ◌∷◌, none, ◌≡◌, refl, arith,
}
use scuttlebot.Common.Dict
use scuttlebot.Common.Dict.{Dict}
use scuttlebot.Bridge.Ring.{new_ring_buf, snapshot}
use scuttlebot.Bridge.Hub.{
  Bridge, Message, Subscriber, blank, new_bridge, messages, subscribers, join_channel, subscribe,
}
use scuttlebot.Bridge.History.{push_all, snapshot-push_all}
use scuttlebot.Bridge.Delivery.{
  dispatch_all, sent_to, after_offers, messages-dispatch_all, subscribers-dispatch_all,
}

abbrev said : Text → Text → Message
said channel text = record {
  at = 1;
  channel = channel;
  nick = bytes "ada";
  text = text;
  msg_id = [];
  meta = none;
}

abbrev messages1 : List Message
messages1 =
    said (bytes "#a") (bytes "one")
    ∷ said (bytes "#b") (bytes "two")
    ∷ said (bytes "#a") (bytes "three")
    ∷ said (bytes "#a") (bytes "four")
    ∷ []

abbrev bridge1 : Bridge
bridge1 = new_bridge [] (pos 2) (pos 0)

abbrev bridge2 : Bridge
bridge2 = (subscribe (bytes "#a") (join_channel (bytes "#a") bridge1)).1

snapshot-push_all_example :
    snapshot (push_all (new_ring_buf blank 2) messages1) ≡ keep_last 2 messages1
snapshot-push_all_example = snapshot-push_all blank 2 messages1 (omega arith)

messages-dispatch_all_example :
    messages (bytes "#a") (dispatch_all messages1 (join_channel (bytes "#a") bridge1))
    ≡ keep_last bridge1.buf_size (sent_to (bytes "#a") messages1)
unfolding new_bridge Dict.get
messages-dispatch_all_example =
    messages-dispatch_all (bytes "#a") messages1 bridge1 refl (omega arith)

abbrev waiting1 : List Subscriber
waiting1 = record { id = 1; waiting = [] } ∷ []

subscribers-dispatch_all_example :
    subscribers (bytes "#a") (dispatch_all messages1 bridge2)
    ≡ map (after_offers (sent_to (bytes "#a") messages1)) waiting1
unfolding new_bridge join_channel subscribe Dict.get Dict.put text_eq has_prefix
subscribers-dispatch_all_example =
    subscribers-dispatch_all (bytes "#a") messages1 bridge2 (new_ring_buf blank 2) waiting1 refl
      refl (omega arith, tt)
