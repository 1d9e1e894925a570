-- ===== src/Protocol/Tests.antt =====
-- The theorems on envelopes at concrete inputs.
use scuttlebot.Protocol.Recipients.{unmarshal_iff}
use scuttlebot.Common.{pos, Text, bytes, [], ◌∷◌, Option, some, ok, ◌≡◌, ◌≢◌, ◌↔◌}
use scuttlebot.Protocol.{Envelope, unmarshal}

abbrev envelope1 : Envelope
envelope1 = record {
  v = pos 1;
  type = bytes "task.create";
  id = bytes "x";
  from = bytes "ada";
  to = bytes "bob" ∷ [];
  ts = pos 0;
  payload = [];
}

abbrev decode1 : Text → Option Envelope
decode1 raw = some envelope1

unmarshal_iff_example : (unmarshal decode1 (bytes "e") ≡ ok envelope1) ↔ (
    (decode1 (bytes "e") ≡ some envelope1)
    × (envelope1.v ≡ pos 1)
    × (envelope1.type ≢ [])
    × (envelope1.id ≢ [])
    × (envelope1.from ≢ []))
unmarshal_iff_example = unmarshal_iff decode1 (bytes "e") envelope1
