-- ===== src/Pool/ConversationTests.antt =====
-- A worker that answers the first of two requests, and dies while the second is written.
use tsheadroom.Prelude.{codes, Bytes, true, false, List, [], ◌∷◌, Option, some, ◌≡◌, refl}
use tsheadroom.Prelude.Lines.{framed}
use tsheadroom.Go.Json.{Json}
use tsheadroom.Config.{view, empty_heap, default_settings}
use tsheadroom.Protocol.{CompressRequest}
use tsheadroom.Pool.SessionTests.{numbered_json}
use tsheadroom.Pool.Wire.{Link, Delivery, calls_sent}
use tsheadroom.Pool.Framing.{IsCompact}
use tsheadroom.Pool.Conversation.{AppendsAll, calls_sent-lines}

abbrev plain_json : Json
plain_json = record numbered_json { quote = λ s. codes "-" }

abbrev to_array : Bytes → Option Bytes
to_array raw = some (codes "[]")

to_text : (raw text : Bytes) → to_array raw ≡ some text → codes "[]" ≡ text
to_text raw text h = cc h

plain_law : IsCompact plain_json to_array
plain_law = record {
  quoted = λ s. (refl, tt);
  printed = λ x. tt;
  compacted = λ raw text h. rw⁻¹ (to_text raw text h) (refl, (refl, tt));
}

abbrev toy_request : CompressRequest
toy_request = record {
  messages = codes "[ ]";
  model = codes "m";
  config = view empty_heap default_settings;
  affinity_key = [];
}

abbrev two_calls : List (Delivery × CompressRequest)
two_calls =
    (record { writes = true; arrived = 0; expired = false }, toy_request)
    ∷ (record { writes = false; arrived = 5; expired = false }, toy_request)
    ∷ []

abbrev started : Link
started = record { next_id = 0; stdin = []; stdout = framed (codes "a") }

calls_sent-lines_example :
    AppendsAll plain_json to_array two_calls started
      (calls_sent plain_json to_array two_calls started)
calls_sent-lines_example = calls_sent-lines plain_json to_array plain_law two_calls started
