-- ===== src/Pool/Wire.antt =====
-- pool.go: the text of a request, as `do` writes it to the worker's stdin.
use tsheadroom.Prelude.{
  ℕ, Bytes, codes, bytes_eq, Bool, List, [], ◌∷◌, ◌++◌, take, Option, none, some, if◌then◌else◌,
}
use tsheadroom.Prelude.Dict.{Dict}
use tsheadroom.Go.Int64.{Int64, add}
use tsheadroom.Go.Json.{Json, object_text}
use tsheadroom.Config.Json.{int_text, settings_fields}
use tsheadroom.Protocol.{CompressRequest}
use tsheadroom.Pool.Worker.{
  DoResult, returns, fails, marshal_request, write_to_worker, read_response,
}
use tsheadroom.Pool.Session.{read_line}

-- The members of a `compressRequest`: an empty model is left out, and so is always the affinity key.
-- `messages` is the text of the raw messages.
unfoldable pub request_fields : Json → Bytes → CompressRequest → Dict Bytes
unfolding settings_fields object_text
request_fields j messages req =
    (codes "messages", messages)
      ∷ (if bytes_eq req.model [] then [] else (codes "model", j.quote req.model) ∷ [])
    ++ (codes "config", object_text j (settings_fields j req.config)) ∷ []

unfoldable pub envelope_text : Json → Int64 → CompressRequest → Bytes → Bytes
unfolding int_text request_fields object_text
envelope_text j id req messages = object_text j (
    (codes "id", int_text id)
    ∷ (codes "payload", object_text j (request_fields j messages req))
    ∷ [])

-- `json.Marshal` of the envelope, where `compact` is what it makes of a raw value: `none` for one that
-- is not JSON.
unfoldable pub request_text : Json → (Bytes → Option Bytes) → Int64 → CompressRequest → Option Bytes
unfolding envelope_text
request_text j compact id req = elim (compact req.messages) [
  | none ↦ none
  | some messages ↦ some (envelope_text j id req messages)
]

-- The worker's side of a slot: the number of the last request, what was written to the worker, and
-- what the worker still writes.
pub record Link : Type 0 where
  pub next_id : Int64
  pub stdin : Bytes
  pub stdout : Bytes

-- Whether the write of a call succeeds, how much arrives of one that fails, and whether the deadline
-- is served before a line.
pub record Delivery : Type 0 where
  pub writes : Bool
  pub arrived : ℕ
  pub expired : Bool

-- `do`, once the request is encoded. A write that fails is short: at least the line feed is missing.
unfoldable pub exchange : Json → Delivery → Int64 → Link → Option Bytes → Link × DoResult
unfolding read_line read_response
exchange j d id l none = (record l { next_id = id }, fails marshal_request)
exchange j d id l (some text) =
    if d.writes
    then (
      record {
        next_id = id;
        stdin = l.stdin ++ (text ++ 10 ∷ []);
        stdout = (read_line d.expired l.stdout).1;
      },
      read_response j id (read_line d.expired l.stdout).0,
    )
    else (record l { next_id = id; stdin = l.stdin ++ take d.arrived text }, fails write_to_worker)

-- `do`.
unfoldable pub do_sent :
    Json → (Bytes → Option Bytes) → Delivery → CompressRequest → Link → Link × DoResult
do_sent j compact d req l =
    let id = add l.next_id 1 in exchange j d id l (request_text j compact id req)

-- The calls of one worker: the first that fails is the last, since the slot kills the worker.
unfoldable pub then_sent : Link × List DoResult → Link → DoResult → Link × List DoResult
then_sent (last, later) l (returns res) = (last, returns res ∷ later)
then_sent (last, later) l (fails e) = (l, fails e ∷ [])

unfoldable pub calls_sent :
    Json → (Bytes → Option Bytes) → List (Delivery × CompressRequest) → Link → Link × List DoResult
unfolding do_sent then_sent
calls_sent j compact [] l = (l, [])
calls_sent j compact ((d, req) ∷ cs) l =
    let (l', r) = do_sent j compact d req l in then_sent (calls_sent j compact cs l') l' r
