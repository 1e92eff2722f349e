-- ===== src/Pool/Worker.antt =====
-- pool.go: the worker's side of a slot: `do`, `awaitReady`, `spawn` and the recorded version.
use tsheadroom.Prelude.{
  ℕ, ◌*◌, Bytes, codes, bytes_eq, Bool, true, false, not, ◌&&◌, ◌==◌, List, [], ◌∷◌, Option, none,
  some, ltb, if◌then◌else◌,
}
use tsheadroom.Go.Int64.{Int64, add}
use tsheadroom.Go.Float64.{zero_float}
use tsheadroom.Go.Json.{Json, Setter, plain, raw_message, unmarshal, write_back}
use tsheadroom.Protocol.{CompressResult}

-- `responseEnvelope`.
pub record Envelope : Type 0 where
  pub id : Int64
  pub ok : Bool
  pub result : Option CompressResult
  pub error : Bytes
  pub error_type : Bytes

abbrev pub empty_envelope : Envelope
empty_envelope = record { id = 0; ok = false; result = none; error = []; error_type = [] }

abbrev pub empty_result : CompressResult
empty_result = record {
  messages = [];
  tokens_before = 0;
  tokens_after = 0;
  tokens_saved = 0;
  compression_ratio = zero_float;
  transforms_applied = [];
  elapsed_ms = zero_float;
  cold_first_call = false;
  model_limit = 0;
  slot = 0;
}

-- A slice of strings, from its raw elements; null is the empty string.
unfoldable pub strings_of : Json → List Bytes → Option (List Bytes)
strings_of j [] = some []
strings_of j (raw ∷ rest) =
    let later = strings_of j rest in
    elim (if j.is_null raw then some [] else j.string raw) [
      | none ↦ none
      | some s ↦ elim later [ none ↦ none | some ss ↦ some (s ∷ ss) ]
    ]

unfoldable pub string_list : Json → Bytes → Option (List Bytes)
string_list j raw = elim (j.array raw) [ none ↦ none | some raws ↦ strings_of j raws ]

unfoldable pub result_setters : Json → List (Setter CompressResult)
result_setters j =
    (codes "messages", raw_message (λ raw r. record r { messages = raw }))
    ∷ (codes "tokens_before", plain j j.int (λ n r. record r { tokens_before = n }))
    ∷ (codes "tokens_after", plain j j.int (λ n r. record r { tokens_after = n }))
    ∷ (codes "tokens_saved", plain j j.int (λ n r. record r { tokens_saved = n }))
    ∷ (codes "compression_ratio", plain j j.float (λ x r. record r { compression_ratio = x }))
    ∷ (
      codes "transforms_applied",
      λ raw r.
          if j.is_null raw
          then some (record r { transforms_applied = [] })
          else elim (string_list j raw) [
            | none ↦ none
            | some ss ↦ some (record r { transforms_applied = ss })
          ],
    )
    ∷ (codes "elapsed_ms", plain j j.float (λ x r. record r { elapsed_ms = x }))
    ∷ (codes "cold_first_call", plain j j.bool (λ b r. record r { cold_first_call = b }))
    ∷ (codes "model_limit", plain j j.int (λ n r. record r { model_limit = n }))
    ∷ []

unfoldable pub or_empty : Option CompressResult → CompressResult
or_empty none = empty_result
or_empty (some r) = r

-- A pointer to a struct: null clears it, anything else is decoded onto what it points to.
unfoldable pub result_pointer : Json → Bytes → Envelope → Option Envelope
result_pointer j raw e =
    if j.is_null raw
    then some (record e { result = none })
    else write_back (λ r e. record e { result = some r }) e
        (unmarshal j (result_setters j) raw (or_empty e.result))

unfoldable pub envelope_setters : Json → List (Setter Envelope)
envelope_setters j =
    (codes "id", plain j j.int (λ n e. record e { id = n }))
    ∷ (codes "ok", plain j j.bool (λ b e. record e { ok = b }))
    ∷ (codes "result", result_pointer j)
    ∷ (codes "error", plain j j.string (λ s e. record e { error = s }))
    ∷ (codes "error_type", plain j j.string (λ s e. record e { error_type = s }))
    ∷ []

pub data DoError : Type 0 where
  marshal_request write_to_worker read_from_worker decode_response no_result : DoError
  id_mismatch : Int64 → Int64 → DoError
  worker_error : Bytes → Bytes → DoError

pub data DoResult : Type 0 where
  returns : CompressResult → DoResult
  fails : DoError → DoResult

-- What `json.Marshal`, the worker's pipes and the deadline do in one call: whether the request could
-- be encoded and written, and the line read, if one came in time.
pub record Exchange : Type 0 where
  pub encodes : Bool
  pub writes : Bool
  pub line : Option Bytes

unfoldable pub check_envelope : Int64 → Envelope × Bool → DoResult
check_envelope id (resp, false) = fails decode_response
check_envelope id (resp, true) =
    if not (resp.id == id)
    then fails (id_mismatch resp.id id)
    else if not resp.ok
    then fails (worker_error resp.error_type resp.error)
    else elim resp.result [ none ↦ fails no_result | some r ↦ returns r ]

unfoldable pub read_response : Json → Int64 → Option Bytes → DoResult
read_response j id none = fails read_from_worker
read_response j id (some line) =
    check_envelope id (unmarshal j (envelope_setters j) line empty_envelope)

-- `do`, on the worker's `nextID`.
unfoldable pub do_request : Json → Exchange → Int64 → Int64 × DoResult
do_request j x next_id =
    let id = add next_id 1 in
    (
      id,
      if not x.encodes
          then fails marshal_request
          else if not x.writes
          then fails write_to_worker
          else read_response j id x.line,
    )

pub record ReadyMessage : Type 0 where
  pub ready : Bool
  pub headroom_version : Bytes

unfoldable pub ready_setters : Json → List (Setter ReadyMessage)
ready_setters j =
    (codes "ready", plain j j.bool (λ b m. record m { ready = b }))
    ∷ (codes "headroom_version", plain j j.string (λ s m. record m { headroom_version = s }))
    ∷ []

unfoldable pub check_ready : ReadyMessage × Bool → Option Bytes
check_ready (m, good) = if good && m.ready then some m.headroom_version else none

-- `awaitReady` on the first line, if one came in time: the version, or `none` for an error.
unfoldable pub await_ready : Json → Option Bytes → Option Bytes
await_ready j none = none
await_ready j (some line) =
    check_ready
      (unmarshal j (ready_setters j) line (record { ready = false; headroom_version = [] }))

-- The version that `headroomVersion` reports; an empty one is not recorded.
unfoldable pub record_headroom_version : Bytes → Option Bytes → Option Bytes
record_headroom_version ver old = if bytes_eq ver [] then old else some ver

-- Milliseconds.
abbrev pub initial_backoff : ℕ
initial_backoff = 200

abbrev pub max_backoff : ℕ
max_backoff = 10000

unfoldable pub next_backoff : ℕ → ℕ
next_backoff b = if ltb max_backoff (b * 2) then max_backoff else b * 2

-- One turn of the loop in `spawn`: whether the pool shuts down before it, what `startWorker` returns
-- (the worker's version, or `none` for an error), whether the pool shuts down in the wait after it.
pub record Attempt : Type 0 where
  pub stopped_before : Bool
  pub started : Option Bytes
  pub stopped_after : Bool

-- The end of `spawn`, with the waits in between; `trying` if the attempts given do not end it.
pub data Spawn : Type 0 where
  ready : Bytes → Spawn
  stopped trying : Spawn

unfoldable pub spawn : ℕ → List Attempt → Spawn × List ℕ
spawn backoff [] = (trying, [])
spawn backoff (a ∷ rest) =
    let (end, waits) = spawn (next_backoff backoff) rest in
    if a.stopped_before then (stopped, []) else elim a.started [
      | some ver ↦ (ready ver, [])
      | none ↦ if a.stopped_after then (stopped, backoff ∷ []) else (end, backoff ∷ waits)
    ]
