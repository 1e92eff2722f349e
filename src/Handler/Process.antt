-- ===== src/Handler/Process.antt =====
-- handler.go: `process`, from a decoded hook body to the response and the summary.
pub mod Outcomes
pub mod Splice
pub mod Tests
use tsheadroom.Prelude.{
  Bytes, codes, bytes_eq, Bool, true, false, ◌||◌, List, [], ◌∷◌, Option, none, some, length,
  if◌then◌else◌,
}
use tsheadroom.Prelude.Dict.{Dict, get, set}
use tsheadroom.Go.Int64.{non_positive}
use tsheadroom.Go.Json.{Json, object, unmarshal}
use tsheadroom.Config.{View}
use tsheadroom.Protocol.{CompressRequest, CompressResult, Compressor}
use tsheadroom.Summary.{
  Summary, blank, passthrough_reason, error_reason, noop_reason, modify_reason,
}
use tsheadroom.Handler.{
  HookCallData, no_data, hook_setters, GuardrailResponse, allow, modify_action,
}
use tsheadroom.Handler.Affinity.{affinity_key}

abbrev pub Answer : Type 0
Answer = GuardrailResponse × Summary

-- The summary of a body that cannot be compressed, once its metadata are known.
unfoldable pub passthrough : HookCallData → Answer
passthrough d = (
  allow,
  record blank {
    reason = passthrough_reason;
    provider = d.metadata.provider;
    model = d.metadata.model;
  },
)

-- The request's own model field, if it is a string.
unfoldable pub body_model : Json → Option Bytes → Bytes
body_model j none = []
body_model j (some raw) =
    if j.is_null raw then [] else elim (j.string raw) [ none ↦ [] | some m ↦ m ]

unfoldable pub chosen_model : Json → HookCallData → Dict Bytes → Bytes
chosen_model j d req_body =
    if bytes_eq d.metadata.model []
    then body_model j (get (codes "model") req_body)
    else d.metadata.model

-- The summary before the worker is called; the sizes are there for the verbose line only.
unfoldable pub opening_summary : Bool → HookCallData → Bytes → Bytes → List Bytes → Summary
opening_summary verbose d model raw msgs =
    let size = if verbose then length raw else 0 in
    record blank {
      in_messages = length msgs;
      provider = d.metadata.provider;
      model = model;
      in_bytes = size;
      out_bytes = size;
    }

unfoldable pub with_result : CompressResult → Summary → Summary
with_result res s = record s {
  worker_ms = res.elapsed_ms;
  cold = res.cold_first_call;
  model_limit = res.model_limit;
  slot = res.slot;
  tokens_before = res.tokens_before;
  tokens_saved = res.tokens_saved;
  tokens_after = res.tokens_after;
}

-- No saving, or no messages that could stand in the body.
unfoldable pub is_noop : CompressResult → Bool
is_noop res = non_positive res.tokens_saved || bytes_eq res.messages []

unfoldable pub finish : Bool → Dict Bytes → Summary → Option CompressResult → Answer
finish verbose req_body s none = (allow, record s { reason = error_reason })
finish verbose req_body s (some res) =
    let s₁ = with_result res s in
    if is_noop res then (allow, record s₁ { reason = noop_reason }) else (
      record {
        action = modify_action;
        request_body = some (set (codes "messages") res.messages req_body);
      },
      record s₁ {
        out_bytes = if verbose then length res.messages else s₁.out_bytes;
        reason = modify_reason;
      },
    )

module _ (j : Json) (compress : Compressor) (config : View) (verbose : Bool) where
  unfoldable pub to_request : HookCallData → Dict Bytes → Bytes → List Bytes → CompressRequest
  to_request d req_body raw msgs = record {
    messages = raw;
    model = chosen_model j d req_body;
    config = config;
    affinity_key = affinity_key j d.metadata.session_id msgs;
  }

  unfoldable pub compress_messages :
      HookCallData → Dict Bytes → Bytes → Option (List Bytes) → Answer
  compress_messages d req_body raw none = passthrough d
  compress_messages d req_body raw (some msgs) =
      finish verbose req_body (opening_summary verbose d (chosen_model j d req_body) raw msgs)
        (compress (to_request d req_body raw msgs))

  unfoldable pub with_messages : HookCallData → Dict Bytes → Option Bytes → Answer
  with_messages d req_body none = passthrough d
  with_messages d req_body (some raw) = compress_messages d req_body raw (j.array raw)

  unfoldable pub with_body : HookCallData → Option (Dict Bytes) → Answer
  with_body d none = passthrough d
  with_body d (some req_body) = with_messages d req_body (get (codes "messages") req_body)

  unfoldable pub with_data : HookCallData × Bool → Answer
  with_data (d, false) = (allow, record blank { reason = passthrough_reason })
  with_data (d, true) =
      if bytes_eq d.request_body []
      then (allow, record blank { reason = passthrough_reason })
      else with_body d (object j d.request_body)

  unfoldable pub process : Bytes → Answer
  process body = with_data (unmarshal j (hook_setters j) body no_data)
