-- ===== src/Handler/Process/Outcomes.antt =====
-- Every answer of `process`, with what led to it.
use tsheadroom.Prelude.{
  Bytes, codes, bytes_eq, bytes_eq_iff, Bool, true, false, List, [], Option, none, some, ◌≡◌, refl,
  inl, inr, Bool-cases, Option-cases,
}
use tsheadroom.Prelude.Dict.{Dict, get, set}
use tsheadroom.Go.Json.{Json, object, unmarshal}
use tsheadroom.Config.{View}
use tsheadroom.Protocol.{CompressRequest, CompressResult, Compressor}
use tsheadroom.Summary.{Summary, passthrough_reason, error_reason, noop_reason, modify_reason}
use tsheadroom.Handler.{HookCallData, no_data, hook_setters, allow, modify_action}
use tsheadroom.Handler.Process.{
  Answer, passthrough, opening_summary, chosen_model, is_noop, finish, to_request,
  compress_messages, with_messages, with_body, with_data, process,
}

module _ (j : Json) (compress : Compressor) (config : View) (verbose : Bool) where
  -- A call whose body has messages that were sent to the worker, verbatim.
  pub record WasSent (body : Bytes) : Type 0 where
    pub call : HookCallData
    pub req_body : Dict Bytes
    pub raw : Bytes
    pub msgs : List Bytes
    pub decoded : unmarshal j (hook_setters j) body no_data ≡ (call, true)
    pub split : object j call.request_body ≡ some req_body
    pub found : get (codes "messages") req_body ≡ some raw
    pub elements : j.array raw ≡ some msgs

  abbrev pub request_of : (body : Bytes) → WasSent body → CompressRequest
  request_of body w = to_request j compress config verbose w.call w.req_body w.raw w.msgs

  -- Why a body has no messages that could be sent: it does not decode, or holds no request body, or one
  -- that is no object, has no messages, or has something else than an array for them.
  pub data HasNoMessages (body : Bytes) : Type 0 where
    undecoded :
        (call : HookCallData)
        → unmarshal j (hook_setters j) body no_data ≡ (call, false)
        → HasNoMessages body
    bodyless :
        (call : HookCallData)
        → unmarshal j (hook_setters j) body no_data ≡ (call, true)
        → call.request_body ≡ []
        → HasNoMessages body
    no_object :
        (call : HookCallData)
        → unmarshal j (hook_setters j) body no_data ≡ (call, true)
        → object j call.request_body ≡ none
        → HasNoMessages body
    no_field :
        (call : HookCallData) (req_body : Dict Bytes)
        → unmarshal j (hook_setters j) body no_data ≡ (call, true)
        → object j call.request_body ≡ some req_body
        → get (codes "messages") req_body ≡ none
        → HasNoMessages body
    no_array :
        (call : HookCallData) (req_body : Dict Bytes) (raw : Bytes)
        → unmarshal j (hook_setters j) body no_data ≡ (call, true)
        → object j call.request_body ≡ some req_body
        → get (codes "messages") req_body ≡ some raw
        → j.array raw ≡ none
        → HasNoMessages body

  -- The four ways to answer.
  pub data Outcome (body : Bytes) (a : Answer) : Type 0 where
    untouched : HasNoMessages body → a.0 ≡ allow → a.1.reason ≡ passthrough_reason → Outcome body a
    failed :
        (w : WasSent body)
        → compress (request_of body w) ≡ none
        → a.0 ≡ allow
        → a.1.reason ≡ error_reason
        → Outcome body a
    useless :
        (w : WasSent body) (res : CompressResult)
        → compress (request_of body w) ≡ some res
        → is_noop res ≡ true
        → a.0 ≡ allow
        → a.1.reason ≡ noop_reason
        → Outcome body a
    modified :
        (w : WasSent body) (res : CompressResult)
        → compress (request_of body w) ≡ some res
        → is_noop res ≡ false
        → a.0 ≡ record {
          action = modify_action;
          request_body = some (set (codes "messages") res.messages w.req_body);
        }
        → a.1.reason ≡ modify_reason
        → Outcome body a

  finish-Outcome :
      (body : Bytes) (w : WasSent body) (s : Summary) (r : Option CompressResult)
      → compress (request_of body w) ≡ r
      → Outcome body (finish verbose w.req_body s r)
  unfolding finish
  finish-Outcome body w s none e = failed w e refl refl
  finish-Outcome body w s (some res) e = elim (Bool-cases (is_noop res)) [
    | inl n ↦ useless w res e n (rw n refl) (rw n refl)
    | inr n ↦ modified w res e n (rw n refl) (rw n refl)
  ]

  passthrough-Outcome :
      (body : Bytes) (d : HookCallData) → HasNoMessages body → Outcome body (passthrough d)
  unfolding passthrough
  passthrough-Outcome body d v = untouched v refl refl

  -- The stages of `process`, from the last to the first.
  module _ (body : Bytes) (d : HookCallData)
      (decoded : unmarshal j (hook_setters j) body no_data ≡ (d, true)) where
    with_messages-Outcome :
        (req_body : Dict Bytes)
        → object j d.request_body ≡ some req_body
        → Outcome body
            (with_messages j compress config verbose d req_body (get (codes "messages") req_body))
    unfolding with_messages compress_messages
    with_messages-Outcome req_body split = elim (Option-cases (get (codes "messages") req_body)) [
      | inl e ↦
          rw (e, with_messages) (passthrough-Outcome body d (no_field d req_body decoded split e))
      | inr (raw, e) ↦
          rw (e, with_messages)
            (elim (Option-cases (j.array raw)) [
              | inl n ↦
                  rw (n, compress_messages)
                    (passthrough-Outcome body d (no_array d req_body raw decoded split e n))
              | inr (msgs, n) ↦
                  let w : WasSent body = record {
                    call = d;
                    req_body = req_body;
                    raw = raw;
                    msgs = msgs;
                    decoded = decoded;
                    split = split;
                    found = e;
                    elements = n;
                  } in
                  rw (n, compress_messages)
                    (finish-Outcome body w
                      (opening_summary verbose d (chosen_model j d req_body) raw msgs)
                      (compress (request_of body w)) refl)
            ])
    ]

    with_body-Outcome :
        Outcome body (with_body j compress config verbose d (object j d.request_body))
    unfolding with_body
    with_body-Outcome = elim (Option-cases (object j d.request_body)) [
      | inl e ↦ rw (e, with_body) (passthrough-Outcome body d (no_object d decoded e))
      | inr (req_body, e) ↦ rw (e, with_body) (with_messages-Outcome req_body e)
    ]

  with_data-Outcome :
      (body : Bytes) (r : HookCallData × Bool)
      → unmarshal j (hook_setters j) body no_data ≡ r
      → Outcome body (with_data j compress config verbose r)
  unfolding with_data
  with_data-Outcome body (d, false) e = untouched (undecoded d e) refl refl
  with_data-Outcome body (d, true) e = elim (Bool-cases (bytes_eq d.request_body [])) [
    | inl z ↦ rw z (untouched (bodyless d e ((bytes_eq_iff d.request_body []).0 z)) refl refl)
    | inr z ↦ rw z (with_body-Outcome body d e)
  ]

  pub process-Outcome : (body : Bytes) → Outcome body (process j compress config verbose body)
  unfolding process
  process-Outcome body = with_data-Outcome body _ refl
