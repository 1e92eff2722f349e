-- ===== src/Handler/Serve/Contract.antt =====
-- The responses of the hook handler.
use tsheadroom.Prelude.{
  [], sym, ◌∙◌, ℕ, Bytes, codes, bytes_eq, bytes_eq_iff, bytes_ne, ◌&&◌, Option, none, some, ◌≡◌,
  ◌≢◌, ◌⊎◌, refl, inl, inr, ap, Bool-cases,
}
use tsheadroom.Encoding.{
  Decoded, ok, err, unsupported_encoding, zstd_decode, gzip_reader, gzip_decode, gzip_too_large,
  max_body, read_limited, accept_encoding, normalize_coding, decode_request_body,
}
use tsheadroom.Encoding.Rejection.{Member, listed, decode_request_body-unsupported}
use tsheadroom.Handler.{GuardrailResponse, allow, modify_action}
use tsheadroom.Handler.Process.Splice.{process-action}
use tsheadroom.Handler.Serve.{
  Handler, HookRequest, Run, State, HookReply, ReplyBody, json_text, gzipped, Handled, answered,
  rejected, accepts_gzip, write_hook_response, decode_failed, handle_decoded, handle, conclude,
  finished, serve_hook,
}

-- "allow" with no body, or "modify" with one.
abbrev pub IsAnswer : GuardrailResponse → Type 0
IsAnswer resp = (resp ≡ allow) ⊎ ((resp.action ≡ modify_action) × (resp.request_body ≢ none))

abbrev pub Sends : ReplyBody → GuardrailResponse → Type 0
Sends body resp = (body ≡ json_text resp) ⊎ (body ≡ gzipped resp)

-- A coding that the header of accepted codings does not list.
abbrev pub IsUnlisted : HookRequest → Type 0
IsUnlisted r =
    (normalize_coding r.coding ≢ [])
    × (¬ Member (normalize_coding r.coding) (listed accept_encoding))

-- The body could not be read, and is allowed; or it was read, and its coding is accepted.
abbrev pub IsAccepted : HookRequest → GuardrailResponse → Type 0
IsAccepted r resp =
    ((read_limited max_body r.body ≡ none) × (resp ≡ allow))
    ⊎ ((read_limited max_body r.body ≢ none) × (¬ IsUnlisted r))

-- What a POST is answered, from the way it was handled.
abbrev IsHandled : HookRequest → Handled → Type 0
IsHandled r (answered resp s) = IsAnswer resp × IsAccepted r resp
IsHandled r (rejected s) = (read_limited max_body r.body ≢ none) × IsUnlisted r

module _ (h : Handler) (r : HookRequest) where
  coding_listed :
      (body : Bytes) (d : Decoded × Bytes) (resp : GuardrailResponse)
      → read_limited max_body r.body ≢ none
      → decode_request_body h.decompressors body r.coding ≡ d
      → d.0 ≢ err unsupported_encoding
      → IsAccepted r resp
  coding_listed body d resp was_read e n = inr (
    was_read,
    λ u. n (
        sym (ap (λ x. x.0) e)
        ∙ (decode_request_body-unsupported h.decompressors body r.coding).1 u),
  )

  handle_decoded-IsHandled :
      (wire : ℕ) (body : Bytes) (d : Decoded × Bytes)
      → read_limited max_body r.body ≢ none
      → decode_request_body h.decompressors body r.coding ≡ d
      → IsHandled r (handle_decoded h wire d)
  unfolding handle_decoded decode_failed
  handle_decoded-IsHandled wire body (ok b, coding) f e =
      let l = coding_listed body (ok b, coding) _ f e (λ x. cc x) in
      elim (process-action h.json h.comp h.settings h.verbose b) [
        | inl (a, n) ↦ (inl a, l)
        | inr (a, n, m) ↦ (inr (a, n), l)
      ]
  handle_decoded-IsHandled wire body (err unsupported_encoding, coding) f e =
      (f, (decode_request_body-unsupported h.decompressors body r.coding).0 (ap (λ x. x.0) e))
  handle_decoded-IsHandled wire body (err zstd_decode, coding) f e =
      (inl refl, coding_listed body _ allow f e (λ x. cc x))
  handle_decoded-IsHandled wire body (err gzip_reader, coding) f e =
      (inl refl, coding_listed body _ allow f e (λ x. cc x))
  handle_decoded-IsHandled wire body (err gzip_decode, coding) f e =
      (inl refl, coding_listed body _ allow f e (λ x. cc x))
  handle_decoded-IsHandled wire body (err gzip_too_large, coding) f e =
      (inl refl, coding_listed body _ allow f e (λ x. cc x))

  handle-IsHandled :
      (b : Option Bytes) → read_limited max_body r.body ≡ b → IsHandled r (handle h r b)
  unfolding handle
  handle-IsHandled none e = (inl refl, inl (e, refl))
  handle-IsHandled (some body) e = handle_decoded-IsHandled _ body _ (λ n. cc (e, n)) refl

  -- The three kinds of response.
  pub data Reply (reply : HookReply) : Type 0 where
    not_allowed : r.method ≢ codes "POST" → reply.status ≡ 405 → Reply reply
    unsupported :
        r.method ≡ codes "POST"
        → reply.status ≡ 415
        → reply.advertised ≡ some accept_encoding
        → read_limited max_body r.body ≢ none
        → IsUnlisted r
        → Reply reply
    answer :
        (resp : GuardrailResponse)
        → r.method ≡ codes "POST"
        → reply.status ≡ 200
        → Sends reply.body resp
        → IsAnswer resp
        → IsAccepted r resp
        → Reply reply

  write_hook_response-Sends :
      (run : Run) (resp : GuardrailResponse) → Sends (write_hook_response h r run resp) resp
  unfolding write_hook_response
  write_hook_response-Sends run resp =
      elim (Bool-cases (h.gzip_response && accepts_gzip r && run.gzip_works)) [
        | inl e ↦ rw e (inr refl)
        | inr e ↦ rw e (inl refl)
      ]

  conclude-Reply :
      (run : Run) (advertised : Option Bytes) (st : State) (x : Handled)
      → r.method ≡ codes "POST"
      → IsHandled r x
      → Reply (conclude h r run advertised st x).1
  unfolding conclude
  conclude-Reply run advertised st (answered resp s) m v =
      answer resp m refl (write_hook_response-Sends run resp) v.0 v.1
  conclude-Reply run advertised st (rejected s) m v = unsupported m refl refl v.0 v.1

  -- The handler answers a request that is no POST with 405; a POST that it could read, of a coding
  -- that it does not advertise, with 415 and the codings that it accepts; and every other POST with
  -- 200 and either "allow" or "modify" with a body: "allow" if it could not be read. It never answers
  -- anything that would block the request.
  pub serve_hook-Reply : (run : Run) (st : State) → Reply (serve_hook h r run st).1
  unfolding serve_hook finished
  serve_hook-Reply run st = elim (Bool-cases (bytes_eq r.method (codes "POST"))) [
    | inl e ↦ rw e (
        conclude-Reply run _ _ (handle h r (read_limited max_body r.body))
          ((bytes_eq_iff r.method (codes "POST")).0 e) (handle-IsHandled _ refl))
    | inr e ↦ rw e (not_allowed (bytes_ne r.method (codes "POST") e) refl)
  ]
