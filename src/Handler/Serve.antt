-- ===== src/Handler/Serve.antt =====
-- handler.go: `ServeHTTP`, the whole handler, with its response and its metrics. The clock readings are
-- arguments, in microseconds.
pub mod Contract
pub mod Accounting
pub mod Tests
use tsheadroom.Prelude.{
  ℕ, Bytes, codes, bytes_eq, Bool, true, false, ◌&&◌, ◌||◌, List, [], ◌∷◌, ◌++◌, Option, none, some,
  length, if◌then◌else◌,
}
use tsheadroom.Go.Strings.{split, first_field, trim_space, equal_fold}
use tsheadroom.Go.Json.{Json}
use tsheadroom.Encoding.{
  Stream, Decompressors, Decoded, ok, err, DecodeError, unsupported_encoding, zstd_decode,
  gzip_reader, gzip_decode, gzip_too_large, max_body, read_limited, accept_encoding,
  decode_request_body,
}
use tsheadroom.Config.{View}
use tsheadroom.Protocol.{Compressor}
use tsheadroom.Summary.{Summary, blank, read_error_reason, decode_error_reason, reject_reason}
use tsheadroom.Metrics.{Metrics, inbound_start, inbound_done, record_call}
use tsheadroom.Handler.{GuardrailResponse, allow}
use tsheadroom.Handler.Process.{process}

-- The fields of `Handler`, with the settings read per request.
pub record Handler : Type 0 where
  pub json : Json
  pub decompressors : Decompressors
  pub comp : Compressor
  pub settings : View
  pub verbose : Bool
  pub gzip_response : Bool
  pub accept_compressed : Bool

pub record HookRequest : Type 0 where
  pub method : Bytes
  pub accept : Bytes  -- the Accept-Encoding header
  pub coding : Bytes  -- the Content-Encoding header
  pub body : Stream

-- What the clock and the gzip writer do during a call.
pub record Run : Type 0 where
  pub read_us : ℕ
  pub write_us : ℕ
  pub total_us : ℕ
  pub gzip_works : Bool

pub data ReplyBody : Type 0 where
  error_text : Bytes → ReplyBody
  json_text gzipped : GuardrailResponse → ReplyBody

-- `advertised` is the Accept-Encoding header of the response.
pub record HookReply : Type 0 where
  pub status : ℕ
  pub advertised : Option Bytes
  pub body : ReplyBody

-- A verbose line: the prefix, the summary and the times that it shows.
pub record Line : Type 0 where
  pub label : Bytes
  pub summary : Summary
  pub run : Run

-- The counters, and the verbose lines written so far.
pub record State : Type 0 where
  pub metrics : Option Metrics
  pub out : List Line

unfoldable pub req_label : Bytes → Bytes
req_label enc = if bytes_eq enc [] then codes "request" else codes "request(" ++ (enc ++ codes ")")

unfoldable pub lists_gzip : List Bytes → Bool
lists_gzip [] = false
lists_gzip (enc ∷ rest) =
    equal_fold (trim_space (first_field b';' enc)) (codes "gzip") || lists_gzip rest

unfoldable pub accepts_gzip : HookRequest → Bool
accepts_gzip r = lists_gzip (split b',' r.accept)

unfoldable pub write_hook_response : Handler → HookRequest → Run → GuardrailResponse → ReplyBody
write_hook_response h r run resp =
    if h.gzip_response && accepts_gzip r && run.gzip_works then gzipped resp else json_text resp

-- How a POST goes on: with an answer, or rejected for its coding.
pub data Handled : Type 0 where
  answered : GuardrailResponse → Summary → Handled
  rejected : Summary → Handled

unfoldable pub decode_failed : Bytes → ℕ → Handled
decode_failed coding wire =
    answered allow (record blank { reason = decode_error_reason; enc = coding; wire_bytes = wire })

unfoldable pub handle_decoded : Handler → ℕ → Decoded × Bytes → Handled
handle_decoded h wire (ok body, coding) =
    let (resp, s) = process h.json h.comp h.settings h.verbose body in
    answered resp (record s { enc = coding; wire_bytes = wire })
handle_decoded h wire (err unsupported_encoding, coding) =
    rejected (record blank { reason = reject_reason; enc = coding; wire_bytes = wire })
handle_decoded h wire (err zstd_decode, coding) = decode_failed coding wire
handle_decoded h wire (err gzip_reader, coding) = decode_failed coding wire
handle_decoded h wire (err gzip_decode, coding) = decode_failed coding wire
handle_decoded h wire (err gzip_too_large, coding) = decode_failed coding wire

-- The switch on the read; a failed read still counts the bytes that came.
unfoldable pub handle : Handler → HookRequest → Option Bytes → Handled
handle h r none =
    answered allow (record blank { reason = read_error_reason; wire_bytes = length r.body.bytes })
handle h r (some body) =
    handle_decoded h (length body) (decode_request_body h.decompressors body r.coding)

unfoldable pub verbose_line : Handler → Summary → Run → List Line
verbose_line h s run =
    if h.verbose then record { label = req_label s.enc; summary = s; run = run } ∷ [] else []

-- The end of a POST: the reply, the verbose line and the metrics.
unfoldable pub conclude :
    Handler → HookRequest → Run → Option Bytes → State → Handled → State × HookReply
conclude h r run advertised st (answered resp s) = (
  record { metrics = record_call st.metrics s run.total_us; out = st.out ++ verbose_line h s run },
  record { status = 200; advertised = advertised; body = write_hook_response h r run resp },
)
conclude h r run advertised st (rejected s) = (
  record { metrics = record_call st.metrics s run.total_us; out = st.out ++ verbose_line h s run },
  record {
    status = 415;
    advertised = some accept_encoding;
    body = error_text (codes "unsupported content-encoding");
  },
)

-- The deferred `inboundDone`.
unfoldable pub finished : State × HookReply → State × HookReply
finished (st, reply) = (record st { metrics = inbound_done st.metrics }, reply)

unfoldable pub serve_hook : Handler → HookRequest → Run → State → State × HookReply
serve_hook h r run st =
    let st₁ = record st { metrics = inbound_start st.metrics } in
    let advertised = if h.accept_compressed then some accept_encoding else none in
    finished (
      if bytes_eq r.method (codes "POST")
      then conclude h r run advertised st₁ (handle h r (read_limited max_body r.body))
      else (
        st₁,
        record {
          status = 405;
          advertised = advertised;
          body = error_text (codes "method not allowed");
        },
      ))
