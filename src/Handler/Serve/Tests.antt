-- ===== src/Handler/Serve/Tests.antt =====
-- Runs of the whole handler.
use tsheadroom.Prelude.{codes, bytes_eq, true, false, [], none, some, ◌≡◌, refl, arith}
use tsheadroom.Go.Json.{Json}
use tsheadroom.Config.{view, empty_heap, default_settings}
use tsheadroom.Encoding.{Decompressors, read_limited, decode_request_body}
use tsheadroom.Metrics.{Metrics, new_metrics}
use tsheadroom.Handler.Serve.{
  Handler, HookRequest, Run, State, serve_hook, finished, conclude, handle, handle_decoded,
}
use tsheadroom.Handler.Serve.Contract.{Reply, serve_hook-Reply}
use tsheadroom.Handler.Serve.Accounting.{IsCounted, serve_hook-IsCounted}

-- Every body is an object without fields.
abbrev pub empty_json : Json
empty_json = record {
  is_null = λ raw. false;
  bool = λ raw. none;
  int = λ raw. none;
  float = λ raw. none;
  string = λ raw. none;
  fields = λ body. some [];
  array = λ raw. none;
  normalize = λ raw. none;
  quote = λ s. s;
  float_text = λ f. [];
}

abbrev pub copying : Decompressors
copying = record {
  gzip_stream = λ body. some (record { bytes = body; failed = false });
  zstd_decode_all = λ n body. some body;
}

abbrev toy_handler : Handler
toy_handler = record {
  json = empty_json;
  decompressors = copying;
  comp = λ r. none;
  settings = view empty_heap default_settings;
  verbose = true;
  gzip_response = true;
  accept_compressed = true;
}

abbrev pub toy_request : HookRequest
toy_request = record {
  method = codes "POST";
  accept = codes "gzip, br";
  coding = codes "br";
  body = record { bytes = codes "{}"; failed = false };
}

abbrev pub toy_run : Run
toy_run = record { read_us = 3; write_us = 4; total_us = 9; gzip_works = true }

abbrev pub fresh : State
fresh = record { metrics = some new_metrics; out = [] }

br_refused : (serve_hook toy_handler toy_request toy_run fresh).1.status ≡ 415
unfolding serve_hook finished bytes_eq conclude handle read_limited handle_decoded
    decode_request_body
br_refused = refl

serve_hook-Reply_example :
    Reply toy_handler toy_request (serve_hook toy_handler toy_request toy_run fresh).1
serve_hook-Reply_example = serve_hook-Reply toy_handler toy_request toy_run fresh

serve_hook-IsCounted_example :
    (m' : Metrics) × ((serve_hook toy_handler toy_request toy_run fresh).0.metrics ≡ some m')
    × IsCounted toy_handler toy_request new_metrics m'
serve_hook-IsCounted_example =
    serve_hook-IsCounted toy_handler toy_request toy_run fresh new_metrics refl
      (unfold new_metrics in omega arith)
