-- ===== src/Handler/Process/Tests.antt =====
-- One hook call, from the body to the answer.
use tsheadroom.Prelude.{
  Bytes, codes, bytes_eq, Bool, true, false, [], ◌∷◌, Option, none, some, ◌≡◌, ◌≢◌, ◌⊎◌, refl,
  if◌then◌else◌,
}
use tsheadroom.Prelude.Dict.{Dict}
use tsheadroom.Go.Float64.{five_float}
use tsheadroom.Go.Json.{Json}
use tsheadroom.Config.{View, view, empty_heap, default_settings}
use tsheadroom.Protocol.{Compressor}
use tsheadroom.Handler.{allow, modify_action}
use tsheadroom.Handler.Process.{process}
use tsheadroom.Handler.Process.Splice.{IsSplice, process-IsSplice}

-- "call" holds the request body "req", which has two fields.
unfoldable pub toy_fields : Bytes → Option (Dict Bytes)
toy_fields b =
    if bytes_eq b (codes "call")
    then some ((codes "request_body", codes "req") ∷ [])
    else if bytes_eq b (codes "req")
    then some ((codes "messages", codes "[m]") ∷ (codes "stream", codes "true") ∷ [])
    else none

abbrev pub toy_json : Json
toy_json = record {
  is_null = λ raw. false;
  bool = λ raw. none;
  int = λ raw. none;
  float = λ raw. none;
  string = λ raw. none;
  fields = toy_fields;
  array = λ raw. some (codes "m" ∷ []);
  normalize = λ raw. none;
  quote = λ s. s;
  float_text = λ f. [];
}

abbrev toy_compressor : Compressor
toy_compressor = λ r. some (record {
  messages = codes "[s]";
  tokens_before = 9;
  tokens_after = 4;
  tokens_saved = 5;
  compression_ratio = five_float;
  transforms_applied = [];
  elapsed_ms = five_float;
  cold_first_call = false;
  model_limit = 100;
  slot = 0;
})

abbrev pub toy_config : View
toy_config = view empty_heap default_settings

abbrev pub new_body : Dict Bytes
new_body = (codes "messages", codes "[s]") ∷ (codes "stream", codes "true") ∷ []

call_runs :
    (process toy_json toy_compressor toy_config false (codes "call")).0.request_body ≡ some new_body
unfolding process toy_fields tsheadroom.Handler.Process.with_data tsheadroom.Go.Json.unmarshal
    bytes_eq tsheadroom.Go.Json.assign_all tsheadroom.Go.Json.assign tsheadroom.Handler.hook_setters
    tsheadroom.Go.Strings.equal_fold tsheadroom.Go.Json.raw_message
    tsheadroom.Handler.Process.with_body tsheadroom.Go.Json.object
    tsheadroom.Handler.Process.with_messages tsheadroom.Prelude.Dict.get
    tsheadroom.Handler.Process.compress_messages tsheadroom.Handler.Process.finish
    tsheadroom.Handler.Process.is_noop tsheadroom.Go.Int64.non_positive
call_runs = refl

process-IsSplice_example : IsSplice toy_json toy_compressor toy_config false (codes "call") new_body
process-IsSplice_example =
    process-IsSplice toy_json toy_compressor toy_config false (codes "call") new_body call_runs
