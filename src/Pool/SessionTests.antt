-- ===== src/Pool/SessionTests.antt =====
-- A worker that answers two requests, and has begun a third line.
use tsheadroom.Prelude.{
  ◌++◌, Bytes, codes, bytes_eq, true, false, List, [], ◌∷◌, Option, none, some, ◌≡◌, refl,
  if◌then◌else◌,
}
use tsheadroom.Prelude.Dict.{Dict}
use tsheadroom.Prelude.Lines.{framed}
use tsheadroom.Go.Int64.{Int64, add}
use tsheadroom.Go.Strings.{equal_fold}
use tsheadroom.Go.Json.{Json, unmarshal, assign, assign_all, plain, write_back}
use tsheadroom.Protocol.{CompressResult}
use tsheadroom.Pool.Worker.{Envelope, empty_result, envelope_setters, result_pointer, or_empty}
use tsheadroom.Pool.Exchange.{envelope_of, Answers}
use tsheadroom.Pool.Session.{calls}
use tsheadroom.Pool.InStep.{stream, good_calls, all_return, calls-in_step}

unfoldable pub numbered : Bytes → Option (Dict Bytes)
numbered b = some (
    (codes "id", if bytes_eq b (framed (codes "a")) then codes "1" else codes "2")
    ∷ (codes "ok", codes "t")
    ∷ (codes "result", codes "r")
    ∷ [])

unfoldable pub result_fields : Bytes → Option (Dict Bytes)
result_fields b = if bytes_eq b (codes "r") then some [] else numbered b

unfoldable pub number : Bytes → Option Int64
number raw = if bytes_eq raw (codes "1") then some 1 else some 2

abbrev pub numbered_json : Json
numbered_json = record {
  is_null = λ raw. false;
  bool = λ raw. some true;
  int = number;
  float = λ raw. none;
  string = λ raw. none;
  fields = result_fields;
  array = λ raw. none;
  normalize = λ raw. none;
  quote = λ s. s;
  float_text = λ f. [];
}

abbrev answer : Int64 → Envelope
answer n = record { id = n; ok = true; result = some empty_result; error = []; error_type = [] }

first_decodes : envelope_of numbered_json (framed (codes "a")) ≡ (answer 1, true)
unfolding numbered result_fields number unmarshal bytes_eq assign_all assign envelope_setters
    equal_fold plain result_pointer write_back or_empty
first_decodes = refl

second_decodes : envelope_of numbered_json (framed (codes "b")) ≡ (answer 2, true)
unfolding numbered result_fields number unmarshal bytes_eq assign_all assign envelope_setters
    equal_fold plain result_pointer write_back or_empty
second_decodes = refl

abbrev lines : List Bytes
lines = codes "a" ∷ codes "b" ∷ []

abbrev results : List CompressResult
results = empty_result ∷ empty_result ∷ []

abbrev output : Bytes
output = codes "a" ++ 10 ∷ codes "b" ++ 10 ∷ codes "c"

answers : (n : Int64) → Answers n empty_result (answer n)
answers n = record { same_id = refl; good = refl; holds = refl }

calls-in_step_example :
    calls numbered_json (good_calls results) (record { next_id = 0; stdout = output })
    ≡ all_return results
calls-in_step_example = (calls-in_step numbered_json results 0 output).1 (
  lines,
  codes "c",
  (unfold stream in refl),
  (
    (refl, tt),
    (answer 1, first_decodes, (unfold add in answers 1)),
    ((refl, tt), (answer 2, (unfold add in second_decodes), (unfold add in answers 2)), tt),
  ),
)
