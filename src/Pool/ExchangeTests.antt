-- ===== src/Pool/ExchangeTests.antt =====
-- A line that decodes to a response.
use tsheadroom.Prelude.{
  Bytes, codes, bytes_eq, true, false, [], ◌∷◌, Option, none, some, ◌≡◌, refl, if◌then◌else◌,
}
use tsheadroom.Prelude.Dict.{Dict}
use tsheadroom.Go.Strings.{equal_fold}
use tsheadroom.Go.Json.{Json, unmarshal, assign, assign_all, plain, write_back}
use tsheadroom.Pool.Worker.{Envelope, empty_result, envelope_setters, result_pointer, or_empty}
use tsheadroom.Pool.Exchange.{envelope_of}

unfoldable line_fields : Bytes → Option (Dict Bytes)
line_fields b =
    if bytes_eq b (codes "line")
    then some ((codes "id", codes "1") ∷ (codes "ok", codes "t") ∷ (codes "result", codes "r") ∷ [])
    else some []

abbrev line_json : Json
line_json = record {
  is_null = λ raw. false;
  bool = λ raw. some true;
  int = λ raw. some 1;
  float = λ raw. none;
  string = λ raw. none;
  fields = line_fields;
  array = λ raw. none;
  normalize = λ raw. none;
  quote = λ s. s;
  float_text = λ f. [];
}

abbrev first_answer : Envelope
first_answer = record { id = 1; ok = true; result = some empty_result; error = []; error_type = [] }

line_decodes : envelope_of line_json (codes "line") ≡ (first_answer, true)
unfolding line_fields unmarshal bytes_eq assign_all assign envelope_setters equal_fold plain
    result_pointer write_back or_empty
line_decodes = refl
