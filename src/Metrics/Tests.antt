-- ===== src/Metrics/Tests.antt =====
-- Runs of the counters, and exported text as the source's tests expect it.
use tsheadroom.Prelude.{◌≡◌, refl, Bytes, codes, List, [], ◌∷◌, ◌++◌, some, arith, false}
use tsheadroom.Summary.{Summary, blank, modify_reason, error_reason}
use tsheadroom.Metrics.{new_metrics, run, Call, start, done, folded}
use tsheadroom.Metrics.Inbound.{run_new-Shows, ShowsIn, in_flight}
use tsheadroom.Metrics.Overhead.{run_new-Describes, DescribesIn, recorded}
use tsheadroom.Metrics.Export.{escape_label, format_hundredths, round2}
use tsheadroom.Metrics.Export.Escape.{read_label-escape_label, read_label}
use tsheadroom.Go.Strconv.{itoa}
use tsheadroom.Go.Double.{millis, round_hundredths, hundredths_of}

abbrev failed_call : Summary
failed_call = record blank { provider = codes "anthropic"; reason = error_reason }

abbrev modified_call : Summary
modified_call = record blank { provider = codes "openai"; reason = modify_reason }

abbrev calls : List Call
calls = start ∷ start ∷ folded failed_call 12 ∷ done ∷ folded modified_call 7 ∷ []

calls-in_flight : in_flight 0 calls ≡ some 1
unfolding in_flight
calls-in_flight = refl

run_new-Shows_example : ShowsIn 1 (run (some new_metrics) calls)
run_new-Shows_example = run_new-Shows calls 1 calls-in_flight (omega arith)

run_new-Describes_example : DescribesIn (recorded [] calls) (run (some new_metrics) calls)
run_new-Describes_example = run_new-Describes calls

abbrev odd_label : Bytes
odd_label = 34 ∷ 10 ∷ 92 ∷ b'n' ∷ []

read_label-escape_label_example :
    read_label false (escape_label odd_label ++ 34 ∷ codes "} 1") ≡ some (odd_label, codes "} 1")
read_label-escape_label_example = read_label-escape_label odd_label (codes "} 1")

whole_number : format_hundredths 10000 ≡ codes "100"
unfolding itoa format_hundredths
whole_number = refl

halves_up : format_hundredths (hundredths_of (round2 (millis 1505))) ≡ codes "1.51"
unfolding itoa format_hundredths round2 hundredths_of millis round_hundredths
halves_up = refl

below_half : format_hundredths (hundredths_of (round2 (millis 1005))) ≡ codes "1"
unfolding itoa format_hundredths round2 hundredths_of millis round_hundredths
below_half = refl
