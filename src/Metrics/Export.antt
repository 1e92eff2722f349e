-- ===== src/Metrics/Export.antt =====
-- metrics.go: the Prometheus text of a snapshot.
pub mod Escape
pub mod Sorting
pub mod Order
mod OrderTests
use tsheadroom.Prelude.{
  ℕ, ◌+◌, ◌-◌, ◌*◌, ◌/◌, ◌%◌, ◌^◌, Bytes, codes, bytes_eq, Bool, List, [], ◌∷◌, ◌++◌, map, Option,
  none, some, ltb, ◌==◌, if◌then◌else◌,
}
use tsheadroom.Prelude.Dict.{Dict}
use tsheadroom.Go.Int64.{Int64, word, is_negative}
use tsheadroom.Go.Double.{millis, round_hundredths, hundredths_of}
use tsheadroom.Go.Strings.{replace_all, str_le, trim_right, trim_suffix}
use tsheadroom.Go.Strconv.{itoa, digit}
use tsheadroom.Metrics.{Metrics, count}

abbrev pub newline : Bytes
newline = 10 ∷ []

abbrev pub backslash : Bytes
backslash = 92 ∷ []

abbrev pub quote : Bytes
quote = 34 ∷ []

-- Backslash, then line feed, then quote: the order of the three calls matters.
unfoldable pub escape_label : Bytes → Bytes
unfolding replace_all
escape_label v =
    let v₁ = replace_all 92 (92 ∷ 92 ∷ []) v in
    let v₂ = replace_all 10 (92 ∷ b'n' ∷ []) v₁ in replace_all 34 (92 ∷ 34 ∷ []) v₂

-- A float64 that is not negative is a number of units of 2 ^ -62.
pub data Value : Type 0 where
  int64 : Int64 → Value
  float64 : ℕ → Value

-- No overhead is a NaN, nor infinite, but for the minimum of no samples.
unfoldable pub round2 : ℕ → ℕ
round2 f = round_hundredths f

-- `%d`
unfoldable pub format_int : Int64 → Bytes
unfolding is_negative
format_int n = if is_negative n then b'-' ∷ itoa (word - n) else itoa n

-- The decimals of `%.2f`, without the zeros and the point that end it.
unfoldable pub format_hundredths : ℕ → Bytes
unfolding trim_right trim_suffix digit
format_hundredths h = trim_suffix b'.' (
    trim_right (λ c. c == b'0')
      (itoa (h / 100) ++ b'.' ∷ digit (h / 10 % 10) ∷ digit (h % 10) ∷ []))

unfoldable pub fmt_value : Value → Bytes
unfolding format_int format_hundredths
fmt_value (int64 n) = format_int n
fmt_value (float64 f) = format_hundredths (hundredths_of f)

-- The two comment lines of a family.
unfoldable pub family_header : Bytes → Bytes → Bytes → Bytes
family_header name typ help =
    codes "# HELP "
    ++ (name
        ++ (codes " "
            ++ (help
                ++ (newline ++ (codes "# TYPE " ++ (name ++ (codes " " ++ (typ ++ newline))))))))

unfoldable pub scalar : Bytes → Bytes → Bytes → Value → Bytes
unfolding family_header fmt_value
scalar name typ help value =
    family_header name typ help
    ++ (name ++ (codes " " ++ (fmt_value value ++ (newline ++ newline))))

-- `sort.Strings`: of equal strings no order can be seen.
unfoldable pub insert_sorted : Bytes → List Bytes → List Bytes
unfolding str_le
insert_sorted k [] = k ∷ []
insert_sorted k (j ∷ ks) =
    let rest = insert_sorted k ks in if str_le k j then k ∷ j ∷ ks else j ∷ rest

unfoldable pub sort_strings : List Bytes → List Bytes
unfolding insert_sorted
sort_strings [] = []
sort_strings (k ∷ ks) = insert_sorted k (sort_strings ks)

unfoldable pub keys : Dict Int64 → List Bytes
keys m = map (λ e. e.0) m

unfoldable pub sample : Bytes → Bytes → Bytes → Int64 → Bytes
unfolding escape_label format_int
sample name label k n =
    name
    ++ (codes "{"
        ++ (label
            ++ (codes "="
                ++ (quote
                    ++ (escape_label k ++ (quote ++ (codes "} " ++ (format_int n ++ newline))))))))

unfoldable pub samples : Bytes → Bytes → Dict Int64 → List Bytes → Bytes
unfolding sample count
samples name label values [] = []
samples name label values (k ∷ ks) =
    sample name label k (count k values) ++ samples name label values ks

unfoldable pub labeled : Bytes → Bytes → Bytes → Bytes → Dict Int64 → Bytes
unfolding family_header samples sort_strings keys
labeled name typ help label values =
    family_header name typ help
    ++ (samples name label values (sort_strings (keys values)) ++ newline)

-- The minimum is shown as 0 while there is no sample, and so is an infinite one.
unfoldable pub overhead_min_out : Metrics → ℕ
unfolding round2
overhead_min_out m = elim m.overhead_min [
  | none ↦ 0
  | some least ↦
      if m.overhead_count == 0
      then 0
      else if is_negative m.overhead_count
      then 0
      else round2 (millis least)
]

unfoldable pub concat : List Bytes → Bytes
concat [] = []
concat (t ∷ ts) = t ++ concat ts

abbrev counter : Bytes
counter = codes "counter"

abbrev gauge : Bytes
gauge = codes "gauge"

unfoldable pub headroom_families : Metrics → List Bytes
unfolding scalar labeled overhead_min_out
headroom_families m =
    scalar (codes "headroom_requests_total") counter
      (codes "Total compression hook calls processed") (int64 m.requests_total)
    ∷ scalar (codes "headroom_requests_failed_total") counter
        (codes "Hook calls where compression errored and we failed open") (int64 m.requests_failed)
    ∷ scalar (codes "headroom_tokens_input_total") counter
        (codes "Total input tokens seen by compression (tokens_before)") (int64 m.tokens_input)
    ∷ scalar (codes "headroom_tokens_saved_total") counter
        (codes "Tokens saved by compression (tokens_saved)") (int64 m.tokens_saved)
    ∷ scalar (codes "headroom_overhead_ms_sum") counter
        (codes "Sum of tsheadroom processing time in milliseconds (excludes upstream LLM)")
        (float64 (round2 m.overhead_sum))
    ∷ scalar (codes "headroom_overhead_ms_count") counter
        (codes "Count of observed tsheadroom overhead samples") (int64 m.overhead_count)
    ∷ scalar (codes "headroom_overhead_ms_min") gauge
        (codes "Minimum observed tsheadroom overhead in milliseconds")
        (float64 (overhead_min_out m))
    ∷ scalar (codes "headroom_overhead_ms_max") gauge
        (codes "Maximum observed tsheadroom overhead in milliseconds")
        (float64 (round2 (millis m.overhead_max)))
    ∷ scalar (codes "headroom_inbound_requests_total") counter
        (codes "All inbound HTTP requests accepted by the hook handler") (int64 m.inbound_total)
    ∷ scalar (codes "headroom_inbound_requests_completed_total") counter
        (codes "Inbound HTTP requests completed by the hook handler") (int64 m.inbound_completed)
    ∷ scalar (codes "headroom_inbound_requests_active") gauge
        (codes "Inbound HTTP requests currently in flight in the hook handler")
        (int64 m.inbound_active)
    ∷ labeled (codes "headroom_requests_by_provider") counter (codes "Requests by provider")
        (codes "provider") m.by_provider
    ∷ labeled (codes "headroom_requests_by_model") counter (codes "Requests by model")
        (codes "model") m.by_model
    ∷ []

unfoldable pub tsheadroom_families : Metrics → List Bytes
unfolding scalar labeled
tsheadroom_families m =
    scalar (codes "tsheadroom_tokens_after_total") counter
      (codes "Total output tokens after compression (tokens_after)") (int64 m.tokens_after)
    ∷ scalar (codes "tsheadroom_cold_starts_total") counter
        (codes "Worker first-real-call events that paid the one-time ML model load")
        (int64 m.cold_starts)
    ∷ labeled (codes "tsheadroom_requests_by_outcome") counter (codes "Requests by outcome")
        (codes "outcome") m.by_outcome
    ∷ []

-- The two gauges of the pool, and the two counters of its routing, if they are wired.
unfoldable pub pool_families : Option (Int64 × Int64) → List Bytes
unfolding scalar
pool_families none = []
pool_families (some (slots, busy)) =
    scalar (codes "tsheadroom_pool_slots_total") gauge (codes "Total worker slots in the pool")
      (int64 slots)
    ∷ scalar (codes "tsheadroom_pool_slots_busy") gauge
        (codes "Worker slots currently running a compression") (int64 busy)
    ∷ []

unfoldable pub affinity_families : Option (Int64 × Int64) → List Bytes
unfolding scalar
affinity_families none = []
affinity_families (some (hits, spills)) =
    scalar (codes "tsheadroom_affinity_hits_total") counter
      (codes "Requests routed straight to their affinity worker (warm-cache hit)") (int64 hits)
    ∷ scalar (codes "tsheadroom_affinity_spills_total") counter
        (codes "Affinity-eligible requests whose worker was busy and spilled to another")
        (int64 spills)
    ∷ []

unfoldable pub export : Option Metrics → Option (Int64 × Int64) → Option (Int64 × Int64) → Bytes
unfolding concat headroom_families tsheadroom_families pool_families affinity_families
export none pool affinity = []
export (some m) pool affinity = concat (
    headroom_families m
    ++ (tsheadroom_families m ++ (pool_families pool ++ affinity_families affinity)))

pub data MetricsReply : Type 0 where
  exposition : Bytes → MetricsReply
  get_only : MetricsReply

-- `Metrics.ServeHTTP`: the text with a 200, or a 405.
unfoldable pub serve_metrics :
    Bytes → Option Metrics → Option (Int64 × Int64) → Option (Int64 × Int64) → MetricsReply
serve_metrics method m pool affinity =
    if bytes_eq method (codes "GET") then exposition (export m pool affinity) else get_only
