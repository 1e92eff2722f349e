-- ===== src/Metrics.antt =====
-- metrics.go: the lifetime counters; each method holds the mutex and is one step. A duration comes as
-- whole microseconds, which `msSince` turns into a float64 of milliseconds: the minimum and the maximum
-- keep the microseconds, which have the same order, and the sum is the float64, with its roundings.
pub mod Counters
pub mod Overhead
pub mod Inbound
pub mod Export
mod Tests
use tsheadroom.Prelude.{
  ℕ, ◌+◌, Bytes, codes, bytes_eq, Bool, true, false, ◌&&◌, List, [], ◌∷◌, Option, none, some, ltb,
  if◌then◌else◌,
}
use tsheadroom.Prelude.Dict.{Dict, get, set}
use tsheadroom.Go.Int64.{Int64, add, decrement, positive}
use tsheadroom.Go.Double.{add_float, millis}
use tsheadroom.Summary.{
  Summary, modify_reason, noop_reason, error_reason, read_error_reason, decode_error_reason,
  reject_reason,
}

pub record Metrics : Type 0 where
  pub requests_total : Int64
  pub requests_failed : Int64
  pub tokens_input : Int64
  pub tokens_saved : Int64
  pub tokens_after : Int64
  pub cold_starts : Int64
  pub overhead_sum : ℕ  -- a float64, in units of 2 ^ -62
  pub overhead_min : Option ℕ  -- `none` is +Inf
  pub overhead_max : ℕ
  pub overhead_count : Int64
  pub by_provider : Dict Int64
  pub by_model : Dict Int64
  pub by_outcome : Dict Int64
  pub inbound_total : Int64
  pub inbound_completed : Int64
  pub inbound_active : Int64

unfoldable pub new_metrics : Metrics
new_metrics = record {
  requests_total = 0;
  requests_failed = 0;
  tokens_input = 0;
  tokens_saved = 0;
  tokens_after = 0;
  cold_starts = 0;
  overhead_sum = 0;
  overhead_min = none;
  overhead_max = 0;
  overhead_count = 0;
  by_provider = [];
  by_model = [];
  by_outcome = [];
  inbound_total = 0;
  inbound_completed = 0;
  inbound_active = 0;
}

-- A method does nothing on a nil pointer.
unfoldable pub inbound_start : Option Metrics → Option Metrics
inbound_start none = none
inbound_start (some m) =
    some
      (record m { inbound_total = add m.inbound_total 1; inbound_active = add m.inbound_active 1 })

unfoldable pub inbound_done : Option Metrics → Option Metrics
inbound_done none = none
inbound_done (some m) = some (record m {
  inbound_completed = add m.inbound_completed 1;
  inbound_active =
      if positive m.inbound_active then decrement m.inbound_active else m.inbound_active;
})

unfoldable pub outcome_from_reason : Bytes → Bytes
outcome_from_reason reason =
    if bytes_eq reason modify_reason
    then codes "modify"
    else if bytes_eq reason noop_reason
    then codes "noop"
    else if bytes_eq reason error_reason
    then codes "error"
    else if bytes_eq reason read_error_reason
    then codes "read_error"
    else if bytes_eq reason decode_error_reason
    then codes "decode_error"
    else if bytes_eq reason reject_reason
    then codes "reject_encoding"
    else codes "passthrough"

unfoldable pub label_or_unknown : Bytes → Bytes
label_or_unknown v = if bytes_eq v [] then codes "unknown" else v

-- `m[k]`, zero for a missing key, and `m[k]++`.
unfoldable pub count : Bytes → Dict Int64 → Int64
unfolding get
count k m = elim (get k m) [ none ↦ 0 | some n ↦ n ]

unfoldable pub bump : Bytes → Dict Int64 → Dict Int64
unfolding count set
bump k m = set k (add (count k m) 1) m

unfoldable pub lower_min : Option ℕ → ℕ → Option ℕ
lower_min none dur = some dur
lower_min (some least) dur = if ltb dur least then some dur else some least

unfoldable pub raise_max : ℕ → ℕ → ℕ
raise_max most dur = if ltb most dur then dur else most

unfoldable pub record_call : Option Metrics → Summary → ℕ → Option Metrics
unfolding outcome_from_reason label_or_unknown lower_min raise_max
record_call none s dur = none
record_call (some m) s dur =
    let outcome = outcome_from_reason s.reason in
    some (record m {
      requests_total = add m.requests_total 1;
      by_outcome = bump outcome m.by_outcome;
      by_provider = bump (label_or_unknown s.provider) m.by_provider;
      by_model = bump (label_or_unknown s.model) m.by_model;
      tokens_input = add m.tokens_input s.tokens_before;
      tokens_saved = add m.tokens_saved s.tokens_saved;
      tokens_after = add m.tokens_after s.tokens_after;
      cold_starts = if s.cold then add m.cold_starts 1 else m.cold_starts;
      requests_failed =
          if bytes_eq outcome (codes "error") then add m.requests_failed 1 else m.requests_failed;
      overhead_sum = add_float m.overhead_sum (millis dur);
      overhead_count = add m.overhead_count 1;
      overhead_min = lower_min m.overhead_min dur;
      overhead_max = raise_max m.overhead_max dur;
    })

-- The calls that the handler makes, in whatever order they come to the mutex.
pub data Call : Type 0 where
  start done : Call
  folded : Summary → ℕ → Call

unfoldable pub step : Option Metrics → Call → Option Metrics
unfolding inbound_start inbound_done record_call
step m start = inbound_start m
step m done = inbound_done m
step m (folded s dur) = record_call m s dur

unfoldable pub run : Option Metrics → List Call → Option Metrics
run m [] = m
run m (c ∷ cs) = run (step m c) cs
