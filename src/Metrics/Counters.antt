-- ===== src/Metrics/Counters.antt =====
-- How the counters of a run of calls agree with one another.
use tsheadroom.Prelude.{
  ℕ, ◌+◌, ◌%◌, ◌≡◌, Bytes, codes, bytes_eq, bytes_eq_iff, List, [], ◌∷◌, Option, none, some, arith,
  ◌<◌, if◌then◌else◌,
}
use tsheadroom.Prelude.Dict.{Dict, set, get-set}
use tsheadroom.Go.Int64.{Int64, word, add}
use tsheadroom.Metrics.{
  Metrics, new_metrics, count, bump, step, run, Call, start, done, folded, record_call,
  outcome_from_reason, label_or_unknown,
}
use tsheadroom.Summary.{Summary}

-- The sum of all values of a map.
pub total : Dict Int64 → ℕ
total [] = 0
total ((k, v) ∷ m) = v + total m

total-set : (k : Bytes) (v : Int64) (m : Dict Int64) → total (set k v m) + count k m ≡ total m + v
unfolding total set count
total-set k v [] = omega arith
total-set k v ((j, w) ∷ m) = ground (arith, total-set k v m)

-- One bump raises the sum by one, up to the wrap-around of a single counter.
total-bump : (k : Bytes) (m : Dict Int64) → total (bump k m) % word ≡ (total m + 1) % word
unfolding bump add
total-bump k m = omega (arith, total-set k ((count k m + 1) % word) m)

pub count-bump :
    (k j : Bytes) (m : Dict Int64)
    → count j (bump k m) ≡ (if bytes_eq k j then add (count k m) 1 else count j m)
unfolding count bump
count-bump k j m = ground (arith, get-set k j (add (count k m) 1) m)

pub record IsConsistent (m : Metrics) : Type 0 where
  pub small : m.requests_total < word
  pub outcomes : total m.by_outcome % word ≡ m.requests_total
  pub providers : total m.by_provider % word ≡ m.requests_total
  pub models : total m.by_model % word ≡ m.requests_total
  pub failures : m.requests_failed ≡ count (codes "error") m.by_outcome
  pub samples : m.overhead_count ≡ m.requests_total

-- Of a nil pointer there is nothing to say.
abbrev pub Agrees : Option Metrics → Type 0
Agrees none = Unit
Agrees (some m) = IsConsistent m

record_call-Agrees :
    (m : Option Metrics) (s : Summary) (dur : ℕ) → Agrees m → Agrees (record_call m s dur)
unfolding record_call add
record_call-Agrees none s dur v = tt
record_call-Agrees (some m) s dur v = record {
  small = omega arith;
  outcomes = omega (arith, v.outcomes, total-bump (outcome_from_reason s.reason) m.by_outcome);
  providers = omega (arith, v.providers, total-bump (label_or_unknown s.provider) m.by_provider);
  models = omega (arith, v.models, total-bump (label_or_unknown s.model) m.by_model);
  failures =
      let o = outcome_from_reason s.reason in
      ground (
        arith,
        v.failures,
        count-bump o (codes "error") m.by_outcome,
        bytes_eq_iff o (codes "error"),
      );
  samples = omega (arith, v.samples);
}

pub step-Agrees : (m : Option Metrics) (c : Call) → Agrees m → Agrees (step m c)
unfolding step
step-Agrees none start v = tt
step-Agrees (some m) start v = record {
  small = v.small;
  outcomes = v.outcomes;
  providers = v.providers;
  models = v.models;
  failures = v.failures;
  samples = v.samples;
}
step-Agrees none done v = tt
step-Agrees (some m) done v = record {
  small = v.small;
  outcomes = v.outcomes;
  providers = v.providers;
  models = v.models;
  failures = v.failures;
  samples = v.samples;
}
step-Agrees m (folded s dur) v = record_call-Agrees m s dur v

run-Agrees : (m : Option Metrics) (cs : List Call) → Agrees m → Agrees (run m cs)
unfolding run
run-Agrees m [] v = v
run-Agrees m (c ∷ cs) v = run-Agrees (step m c) cs (step-Agrees m c v)

pub new_metrics-Agrees : Agrees (some new_metrics)
unfolding new_metrics total count
new_metrics-Agrees = omega arith

-- After any sequence of calls the counts by outcome, by provider and by model each add up to the
-- number of requests (modulo 2 ^ 64), the failed requests are those with outcome "error", and there
-- is one overhead sample for each request.
pub run_new-IsConsistent : (cs : List Call) → Agrees (run (some new_metrics) cs)
run_new-IsConsistent cs = run-Agrees (some new_metrics) cs new_metrics-Agrees
