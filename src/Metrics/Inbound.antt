-- ===== src/Metrics/Inbound.antt =====
-- The gauge of requests in flight.
use tsheadroom.Prelude.{
  ℕ, zero, suc, ◌+◌, ◌<◌, ◌≡◌, List, [], ◌∷◌, Option, none, some, arith, length,
}
use tsheadroom.Go.Int64.{min_negative, add, decrement, positive}
use tsheadroom.Summary.{Summary}
use tsheadroom.Metrics.{
  Metrics, new_metrics, step, run, Call, start, done, folded, inbound_start, inbound_done,
  record_call,
}

-- How many requests are in flight after the calls, from `n`; `none` if an `inboundDone` comes
-- without its `inboundStart`.
unfoldable pub in_flight : ℕ → List Call → Option ℕ
in_flight n [] = some n
in_flight n (start ∷ cs) = in_flight (suc n) cs
in_flight zero (done ∷ cs) = none
in_flight (suc n) (done ∷ cs) = in_flight n cs
in_flight n (folded s dur ∷ cs) = in_flight n cs

-- The gauge shows `n`, and the two counters differ by it.
pub record Shows (n : ℕ) (m : Metrics) : Type 0 where
  pub active : m.inbound_active ≡ n
  pub difference : m.inbound_total ≡ m.inbound_completed + n

abbrev pub ShowsIn : ℕ → Option Metrics → Type 0
ShowsIn n none = Unit
ShowsIn n (some m) = Shows n m

abbrev arrived : Option Metrics → ℕ
arrived none = 0
arrived (some m) = m.inbound_total

start-Shows :
    (n : ℕ) (m : Option Metrics)
    → ShowsIn n m
    → arrived m + 1 < min_negative
    → ShowsIn (suc n) (inbound_start m) × (arrived (inbound_start m) < arrived m + 2)
unfolding inbound_start add
start-Shows n none v h = (tt, omega arith)
start-Shows n (some m) v h = (omega arith, omega arith)

done-Shows :
    (n : ℕ) (m : Option Metrics)
    → ShowsIn (suc n) m
    → arrived m < min_negative
    → ShowsIn n (inbound_done m) × (arrived (inbound_done m) ≡ arrived m)
unfolding inbound_done add decrement positive
done-Shows n none v h = (tt, omega arith)
done-Shows n (some m) v h = (ground arith, omega arith)

folded-Shows :
    (n : ℕ) (m : Option Metrics) (s : Summary) (dur : ℕ)
    → ShowsIn n m
    → ShowsIn n (record_call m s dur) × (arrived (record_call m s dur) ≡ arrived m)
unfolding record_call
folded-Shows n none s dur v = (tt, omega arith)
folded-Shows n (some m) s dur v = (omega arith, omega arith)

run-Shows :
    (n k : ℕ) (m : Option Metrics) (cs : List Call)
    → in_flight n cs ≡ some k
    → arrived m + length cs < min_negative
    → ShowsIn n m
    → ShowsIn k (run m cs)
unfolding in_flight run step
run-Shows n k m [] e h v = let p : n ≡ k = cc in rw p at v
run-Shows n k m (start ∷ cs) e h v =
    let (v', a) = start-Shows n m v (omega arith) in
    run-Shows (suc n) k (inbound_start m) cs e (omega arith) v'
run-Shows zero k m (done ∷ cs) e h v = cc
run-Shows (suc n) k m (done ∷ cs) e h v =
    let (v', a) = done-Shows n m v (omega arith) in
    run-Shows n k (inbound_done m) cs e (omega arith) v'
run-Shows zero k m (folded s dur ∷ cs) e h v =
    let (v', a) = folded-Shows zero m s dur v in
    run-Shows zero k (record_call m s dur) cs e (omega arith) v'
run-Shows (suc n) k m (folded s dur ∷ cs) e h v =
    let (v', a) = folded-Shows (suc n) m s dur v in
    run-Shows (suc n) k (record_call m s dur) cs e (omega arith) v'

new_metrics-Shows : Shows 0 new_metrics
unfolding new_metrics
new_metrics-Shows = omega arith

-- After fewer than 2 ^ 63 calls in which each `inboundDone` follows its own `inboundStart`, the
-- gauge shows the requests in flight, and requests seen and requests completed differ by it.
pub run_new-Shows :
    (cs : List Call) (k : ℕ)
    → in_flight 0 cs ≡ some k
    → length cs < min_negative
    → ShowsIn k (run (some new_metrics) cs)
run_new-Shows cs k e h =
    run-Shows 0 k (some new_metrics) cs e (unfold new_metrics in omega arith) new_metrics-Shows
