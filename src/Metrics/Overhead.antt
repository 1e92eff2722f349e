-- ===== src/Metrics/Overhead.antt =====
-- The overhead figures against the durations that were recorded.
use tsheadroom.Prelude.{
  ℕ, ◌≤◌, ◌≡◌, refl, List, [], ◌∷◌, Option, none, some, arith, All, ◌⊎◌, inl, inr, sym, subst, ap,
}
use tsheadroom.Go.Double.{add_float, millis}
use tsheadroom.Summary.{Summary}
use tsheadroom.Metrics.{
  Metrics, new_metrics, step, run, Call, start, done, folded, inbound_start, inbound_done,
  record_call, lower_min, raise_max,
}

-- The durations among the calls, put in front of `ds` one by one.
pub recorded : List ℕ → List Call → List ℕ
recorded ds [] = ds
recorded ds (start ∷ cs) = recorded ds cs
recorded ds (done ∷ cs) = recorded ds cs
recorded ds (folded s dur ∷ cs) = recorded (dur ∷ ds) cs

-- The durations, last one first, added up one after the other, each sum rounded to a float64.
abbrev pub sum : List ℕ → ℕ
sum [] = 0
sum (d ∷ ds) = add_float (sum ds) (millis d)

abbrev pub Occurs : ℕ → List ℕ → Type 0
Occurs a [] = ⊥
Occurs a (d ∷ ds) = (d ≡ a) ⊎ Occurs a ds

abbrev pub IsLeast : Option ℕ → List ℕ → Type 0
IsLeast none ds = ds ≡ []
IsLeast (some least) ds = All (λ d. least ≤ d) ds × Occurs least ds

-- The figures describe the recorded durations `ds`.
pub record Describes (ds : List ℕ) (m : Metrics) : Type 0 where
  pub summed : m.overhead_sum ≡ sum ds
  pub least : IsLeast m.overhead_min ds
  pub most : All (λ d. d ≤ m.overhead_max) ds
  pub attained : (m.overhead_max ≡ 0) ⊎ Occurs m.overhead_max ds

All-le_trans : (a b : ℕ) (ds : List ℕ) → a ≤ b → All (λ d. b ≤ d) ds → All (λ d. a ≤ d) ds
All-le_trans a b [] h v = tt
All-le_trans a b (d ∷ ds) h v = (omega arith, All-le_trans a b ds h v.1)

All-ge_trans : (a b : ℕ) (ds : List ℕ) → a ≤ b → All (λ d. d ≤ a) ds → All (λ d. d ≤ b) ds
All-ge_trans a b [] h v = tt
All-ge_trans a b (d ∷ ds) h v = (omega arith, All-ge_trans a b ds h v.1)

lower_min-IsLeast :
    (l : Option ℕ) (dur : ℕ) (ds : List ℕ) → IsLeast l ds → IsLeast (lower_min l dur) (dur ∷ ds)
unfolding lower_min
lower_min-IsLeast none dur ds v = ground (arith, v)
lower_min-IsLeast (some x) dur ds v = ground (arith, All-le_trans dur x ds)

raise_max-cases :
    (most dur : ℕ)
    → ((raise_max most dur ≡ dur) × (most ≤ dur)) ⊎ ((raise_max most dur ≡ most) × (dur ≤ most))
unfolding raise_max
raise_max-cases most dur = ground arith

abbrev Covers : List ℕ → ℕ → Type 0
Covers ds r = All (λ d. d ≤ r) ds × ((r ≡ 0) ⊎ Occurs r ds)

Covers-cons :
    (most dur r : ℕ) (ds : List ℕ)
    → Covers ds most
    → ((r ≡ dur) × (most ≤ dur)) ⊎ ((r ≡ most) × (dur ≤ most))
    → Covers (dur ∷ ds) r
Covers-cons most dur r ds (v, a) (inl (e, h)) =
    ((omega arith, All-ge_trans most r ds (omega arith) v), inr (inl (sym e)))
Covers-cons most dur r ds (v, inl z) (inr (e, h)) =
    ((omega arith, All-ge_trans most r ds (omega arith) v), inl (omega arith))
Covers-cons most dur r ds (v, inr o) (inr (e, h)) = (
  (omega arith, All-ge_trans most r ds (omega arith) v),
  inr (inr (subst (λ x. Occurs x ds) (sym e) o)),
)

abbrev pub DescribesIn : List ℕ → Option Metrics → Type 0
DescribesIn ds none = Unit
DescribesIn ds (some m) = Describes ds m

record_call-Describes :
    (ds : List ℕ) (m : Option Metrics) (s : Summary) (dur : ℕ)
    → DescribesIn ds m
    → DescribesIn (dur ∷ ds) (record_call m s dur)
unfolding record_call
record_call-Describes ds none s dur v = tt
record_call-Describes ds (some m) s dur v =
    let (below, reached) =
      Covers-cons m.overhead_max dur (raise_max m.overhead_max dur) ds (v.most, v.attained)
        (raise_max-cases m.overhead_max dur) in
    record {
      summed = ap (λ a. add_float a (millis dur)) v.summed;
      least = lower_min-IsLeast m.overhead_min dur ds v.least;
      most = below;
      attained = reached;
    }

keep-Describes :
    (ds : List ℕ) (m : Option Metrics)
    → DescribesIn ds m
    → DescribesIn ds (inbound_start m) × DescribesIn ds (inbound_done m)
unfolding inbound_start inbound_done
keep-Describes ds none v = (tt, tt)
keep-Describes ds (some m) v = (
  record { summed = v.summed; least = v.least; most = v.most; attained = v.attained },
  record { summed = v.summed; least = v.least; most = v.most; attained = v.attained },
)

run-Describes :
    (ds : List ℕ) (m : Option Metrics) (cs : List Call)
    → DescribesIn ds m
    → DescribesIn (recorded ds cs) (run m cs)
unfolding run step recorded
run-Describes ds m [] v = v
run-Describes ds m (start ∷ cs) v = run-Describes ds (inbound_start m) cs (keep-Describes ds m v).0
run-Describes ds m (done ∷ cs) v = run-Describes ds (inbound_done m) cs (keep-Describes ds m v).1
run-Describes ds m (folded s dur ∷ cs) v =
    run-Describes (dur ∷ ds) (record_call m s dur) cs (record_call-Describes ds m s dur v)

new_metrics-Describes : Describes [] new_metrics
unfolding new_metrics
new_metrics-Describes = record { summed = refl; least = refl; most = tt; attained = inl refl }

-- After any sequence of calls the overhead sum is that of the recorded durations, added in their order
-- as float64, each sum rounded; the minimum is one of them and at most each (infinite while there is
-- none), and the maximum is at least each, and is one of them or 0.
pub run_new-Describes : (cs : List Call) → DescribesIn (recorded [] cs) (run (some new_metrics) cs)
run_new-Describes cs = run-Describes [] (some new_metrics) cs new_metrics-Describes
