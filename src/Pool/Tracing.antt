-- ===== src/Pool/Tracing.antt =====
-- A result of `Compress`, and the worker call that returned it.
use native.Mathlib.Decide.{ℕ_discrete}
use tsheadroom.Prelude.{
  ℕ, ◌==◌, ==_iff, ◌||◌, ◌++◌, Bool, true, false, not, List, [], ◌∷◌, some, ◌≡◌, ◌⊎◌, refl, inl,
  inr, arith, Bool-cases, Option-cases, All,
}
use tsheadroom.Protocol.{CompressRequest, CompressResult}
use tsheadroom.Pool.{
  Job, JobResult, result, worker_failed, unavailable, shutting_down, Client, absent, accepted,
  collected, abandoned, refused, checked, spilling, Pool, new_pool,
}
use tsheadroom.Pool.Events.{
  Event, begins, tries_affinity, gives_up, sees_shutdown, collects, handed_to, slot_moves,
  shutdown_moves, run_from,
}
use tsheadroom.Pool.Provenance.{call_log, results, numbered}
use tsheadroom.Pool.Requests.{BeginsOk, LogOk, run_from-call_log}
use tsheadroom.Pool.Outcome.{as_result, response, compress_returns, compress_in, pool_compressor}

CompressRequest-discrete : Discrete CompressRequest
CompressRequest-discrete = hlevel ℕ_discrete

-- A worker call that was made for call `k` of `Compress`, with the request `req`, and returned `r`.
abbrev pub IsMade : ℕ → CompressRequest → CompressResult → List (Job × CompressResult) → Type 0
IsMade k req r [] = ⊥
IsMade k req r ((j, x) ∷ rest) = ((j.id ≡ k) × (j.req ≡ req) × (x ≡ r)) ⊎ IsMade k req r rest

-- The events are not the begin of a call `k`: a number names one call.
abbrev pub IsOther : ℕ → Event → Type 0
IsOther k (begins n req) = (n == k) ≡ false
IsOther k _ = Unit

-- A decision as a test.
is_yes {ℓ} : {A : Type ℓ} → Dec A → Bool
is_yes (yes a) = true
is_yes (no n) = false

is_yes-true {ℓ} : {A : Type ℓ} (d : Dec A) → is_yes d ≡ true → A
unfolding is_yes
is_yes-true (yes a) h = a
is_yes-true (no n) h = cc h

true-is_yes {ℓ} : {A : Type ℓ} (d : Dec A) → A → is_yes d ≡ true
unfolding is_yes
true-is_yes (yes a) x = refl
true-is_yes (no n) x = absurd (n x)

module _ (k : ℕ) (req : CompressRequest) where
  -- What the requests of a run pass if call `k` is made with `req`.
  fits : ℕ → CompressRequest → Bool
  fits n x = not (n == k) || is_yes (CompressRequest-discrete x req)

  fits_self : fits k req ≡ true
  unfolding fits
  fits_self = rw (true-is_yes (CompressRequest-discrete req req) refl) (ground arith)

  fits-eq : (n : ℕ) (x : CompressRequest) → fits n x ≡ true → n ≡ k → x ≡ req
  unfolding fits
  fits-eq n x h e = is_yes-true (CompressRequest-discrete x req) (rw (e, (==_iff k k).1 refl) at h)

  other-BeginsOk : (e : Event) → IsOther k e → BeginsOk fits e
  unfolding fits
  other-BeginsOk (begins n x) v = rw v refl
  other-BeginsOk (tries_affinity n) v = tt
  other-BeginsOk (handed_to n i) v = tt
  other-BeginsOk (gives_up n) v = tt
  other-BeginsOk (sees_shutdown n) v = tt
  other-BeginsOk (collects n) v = tt
  other-BeginsOk (slot_moves i ev) v = tt
  other-BeginsOk shutdown_moves v = tt

  others-BeginsOk : (es : List Event) → All (IsOther k) es → All (BeginsOk fits) es
  others-BeginsOk [] v = tt
  others-BeginsOk (e ∷ es) (v, vs) = (other-BeginsOk e v, others-BeginsOk es vs)

  run-BeginsOk :
      (before after : List Event)
      → All (IsOther k) before
      → All (IsOther k) after
      → All (BeginsOk fits) (before ++ begins k req ∷ after)
  run-BeginsOk [] after v w = (fits_self, others-BeginsOk after w)
  run-BeginsOk (e ∷ es) after (v, vs) w = (other-BeginsOk e v, run-BeginsOk es after vs w)

abbrev IsAmong : ℕ → CompressResult → List (ℕ × CompressResult) → Type 0
IsAmong k r [] = ⊥
IsAmong k r ((n, x) ∷ rest) = ((n ≡ k) × (x ≡ r)) ⊎ IsAmong k r rest

response-IsAmong :
    (k : ℕ) (r : CompressResult) (rs : List (ℕ × JobResult))
    → response k rs ≡ some r
    → IsAmong k r (results rs)
unfolding response as_result results
response-IsAmong k r [] h = cc h
response-IsAmong k r ((n, result x) ∷ rs) h = elim (Bool-cases (n == k)) [
  | inl q ↦ inl ((==_iff n k).0 q, cc (rw q at h))
  | inr q ↦ inr (response-IsAmong k r rs (rw q at h))
]
response-IsAmong k r ((n, worker_failed) ∷ rs) h = elim (Bool-cases (n == k)) [
  | inl q ↦ cc (rw q at h)
  | inr q ↦ response-IsAmong k r rs (rw q at h)
]
response-IsAmong k r ((n, unavailable) ∷ rs) h = elim (Bool-cases (n == k)) [
  | inl q ↦ cc (rw q at h)
  | inr q ↦ response-IsAmong k r rs (rw q at h)
]
response-IsAmong k r ((n, shutting_down) ∷ rs) h = elim (Bool-cases (n == k)) [
  | inl q ↦ cc (rw q at h)
  | inr q ↦ response-IsAmong k r rs (rw q at h)
]

module _ (k : ℕ) (req : CompressRequest) (r : CompressResult) where
  among-IsMade :
      (log : List (Job × CompressResult))
      → LogOk (fits k req) log
      → IsAmong k r (numbered log)
      → IsMade k req r log
  unfolding numbered
  among-IsMade [] v a = a
  among-IsMade ((j, x) ∷ log) (v, vs) (inl (e, q)) = inl (e, fits-eq k req j.id j.req v e, q)
  among-IsMade ((j, x) ∷ log) (v, vs) (inr a) = inr (among-IsMade log vs a)

-- A client that got a result has it from its channel.
returned_response :
    (k : ℕ) (p : Pool) (c : Client) (r : CompressResult)
    → compress_returns k p c ≡ some r
    → response k p.replies ≡ some r
unfolding compress_returns
returned_response k p collected r h = h
returned_response k p absent r h = cc h
returned_response k p accepted r h = cc h
returned_response k p abandoned r h = cc h
returned_response k p refused r h = cc h
returned_response k p (checked x) r h = cc h
returned_response k p (spilling x) r h = cc h

-- The log of the worker calls in the run of `pool_compressor`.
abbrev pub calls_made :
    Bool → ℕ → ℕ → List Event → List Event → CompressRequest → List (Job × CompressResult)
calls_made enabled size k before after req =
    call_log (before ++ begins k req ∷ after) (new_pool enabled size) []

-- A result that `Compress` returns, in whatever run of the pool, was returned by a worker call that a
-- slot made with the request of this very call, if no other call has its number.
pub pool_compressor-IsMade :
    (enabled : Bool) (size k : ℕ) (before after : List Event) (req : CompressRequest)
    (r : CompressResult)
    → All (IsOther k) before
    → All (IsOther k) after
    → pool_compressor enabled size k before after req ≡ some r
    → IsMade k req r (calls_made enabled size k before after req)
unfolding pool_compressor compress_in
pool_compressor-IsMade enabled size k before after req r v w h =
    let es = before ++ begins k req ∷ after in
    elim (Option-cases (run_from es (some (new_pool enabled size)))) [
      | inl n ↦ cc (rw (n, compress_in) at h)
      | inr (p, n) ↦
          let (same, ok) =
            run_from-call_log enabled size es p (fits k req) n
              (run-BeginsOk k req before after v w) in
          let a =
            response-IsAmong k r p.replies
              (returned_response k p (p.clients k) r (rw (n, compress_in) at h)) in
          among-IsMade k req r (call_log es (new_pool enabled size) []) ok (rw same at a)
    ]
