-- ===== src/Handler/Serve/Accounting.antt =====
-- What a call leaves in the metrics.
use tsheadroom.Prelude.{
  ap, ◌∙◌, ℕ, ◌+◌, ◌<◌, Bytes, codes, bytes_eq, true, false, Option, some, ◌≡◌, refl, inl, inr,
  arith, Bool-cases, if◌then◌else◌,
}
use tsheadroom.Go.Int64.{Int64, min_negative, add, decrement, positive}
use tsheadroom.Encoding.{max_body, read_limited}
use tsheadroom.Summary.{Summary}
use tsheadroom.Metrics.{
  Metrics, inbound_start, inbound_done, record_call, outcome_from_reason, bump,
}
use tsheadroom.Handler.Serve.{
  Handler, HookRequest, Run, State, Handled, answered, rejected, handle, conclude, finished,
  serve_hook,
}

-- The summary that a POST is recorded with.
pub summary_of : Handled → Summary
summary_of (answered resp s) = s
summary_of (rejected s) = s

-- One request came, completed, and left the gauge as it was; one hook call was recorded if it was a
-- POST, under the outcome of its reason.
pub record IsCounted (h : Handler) (r : HookRequest) (m m' : Metrics) : Type 0 where
  pub came : m'.inbound_total ≡ add m.inbound_total 1
  pub completed : m'.inbound_completed ≡ add m.inbound_completed 1
  pub gauge : m'.inbound_active ≡ m.inbound_active
  pub posts : bytes_eq r.method (codes "POST") ≡ true → m'.requests_total ≡ add m.requests_total 1
  pub outcome :
      bytes_eq r.method (codes "POST") ≡ true
      → m'.by_outcome
        ≡ bump
            (outcome_from_reason (summary_of (handle h r (read_limited max_body r.body))).reason)
            m.by_outcome
  pub others : bytes_eq r.method (codes "POST") ≡ false → m'.requests_total ≡ m.requests_total

metrics-conclude :
    (h : Handler) (r : HookRequest) (run : Run) (adv : Option Bytes) (st : State) (x : Handled)
    → (conclude h r run adv st x).0.metrics ≡ record_call st.metrics (summary_of x) run.total_us
unfolding conclude summary_of
metrics-conclude h r run adv st (answered resp s) = refl
metrics-conclude h r run adv st (rejected s) = refl

-- The gauge goes up and down again.
gauge-restored :
    (n : Int64)
    → n + 1 < min_negative
    → (if positive (add n 1) then decrement (add n 1) else add n 1) ≡ n
unfolding positive decrement add
gauge-restored n small = ground arith

posted-IsCounted :
    (h : Handler) (r : HookRequest) (m : Metrics) (us : ℕ) (s : Summary)
    → s ≡ summary_of (handle h r (read_limited max_body r.body))
    → bytes_eq r.method (codes "POST") ≡ true
    → m.inbound_active + 1 < min_negative
    → (m' : Metrics) × (inbound_done (record_call (inbound_start (some m)) s us) ≡ some m')
      × IsCounted h r m m'
unfolding inbound_start inbound_done record_call
posted-IsCounted h r m us s e p small = (
  _,
  refl,
  record {
    came = refl;
    completed = refl;
    gauge = gauge-restored m.inbound_active small;
    posts = λ _. refl;
    outcome = λ _. ap (λ x. bump (outcome_from_reason x.reason) m.by_outcome) e;
    others = λ q. cc (p, q);
  },
)

-- The metrics after a POST, and after another request.
pub metrics-posted :
    (h : Handler) (r : HookRequest) (run : Run) (st : State)
    → bytes_eq r.method (codes "POST") ≡ true
    → (serve_hook h r run st).0.metrics
      ≡ inbound_done (
          record_call
            (inbound_start st.metrics)
            (summary_of (handle h r (read_limited max_body r.body)))
            run.total_us)
unfolding serve_hook finished
metrics-posted h r run st p = rw p (ap inbound_done (metrics-conclude h r run _ _ _))

pub metrics-refused :
    (h : Handler) (r : HookRequest) (run : Run) (st : State)
    → bytes_eq r.method (codes "POST") ≡ false
    → (serve_hook h r run st).0.metrics ≡ inbound_done (inbound_start st.metrics)
unfolding serve_hook finished
metrics-refused h r run st p = rw p refl

refused-IsCounted :
    (h : Handler) (r : HookRequest) (m : Metrics)
    → bytes_eq r.method (codes "POST") ≡ false
    → m.inbound_active + 1 < min_negative
    → (m' : Metrics) × (inbound_done (inbound_start (some m)) ≡ some m') × IsCounted h r m m'
unfolding inbound_start inbound_done
refused-IsCounted h r m p small = (
  _,
  refl,
  record {
    came = refl;
    completed = refl;
    gauge = gauge-restored m.inbound_active small;
    posts = λ q. cc (p, q);
    outcome = λ q. cc (p, q);
    others = λ _. refl;
  },
)

-- A call to the hook handler that has counters (and fewer than 2 ^ 63 - 1 requests in flight) counts
-- one request in and one out, leaves the gauge of requests in flight as it was, and records one hook
-- call, under the outcome of its reason, exactly if it is a POST.
pub serve_hook-IsCounted :
    (h : Handler) (r : HookRequest) (run : Run) (st : State) (m : Metrics)
    → st.metrics ≡ some m
    → m.inbound_active + 1 < min_negative
    → (m' : Metrics) × ((serve_hook h r run st).0.metrics ≡ some m') × IsCounted h r m m'
serve_hook-IsCounted h r run st m e small = elim (Bool-cases (bytes_eq r.method (codes "POST"))) [
  | inl p ↦
      let (m', q, v) = posted-IsCounted h r m run.total_us _ refl p small in
      (
        m',
        metrics-posted h r run st p
            ∙ ap
                (λ x. inbound_done (
                  record_call (inbound_start x)
                    (summary_of (handle h r (read_limited max_body r.body))) run.total_us))
                e
            ∙ q,
        v,
      )
  | inr p ↦
      let (m', q, v) = refused-IsCounted h r m p small in
      (m', metrics-refused h r run st p ∙ ap (λ x. inbound_done (inbound_start x)) e ∙ q, v)
]
