-- ===== src/Server/Counting.antt =====
-- The counters of a server over the requests that it serves.
use tsheadroom.Prelude.{
  arith, ℕ, suc, ◌+◌, ◌%◌, codes, bytes_eq, Bool, not, ◌&&◌, List, [], ◌∷◌, Option, some, ◌≡◌, refl,
  ap, ◌∙◌, inl, inr, Bool-cases, if◌then◌else◌,
}
use tsheadroom.Go.Int64.{word, add}
use tsheadroom.Encoding.{max_body, read_limited}
use tsheadroom.Metrics.{Metrics, new_metrics, start, done, folded, step}
use tsheadroom.Metrics.Counters.{IsConsistent, Agrees, step-Agrees, new_metrics-Agrees}
use tsheadroom.Handler.Serve.{Handler, HookRequest, Run, State, handle, serve_hook}
use tsheadroom.Handler.Serve.Accounting.{
  summary_of, serve_hook-IsCounted, metrics-posted, metrics-refused,
}
use tsheadroom.Server.{
  Setup, Server, ServerRequest, Serving, ServerEvent, gets, pool_is, serve, serve_event, serve_all,
  hook_handler, with_store, with_state,
}

-- Requests to the hook, and those that are hook calls.
unfoldable pub to_hook : ServerRequest → Bool
to_hook r = not (bytes_eq r.path (codes "/config")) && not (bytes_eq r.path (codes "/metrics"))

unfoldable pub is_call : ServerRequest → Bool
unfolding to_hook
is_call r = to_hook r && bytes_eq r.message.method (codes "POST")

unfoldable pub number_of : (ServerRequest → Bool) → List ServerEvent → ℕ
number_of p [] = 0
number_of p (gets r x ∷ es) = let n = number_of p es in if p r then suc n else n
number_of p (pool_is pool ver ∷ es) = number_of p es

-- The counters after `n` requests to the hook, of which `k` were hook calls.
pub record IsTally (n k : ℕ) (m : Metrics) : Type 0 where
  pub came : m.inbound_total ≡ n % word
  pub completed : m.inbound_completed ≡ n % word
  pub idle : m.inbound_active ≡ 0
  pub hook_calls : m.requests_total ≡ k % word
  pub consistent : IsConsistent m

serve_hook-Agrees :
    (h : Handler) (r : HookRequest) (run : Run) (st : State)
    → Agrees st.metrics
    → Agrees (serve_hook h r run st).0.metrics
unfolding step
serve_hook-Agrees h r run st v = elim (Bool-cases (bytes_eq r.method (codes "POST"))) [
  | inl p ↦ rw (metrics-posted h r run st p) (
      step-Agrees _ done (
        step-Agrees _ (folded (summary_of (handle h r (read_limited max_body r.body))) run.total_us)
          (step-Agrees st.metrics start v)))
  | inr p ↦ rw (metrics-refused h r run st p) (step-Agrees _ done (step-Agrees st.metrics start v))
]

-- The counters exist, and are those of `n` requests and `k` calls.
abbrev pub IsTallied : ℕ → ℕ → Option Metrics → Type 0
IsTallied n k c = (m : Metrics) × (c ≡ some m) × IsTally n k m

add-word : (n : ℕ) → add (n % word) 1 ≡ suc n % word
unfolding add
add-word n = omega arith

serve_hook-IsTallied :
    (h : Handler) (r : HookRequest) (run : Run) (st : State) (n k : ℕ)
    → IsTallied n k st.metrics
    → IsTallied
        (suc n)
        (if bytes_eq r.method (codes "POST") then suc k else k)
        (serve_hook h r run st).0.metrics
serve_hook-IsTallied h r run st n k (m, e, v) =
    let (m', e', c) = serve_hook-IsCounted h r run st m e (omega (arith, v.idle)) in
    let a : Agrees (serve_hook h r run st).0.metrics =
      serve_hook-Agrees h r run st (rw e v.consistent) in
    (
      m',
      e',
      record {
        came = cc (c.came, v.came, add-word n);
        completed = cc (c.completed, v.completed, add-word n);
        idle = cc (c.gauge, v.idle);
        hook_calls = elim (Bool-cases (bytes_eq r.method (codes "POST"))) [
          | inl p ↦ rw p (c.posts p ∙ ap (λ n. add n 1) v.hook_calls ∙ add-word k)
          | inr p ↦ rw p (c.others p ∙ v.hook_calls)
        ];
        consistent = rw e' at a;
      },
    )

serve-IsTallied :
    (s : Setup) (r : ServerRequest) (x : Serving) (sv : Server) (n k : ℕ)
    → IsTallied n k sv.state.metrics
    → IsTallied
        (if to_hook r then suc n else n)
        (if is_call r then suc k else k)
        (serve s r x sv).0.state.metrics
unfolding serve with_store with_state to_hook is_call
serve-IsTallied s r x sv n k v = elim (Bool-cases (bytes_eq r.path (codes "/config"))) [
  | inl a ↦ rw a v
  | inr a ↦ elim (Bool-cases (bytes_eq r.path (codes "/metrics"))) [
    | inl b ↦ rw (a, b) v
    | inr b ↦
        rw (a, b) (serve_hook-IsTallied (hook_handler s x sv.store) r.message x.run sv.state n k v)
  ]
]

next_count :
    (p : ServerRequest → Bool) (r : ServerRequest) (x : Serving) (es : List ServerEvent) (n : ℕ)
    → number_of p es + (if p r then suc n else n) ≡ number_of p (gets r x ∷ es) + n
unfolding number_of
next_count p r x es n = ground arith

-- The same counts, otherwise summed.
resum : (n k n' k' : ℕ) (c : Option Metrics) → n ≡ n' → k ≡ k' → IsTallied n k c → IsTallied n' k' c
resum n k n' k' c p q v = rw⁻¹ p (rw⁻¹ q v)

serve_all-IsTallied :
    (s : Setup) (es : List ServerEvent) (sv : Server) (n k : ℕ)
    → IsTallied n k sv.state.metrics
    → IsTallied
        (number_of to_hook es + n)
        (number_of is_call es + k)
        (serve_all s es sv).state.metrics
unfolding serve_all serve_event number_of
serve_all-IsTallied s [] sv n k v = resum n k _ _ _ (omega arith) (omega arith) v
serve_all-IsTallied s (gets r x ∷ es) sv n k v =
    let w = serve_all-IsTallied s es (serve s r x sv).0 _ _ (serve-IsTallied s r x sv n k v) in
    resum _ _ _ _ _ (next_count to_hook r x es n) (next_count is_call r x es k) w
serve_all-IsTallied s (pool_is p ver ∷ es) sv n k v =
    serve_all-IsTallied s es (record sv { pool = p; headroom_version = ver }) n k v

new_metrics-IsTally : IsTallied 0 0 (some new_metrics)
unfolding new_metrics
new_metrics-IsTally = (
  new_metrics,
  refl,
  record {
    came = refl;
    completed = refl;
    idle = refl;
    hook_calls = refl;
    consistent = new_metrics-Agrees;
  },
)

-- Of a server that starts with new counters, after any events: the counters of inbound and of
-- completed requests are the number of requests to the hook's path, none is in flight, and the
-- counter of hook calls is the number of those that were POSTs (modulo 2 ^ 64). The counts by outcome,
-- by provider and by model each add up to it, and so do the overhead samples.
pub serve_new-IsTallied :
    (s : Setup) (es : List ServerEvent) (sv : Server)
    → sv.state.metrics ≡ some new_metrics
    → IsTallied (number_of to_hook es) (number_of is_call es) (serve_all s es sv).state.metrics
serve_new-IsTallied s es sv e =
    let v = serve_all-IsTallied s es sv 0 0 (rw e new_metrics-IsTally) in
    resum _ _ _ _ _ (omega arith) (omega arith) v
