-- ===== src/Pool/Requests.antt =====
-- The requests with which a pool calls its workers, against those of the calls of `Compress`.
use tsheadroom.Prelude.{
  ℕ, zero, suc, ◌==◌, ==_iff, ◌&&◌, ◌++◌, Bool, true, List, [], ◌∷◌, Option, none, some, ◌≡◌, refl,
  inl, inr, arith, Bool-cases, Option-cases, All,
}
use tsheadroom.Config.{update}
use tsheadroom.Protocol.{CompressRequest, CompressResult}
use tsheadroom.Pool.{
  starting, exited, waiting, spawn_returns, takes_queued, leaves, Job, Phase, spawning_for, calling,
  recycling, Slot, Client, accepted, Pool, new_pool, fresh_slots, canceled, Effect, quiet, call,
  reply, spawned, take_job, take_queued, returned, leave, SlotEvent, do_returns, slot_step, enqueue,
  drain, at_slot,
}
use tsheadroom.Pool.Events.{
  Event, begins, tries_affinity, gives_up, sees_shutdown, collects, handed_to, shutdown_moves,
  slot_moves, job, step, run_from,
}
use tsheadroom.Pool.Weights.{at_slot-IsStepped}
use tsheadroom.Pool.Moves.{
  asks, Moves, client_moves, is_queued, is_handed, slot_moved, is_drained, main_moves,
}
use tsheadroom.Pool.Steps.{step-Moves}
use tsheadroom.Pool.Provenance.{
  slot_at, called, called_at, logged_step, logged, call_log, results, numbered, run_from-results,
}

-- A test of the requests by the number of the call of `Compress`.
module _ (ok : ℕ → CompressRequest → Bool) where
  unfoldable pub queue_ok : Option Job → Bool
  queue_ok none = true
  queue_ok (some j) = ok j.id j.req

  unfoldable pub phase_ok : Phase → Bool
  phase_ok (spawning_for j) = ok j.id j.req
  phase_ok (calling j) = ok j.id j.req
  phase_ok (recycling j) = ok j.id j.req
  phase_ok _ = true

  unfoldable pub slot_ok : Slot → Bool
  slot_ok s = queue_ok s.queue && phase_ok s.phase

  -- Of the calls that begin.
  abbrev pub BeginsOk : Event → Type 0
  BeginsOk (begins k req) = ok k req ≡ true
  BeginsOk _ = Unit

  abbrev pub LogOk : List (Job × CompressResult) → Type 0
  LogOk [] = Unit
  LogOk ((j, r) ∷ rest) = (ok j.id j.req ≡ true) × LogOk rest

  record HasOk (p : Pool) : Type 0 where
    slots_ok : All (λ s. slot_ok s ≡ true) p.slots
    clients_ok : (k : ℕ) (req : CompressRequest) → asks (p.clients k) ≡ some req → ok k req ≡ true

  slot_step-ok :
      (done : Bool) (i : ℕ) (ev : SlotEvent) (s : Slot) (e : Effect)
      → slot_step done i ev s ≡ some e
      → slot_ok s ≡ true
      → slot_ok e.slot ≡ true
  unfolding slot_step spawned take_job take_queued returned leave quiet reply call slot_ok queue_ok
      phase_ok
  slot_step-ok done i ev s e h v = ground arith

  take_job-ok :
      (j : Job) (s : Slot) (e : Effect)
      → take_job j s s.phase ≡ some e
      → ok j.id j.req ≡ true
      → slot_ok s ≡ true
      → slot_ok e.slot ≡ true
  unfolding take_job quiet call slot_ok queue_ok phase_ok
  take_job-ok j s e h a v = ground arith

  enqueue-ok :
      (j : Job) (s : Slot) (e : Effect)
      → enqueue j s s.queue ≡ some e
      → ok j.id j.req ≡ true
      → slot_ok s ≡ true
      → slot_ok e.slot ≡ true
  unfolding enqueue quiet slot_ok queue_ok
  enqueue-ok j s e h a v = ground arith

  drain-ok :
      (s : Slot) (e : Effect) → drain s s.queue ≡ some e → slot_ok s ≡ true → slot_ok e.slot ≡ true
  unfolding drain reply slot_ok queue_ok
  drain-ok s e h v = ground arith

  at_slot-ok :
      (i : ℕ) (f : Slot → Option Effect) (ss ss' : List Slot) (x : Effect)
      → ((s : Slot) → f s ≡ some x → slot_ok s ≡ true → slot_ok x.slot ≡ true)
      → at_slot i f ss ≡ some (ss', x)
      → All (λ s. slot_ok s ≡ true) ss
      → All (λ s. slot_ok s ≡ true) ss'
  at_slot-ok i f ss ss' x keep h v =
      let st = at_slot-IsStepped f i ss ss' x h in
      let (old, all) = st.kept _ v in all (keep st.old st.made old)

  update-ok :
      (f : ℕ → Client) (n : ℕ) (c : Client)
      → ((k : ℕ) (req : CompressRequest) → asks (f k) ≡ some req → ok k req ≡ true)
      → ((req : CompressRequest) → asks c ≡ some req → ok n req ≡ true)
      → (k : ℕ) (req : CompressRequest) → asks (update f n c k) ≡ some req
      → ok k req ≡ true
  update-ok f n c old new k req h = elim (Bool-cases (n == k)) [
    | inl q ↦ let e : n ≡ k = (==_iff n k).0 q in rw⁻¹ e (new req (rw q at h))
    | inr q ↦ old k req (rw q at h)
  ]

  taken-ok :
      (f : ℕ → Client) (n : ℕ)
      → ((k : ℕ) (req : CompressRequest) → asks (f k) ≡ some req → ok k req ≡ true)
      → (k : ℕ) (req : CompressRequest) → asks (update f n accepted k) ≡ some req
      → ok k req ≡ true
  unfolding asks
  taken-ok f n old = update-ok f n accepted old (λ req h. cc h)

  Moves-HasOk : (e : Event) (p p' : Pool) → BeginsOk e → Moves e p p' → HasOk p → HasOk p'
  Moves-HasOk e p p' b (client_moves n c _ t q origin) v = rw q (record {
    slots_ok = v.slots_ok;
    clients_ok =
        update-ok p.clients n c v.clients_ok
          (λ req h. elim (origin req h) [ inl x ↦ rw x at b | inr x ↦ v.clients_ok n req x ]);
  })
  Moves-HasOk e p p' b (is_queued n i req ss x _ _ c h q) v =
      let a = v.clients_ok n req (rw c (unfold asks in refl)) in
      rw q (record {
        slots_ok =
            at_slot-ok i _ p.slots ss x (λ s k w. enqueue-ok (job n req) s x k a w) h v.slots_ok;
        clients_ok = taken-ok p.clients n v.clients_ok;
      })
  Moves-HasOk e p p' b (is_handed n i req ss x _ _ _ c h q) v =
      let a = v.clients_ok n req (rw c (unfold asks in refl)) in
      rw q (record {
        slots_ok =
            at_slot-ok i _ p.slots ss x (λ s k w. take_job-ok (job n req) s x k a w) h v.slots_ok;
        clients_ok = taken-ok p.clients n v.clients_ok;
      })
  Moves-HasOk e p p' b (slot_moved i ev ss x _ h q) v = rw q (record {
    slots_ok =
        at_slot-ok i _ p.slots ss x (λ s. slot_step-ok (canceled p.main) i ev s x) h v.slots_ok;
    clients_ok = v.clients_ok;
  })
  Moves-HasOk e p p' b (is_drained i ss x _ _ h q) v = rw q (record {
    slots_ok = at_slot-ok i _ p.slots ss x (λ s. drain-ok s x) h v.slots_ok;
    clients_ok = v.clients_ok;
  })
  Moves-HasOk e p p' b (main_moves m _ _ q) v =
      rw q (record { slots_ok = v.slots_ok; clients_ok = v.clients_ok })

  called-LogOk :
      (j : ℕ) (r : CompressResult) (s : Slot) (ph : Phase)
      → s.phase ≡ ph
      → slot_ok s ≡ true
      → LogOk (called j r ph)
  unfolding called slot_ok phase_ok
  called-LogOk j r s (calling k) q v = (ground (arith, q, v), tt)
  called-LogOk j r s (starting) q v = tt
  called-LogOk j r s (exited) q v = tt
  called-LogOk j r s (waiting w) q v = tt
  called-LogOk j r s (spawning_for k) q v = tt
  called-LogOk j r s (recycling k) q v = tt

  called_at-LogOk :
      (i j : ℕ) (r : CompressResult) (ss : List Slot)
      → All (λ s. slot_ok s ≡ true) ss
      → LogOk (called_at j r (slot_at i ss))
  unfolding slot_at called_at
  called_at-LogOk i j r [] v = tt
  called_at-LogOk zero j r (s ∷ ss) (v, vs) = called-LogOk j r s s.phase refl v
  called_at-LogOk (suc i) j r (s ∷ ss) (v, vs) = called_at-LogOk i j r ss vs

  LogOk-append : (xs ys : List (Job × CompressResult)) → LogOk xs → LogOk ys → LogOk (xs ++ ys)
  LogOk-append [] ys v w = w
  LogOk-append ((j, r) ∷ xs) ys (v, vs) w = (v, LogOk-append xs ys vs w)

  logged-LogOk : (e : Event) (p : Pool) → HasOk p → LogOk (logged e p)
  unfolding logged logged_step
  logged-LogOk (slot_moves i (do_returns (some r))) p v = called_at-LogOk i i r p.slots v.slots_ok
  logged-LogOk (slot_moves i (do_returns none)) p v = tt
  logged-LogOk (slot_moves i (spawn_returns b)) p v = tt
  logged-LogOk (slot_moves i takes_queued) p v = tt
  logged-LogOk (slot_moves i leaves) p v = tt
  logged-LogOk (begins k req) p v = tt
  logged-LogOk (tries_affinity k) p v = tt
  logged-LogOk (handed_to k i) p v = tt
  logged-LogOk (gives_up k) p v = tt
  logged-LogOk (sees_shutdown k) p v = tt
  logged-LogOk (collects k) p v = tt
  logged-LogOk shutdown_moves p v = tt

  call_log-LogOk :
      (es : List Event) (p : Pool) (log : List (Job × CompressResult))
      → All BeginsOk es
      → HasOk p
      → LogOk log
      → LogOk (call_log es p log)
  unfolding call_log
  call_log-LogOk [] p log b v w = w
  call_log-LogOk (e ∷ es) p log (b, bs) v w = elim (Option-cases (step e p)) [
    | inl n ↦ rw (n, call_log) w
    | inr (q, n) ↦
        rw (n, call_log)
          (call_log-LogOk es q (logged e p ++ log) bs (Moves-HasOk e p q b (step-Moves p q e n) v)
            (LogOk-append (logged e p) log (logged-LogOk e p v) w))
  ]

  fresh-ok : (n : ℕ) → All (λ s. slot_ok s ≡ true) (fresh_slots n)
  unfolding fresh_slots slot_ok queue_ok phase_ok
  fresh-ok zero = tt
  fresh-ok (suc n) = (refl, fresh-ok n)

-- In every run of a pool, whatever the order of its events, the results that it sends are those that
-- the worker calls returned, in their order, each under the number of the job that the slot was
-- calling its worker with, and stamped with that slot. And those jobs carry the requests of the calls
-- of `Compress` that have their numbers: whatever test each call that began passes, the job passes. So
-- no caller gets an answer to another one's request, and no result is made up, changed or repeated.
pub run_from-call_log :
    (enabled : Bool) (size : ℕ) (es : List Event) (p : Pool) (ok : ℕ → CompressRequest → Bool)
    → run_from es (some (new_pool enabled size)) ≡ some p
    → All (BeginsOk ok) es
    → (results p.replies ≡ numbered (call_log es (new_pool enabled size) []))
      × LogOk ok (call_log es (new_pool enabled size) [])
unfolding new_pool results numbered asks
run_from-call_log enabled size es p ok h b = (
  run_from-results es (new_pool enabled size) p [] h refl,
  call_log-LogOk ok es (new_pool enabled size) [] b
      (record { slots_ok = fresh-ok ok size; clients_ok = λ k req h. cc h }) tt,
)
