-- ===== src/Pool/Answers.antt =====
-- The answers to the jobs that a pool took, while it serves.
use tsheadroom.Prelude.{
  ℕ, zero, suc, ◌+◌, ◌<◌, ◌≤◌, Bool, true, false, not, ◌&&◌, List, [], ◌∷◌, Option, none, some, ◌≡◌,
  ◌⊎◌, refl, ◌∙◌, inl, inr, length, ltb, All, arith, Bool-cases,
}
use tsheadroom.Pool.{
  Job, JobResult, Phase, starting, exited, waiting, spawning_for, calling, recycling, Slot,
  accepted, Main, serving, stopping, stopped, draining, Pool, new_pool, fresh_slots, canceled,
  Effect, down, worker_failed, quiet, call, reply, spawned, take_job, take_queued, returned, leave,
  SlotEvent, spawn_returns, do_returns, takes_queued, slot_step, enqueue, at_slot,
}
use tsheadroom.Pool.Events.{Event, slot_moves, job, answered, is_exited, run_from}
use tsheadroom.Pool.Weights.{sum, at_slot-IsStepped}
use tsheadroom.Pool.Conservation.{one, in_replies, in_slot, in_queue, in_phase}
use tsheadroom.Pool.Delivery.{IsConserved}
use tsheadroom.Pool.Runs.{Moves-IsConserved, new_pool-IsConserved}
use tsheadroom.Pool.Moves.{
  taken, slot_steps, NextMain, cancels, waited, next_channel, Moves, client_moves, is_queued,
  is_handed, slot_moved, is_drained, main_moves,
}
use tsheadroom.Pool.Steps.{run_from-keeps, run_from-nil, run_from-cons}
use tsheadroom.Pool.Work.{work, slot_run, slot_run-le}
use tsheadroom.Pool.Progress.{any, CanStep, any-CanStep}

-- While the pool serves, no slot has returned.
abbrev IsStaffed : List Slot → Main → Type 0
IsStaffed ss serving = All (λ s. is_exited s.phase ≡ false) ss
IsStaffed ss _ = Unit

-- A step after which the goroutine is there, if it was before.
abbrev Stays : (Slot → Option Effect) → Type 0
Stays f =
    (s : Slot) (e : Effect)
    → f s ≡ some e
    → is_exited s.phase ≡ false
    → is_exited e.slot.phase ≡ false

slot_step-Stays : (i : ℕ) (ev : SlotEvent) → Stays (slot_step false i ev)
unfolding slot_step spawned take_job take_queued returned leave quiet reply call is_exited
slot_step-Stays i ev s e h q = ground arith

take_job-Stays : (j : Job) → Stays (λ s. take_job j s s.phase)
unfolding take_job quiet call is_exited
take_job-Stays j s e h q = ground arith

enqueue-Stays : (j : Job) → Stays (λ s. enqueue j s s.queue)
unfolding enqueue quiet
enqueue-Stays j s e h q = ground arith

at_slot-IsStaffed :
    (i : ℕ) (f : Main → Slot → Option Effect) (ss ss' : List Slot) (e : Effect) (m : Main)
    → Stays (f serving)
    → at_slot i (f m) ss ≡ some (ss', e)
    → IsStaffed ss m
    → IsStaffed ss' m
at_slot-IsStaffed i f ss ss' e serving stay h v =
    let st = at_slot-IsStepped (f serving) i ss ss' e h in
    let (old, all) = st.kept _ v in all (stay st.old e st.made old)
at_slot-IsStaffed i f ss ss' e stopping stay h v = tt
at_slot-IsStaffed i f ss ss' e stopped stay h v = tt
at_slot-IsStaffed i f ss ss' e (draining k) stay h v = tt

NextMain-IsStaffed : (p : Pool) (m : Main) → NextMain p m → IsStaffed p.slots m
NextMain-IsStaffed p m (cancels a b) = rw b tt
NextMain-IsStaffed p m (waited a x (inl b)) = rw b tt
NextMain-IsStaffed p m (waited a x (inr b)) = rw b tt
NextMain-IsStaffed p m (next_channel i a (inl b)) = rw b tt
NextMain-IsStaffed p m (next_channel i a (inr b)) = rw b tt

Moves-IsStaffed :
    (e : Event) (p p' : Pool) → Moves e p p' → IsStaffed p.slots p.main → IsStaffed p'.slots p'.main
unfolding canceled
Moves-IsStaffed e p p' (client_moves n c _ t q _) v = rw q v
Moves-IsStaffed e p p' (is_queued n i req ss x _ _ c h q) v = rw q (
    at_slot-IsStaffed i (λ m s. enqueue (job n req) s s.queue) p.slots ss x p.main
      (enqueue-Stays (job n req)) h v)
Moves-IsStaffed e p p' (is_handed n i req ss x _ _ _ c h q) v = rw q (
    at_slot-IsStaffed i (λ m s. take_job (job n req) s s.phase) p.slots ss x p.main
      (take_job-Stays (job n req)) h v)
Moves-IsStaffed e p p' (slot_moved i ev ss x _ h q) v = rw q (
    at_slot-IsStaffed i (λ m. slot_step (canceled m) i ev) p.slots ss x p.main
      (slot_step-Stays i ev) h v)
Moves-IsStaffed e p p' (is_drained i ss x _ d h q) v = rw (q, d) tt
Moves-IsStaffed e p p' (main_moves m _ n q) v = rw q (NextMain-IsStaffed p m n)

fresh-IsStaffed : (n : ℕ) → All (λ s. is_exited s.phase ≡ false) (fresh_slots n)
unfolding fresh_slots is_exited
fresh-IsStaffed zero = tt
fresh-IsStaffed (suc n) = (refl, fresh-IsStaffed n)

-- A slot that has a job of number `k` and a goroutine.
module _ (k : ℕ) where
  has_job : Slot → Bool
  has_job s = ltb 0 (in_slot k s) && not (is_exited s.phase)

  holds_steps :
      (i : ℕ) (s : Slot) (q : Option Job) (ph : Phase)
      → s.queue ≡ q
      → s.phase ≡ ph
      → 0 < in_queue k q + in_phase k ph
      → is_exited ph ≡ false
      → (ev : SlotEvent) × (e : Effect) × (slot_step false i ev s ≡ some e)
  unfolding slot_step spawned returned take_queued take_job is_exited in_queue in_phase
  holds_steps i s q starting a b h x =
      (spawn_returns true, quiet (record s { phase = waiting true }), rw (b, spawned) refl)
  holds_steps i s q exited a b h x = cc x
  holds_steps i s none (waiting w) a b h x = absurd (omega arith)
  holds_steps i s (some j) (waiting true) a b h x = (
    takes_queued,
    call j (record s { queue = none; phase = calling j }),
    rw (a, b, take_queued, take_job) (unfold call in refl),
  )
  holds_steps i s (some j) (waiting false) a b h x = (
    takes_queued,
    quiet (record s { queue = none; phase = spawning_for j }),
    rw (a, b, take_queued, take_job) refl,
  )
  holds_steps i s q (spawning_for j) a b h x = (
    spawn_returns true,
    call j (record s { phase = calling j }),
    rw (b, spawned) (unfold call in refl),
  )
  holds_steps i s q (calling j) a b h x = (
    do_returns none,
    record { slot = record s { phase = recycling j }; sent = []; gauge = down },
    rw (b, returned) refl,
  )
  holds_steps i s q (recycling j) a b h x = (
    spawn_returns true,
    reply j worker_failed (record s { phase = waiting true }),
    rw (b, spawned) refl,
  )

  has_job_steps :
      (i : ℕ) (s : Slot)
      → has_job s ≡ true
      → (ev : SlotEvent) × (e : Effect) × (slot_step false i ev s ≡ some e)
  unfolding has_job in_slot
  has_job_steps i s h = holds_steps i s s.queue s.phase refl refl (ground arith) (ground arith)

  holding :
      (ss : List Slot)
      → All (λ s. is_exited s.phase ≡ false) ss
      → 0 < sum (in_slot k) ss
      → any has_job ss ≡ true
  unfolding sum any has_job
  holding [] v h = absurd (omega arith)
  holding (s ∷ ss) (a, v) h = ground (arith, holding ss v)

  unanswered : (rs : List (ℕ × JobResult)) → answered k rs ≡ false → in_replies k rs ≡ 0
  unfolding answered in_replies one
  unanswered [] h = refl
  unanswered ((n, r) ∷ rs) h = ground (arith, unanswered rs)

slot_move-apart :
    (i : ℕ) (ev : SlotEvent) (p p' : Pool)
    → Moves (slot_moves i ev) p p'
    → (p'.main ≡ p.main) × (p'.clients ≡ p.clients)
unfolding slot_steps
slot_move-apart i ev p p' (slot_moved j x ss y a h q) = rw q (refl, refl)
slot_move-apart i ev p p' (client_moves n c a t q _) = cc a
slot_move-apart i ev p p' (is_queued n j req ss x a o c h q) = cc a
slot_move-apart i ev p p' (is_handed n j req ss x g a o c h q) = cc a
slot_move-apart i ev p p' (is_drained j ss x a d h q) = cc a
slot_move-apart i ev p p' (main_moves m a n q) = cc a

-- Steps of slots leave the callers and `Shutdown` where they are.
slot_run-apart :
    (ms : List (ℕ × SlotEvent)) (p p' : Pool)
    → run_from (slot_run ms) (some p) ≡ some p'
    → (p'.main ≡ p.main) × (p'.clients ≡ p.clients)
unfolding slot_run
slot_run-apart [] p p' h = rw (run_from-nil p p' h) (refl, refl)
slot_run-apart ((i, ev) ∷ ms) p p' h =
    let (q, m, r) = run_from-cons (slot_moves i ev) (slot_run ms) p p' h in
    let (a, b) = slot_run-apart ms q p' r in
    let (c, d) = slot_move-apart i ev p q m in (a ∙ c, b ∙ d)

holder-CanStep :
    (k : ℕ) (p : Pool)
    → p.main ≡ serving
    → p.clients k ≡ accepted
    → IsStaffed p.slots p.main
    → IsConserved p
    → answered k p.replies ≡ false
    → CanStep p
unfolding taken canceled
holder-CanStep k p m c s v n =
    any-CanStep (has_job k) p (λ i s h. rw m (has_job_steps k i s h))
      (holding k p.slots (rw m at s)
        (let b = rw c at (v k) in omega (arith, b, unanswered k p.replies n)))

from_new :
    (enabled : Bool) (size : ℕ) (P : Pool → Type 0)
    → ((e : Event) (p p' : Pool) → Moves e p p' → P p → P p')
    → (es : List Event) (p p' : Pool) (ms : List (ℕ × SlotEvent))
    → run_from es (some (new_pool enabled size)) ≡ some p
    → run_from (slot_run ms) (some p) ≡ some p'
    → P (new_pool enabled size)
    → P p'
from_new enabled size P f es p p' ms h r v =
    run_from-keeps P f (slot_run ms) p p' r (run_from-keeps P f es (new_pool enabled size) p h v)

-- A job that the pool took while it serves is not forgotten: from any state of a run on, the slots make
-- at most as many steps as the work that is left, and as long as the job has no answer one of them can
-- make a step. So it is answered, in whatever order the slots go on, if spawns and worker calls come
-- to an end (a spawn retries for as long as no start succeeds, and its end is one step here).
pub accepted-answered :
    (enabled : Bool) (size : ℕ) (es : List Event) (k : ℕ) (p p' : Pool) (ms : List (ℕ × SlotEvent))
    → run_from es (some (new_pool enabled size)) ≡ some p
    → p.main ≡ serving
    → p.clients k ≡ accepted
    → run_from (slot_run ms) (some p) ≡ some p'
    → (length ms ≤ sum work p.slots) × ((answered k p'.replies ≡ true) ⊎ CanStep p')
unfolding new_pool
accepted-answered enabled size es k p p' ms h m c r =
    let (a, b) = slot_run-apart ms p p' r in
    (
      slot_run-le ms p p' r,
      elim (Bool-cases (answered k p'.replies)) [
        | inl q ↦ inl q
        | inr q ↦ inr (
            holder-CanStep k p' (a ∙ m) (rw b c)
              (from_new enabled size (λ p. IsStaffed p.slots p.main) Moves-IsStaffed es p p' ms h r
                (fresh-IsStaffed size))
              (from_new enabled size IsConserved Moves-IsConserved es p p' ms h r
                (new_pool-IsConserved enabled size))
              q)
      ],
    )
