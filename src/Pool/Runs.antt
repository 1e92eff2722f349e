-- ===== src/Pool/Runs.antt =====
-- The account of jobs over whole runs of the pool.
use tsheadroom.Prelude.{ℕ, zero, suc, Bool, List, some, ◌≡◌, refl, arith}
use tsheadroom.Pool.{Pool, new_pool, fresh_slots}
use tsheadroom.Pool.Events.{Event, job, run_from}
use tsheadroom.Pool.Weights.{sum}
use tsheadroom.Pool.Conservation.{
  in_replies, in_slot, in_queue, in_phase, take_job-Balances, enqueue-Balances, slot_step-Balances,
  drain-Balances,
}
use tsheadroom.Pool.Moves.{
  taken, Moves, client_moves, is_queued, is_handed, slot_moved, is_drained, main_moves,
}
use tsheadroom.Pool.Steps.{run_from-keeps}
use tsheadroom.Pool.Delivery.{
  IsConserved, client-IsConserved, given-IsConserved, sent-IsConserved, enqueue-Silent,
  take_job-Silent,
}

pub Moves-IsConserved : (e : Event) (p p' : Pool) → Moves e p p' → IsConserved p → IsConserved p'
Moves-IsConserved e p p' (client_moves n c _ t q _) v = rw q (client-IsConserved n c p v t)
Moves-IsConserved e p p' (is_queued n i req ss x _ _ c h q) v = rw q (
    given-IsConserved n i _ p ss x v (rw c (unfold taken in refl))
      (λ k. enqueue-Balances k (job n req)) (enqueue-Silent (job n req)) h)
Moves-IsConserved e p p' (is_handed n i req ss x _ _ _ c h q) v = rw q (
    given-IsConserved n i _ p ss x v (rw c (unfold taken in refl))
      (λ k. take_job-Balances k (job n req)) (take_job-Silent (job n req)) h)
Moves-IsConserved e p p' (slot_moved i ev ss x _ h q) v =
    rw q (sent-IsConserved i _ p ss x v (λ k. slot_step-Balances k _ i ev) h)
Moves-IsConserved e p p' (is_drained i ss x _ _ h q) v =
    rw q (sent-IsConserved i _ p ss x v drain-Balances h)
Moves-IsConserved e p p' (main_moves m _ _ q) v = rw q v

fresh_empty : (k n : ℕ) → sum (in_slot k) (fresh_slots n) ≡ 0
unfolding fresh_slots sum in_slot in_queue in_phase
fresh_empty k zero = refl
fresh_empty k (suc n) = omega (arith, fresh_empty k n)

pub new_pool-IsConserved : (enabled : Bool) (size : ℕ) → IsConserved (new_pool enabled size)
unfolding new_pool in_replies taken
new_pool-IsConserved enabled size k = omega (arith, fresh_empty k size)

-- In every run of a pool, whatever the order of its events: a call of `Compress` that handed its job
-- over has it in exactly one place, a queue, a slot or an answer (so no job is answered twice, and
-- one that no slot holds or queues was answered), even when it does not wait any more; a call that
-- did not has none.
pub run_from-IsConserved :
    (enabled : Bool) (size : ℕ) (es : List Event) (p : Pool)
    → run_from es (some (new_pool enabled size)) ≡ some p
    → IsConserved p
run_from-IsConserved enabled size es p h =
    run_from-keeps IsConserved Moves-IsConserved es (new_pool enabled size) p h
      (new_pool-IsConserved enabled size)
