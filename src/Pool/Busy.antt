-- ===== src/Pool/Busy.antt =====
-- The gauge of busy slots over whole runs of the pool.
use tsheadroom.Prelude.{
  ℕ, zero, suc, ◌<◌, ◌≤◌, Bool, List, Option, some, ◌≡◌, refl, ap, sym, ◌∙◌, arith, length,
}
use tsheadroom.Go.Int64.{word}
use tsheadroom.Pool.{Slot, Pool, new_pool, fresh_slots, canceled, Effect, shift, at_slot}
use tsheadroom.Pool.Events.{Event, job, run_from}
use tsheadroom.Pool.Weights.{sum}
use tsheadroom.Pool.Saturation.{
  Gauged, phase_calls, in_call, take_job-Gauged, slot_step-Gauged, drain-Gauged, sum-enqueue,
  sum-Matches, sum-le, shift-Matches,
}
use tsheadroom.Pool.Moves.{
  Moves, client_moves, is_queued, is_handed, slot_moved, is_drained, main_moves,
}
use tsheadroom.Pool.Steps.{run_from-keeps}

-- The gauge is the number of slots in a worker call, of the slots that the pool was made with.
pub record IsGauged (size : ℕ) (p : Pool) : Type 0 where
  pub gauge : p.busy ≡ sum in_call p.slots
  pub total : length p.slots ≡ size

module _ (size : ℕ) (small : size < word) where
  -- A step at a slot, with its gauge.
  shifted :
      (i : ℕ) (f : Slot → Option Effect) (p : Pool) (ss : List Slot) (e : Effect)
      → Gauged f
      → at_slot i f p.slots ≡ some (ss, e)
      → IsGauged size p
      → (shift e.gauge p.busy ≡ sum in_call ss) × (length ss ≡ size)
  shifted i f p ss e g h v =
      let (m, l) = sum-Matches i f p.slots ss e g h in
      let t = v.total in
      (ap (shift e.gauge) v.gauge ∙ shift-Matches e.gauge p.slots ss m l (omega arith), l ∙ t)

  Moves-IsGauged : (e : Event) (p p' : Pool) → Moves e p p' → IsGauged size p → IsGauged size p'
  Moves-IsGauged e p p' (client_moves n c _ t q _) v =
      rw q (record { gauge = v.gauge; total = v.total })
  Moves-IsGauged e p p' (is_queued n i req ss x _ _ c h q) v =
      let (a, b) = sum-enqueue i (job n req) p.slots ss x h in
      rw q (record { gauge = v.gauge ∙ sym a; total = b ∙ v.total })
  Moves-IsGauged e p p' (is_handed n i req ss x _ _ _ c h q) v =
      let (a, b) = shifted i _ p ss x (take_job-Gauged (job n req)) h v in
      rw q (record { gauge = a; total = b })
  Moves-IsGauged e p p' (slot_moved i ev ss x _ h q) v =
      let (a, b) = shifted i _ p ss x (slot_step-Gauged (canceled p.main) i ev) h v in
      rw q (record { gauge = a; total = b })
  Moves-IsGauged e p p' (is_drained i ss x _ _ h q) v =
      let (a, b) = shifted i _ p ss x drain-Gauged h v in rw q (record { gauge = a; total = b })
  Moves-IsGauged e p p' (main_moves m _ _ q) v = rw q (record { gauge = v.gauge; total = v.total })

fresh_idle : (n : ℕ) → (sum in_call (fresh_slots n) ≡ 0) × (length (fresh_slots n) ≡ n)
unfolding fresh_slots sum in_call phase_calls
fresh_idle zero = (refl, refl)
fresh_idle (suc n) = let (a, b) = fresh_idle n in (omega arith, ap suc b)

-- In every run of a pool of fewer than 2 ^ 64 slots the gauge of busy slots is the number of slots
-- that are in a worker call, and so at most the number of slots that the pool was made with.
pub run_from-IsGauged :
    (enabled : Bool) (size : ℕ) (es : List Event) (p : Pool)
    → size < word
    → run_from es (some (new_pool enabled size)) ≡ some p
    → IsGauged size p × (p.busy ≤ size)
unfolding new_pool
run_from-IsGauged enabled size es p small h =
    let (a, b) = fresh_idle size in
    let v =
      run_from-keeps (IsGauged size) (Moves-IsGauged size small) es (new_pool enabled size) p h
        (record { gauge = sym a; total = b }) in
    let g = v.gauge in let t = v.total in let l = sum-le p.slots in (v, omega arith)
