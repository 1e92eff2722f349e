-- ===== src/Pool/Work.antt =====
-- How much a slot can still do before it has to be given another job.
use tsheadroom.Prelude.{
  ℕ, zero, suc, ◌+◌, ◌*◌, ◌≤◌, length, Bool, List, [], ◌∷◌, Option, none, some, ◌≡◌, refl, arith,
}
use tsheadroom.Pool.{
  Job, Phase, starting, exited, waiting, spawning_for, calling, recycling, Slot, Effect, quiet,
  reply, call, spawned, take_job, take_queued, returned, leave, SlotEvent, slot_step, enqueue,
  drain, Pool, new_pool, fresh_slots, canceled,
}
use tsheadroom.Pool.Events.{Event, slot_moves, job, run_from}
use tsheadroom.Pool.Weights.{sum, at_slot-IsStepped}
use tsheadroom.Pool.Moves.{
  slot_steps, offers, Moves, client_moves, is_queued, is_handed, slot_moved, is_drained, main_moves,
}
use tsheadroom.Pool.Steps.{run_from-nil, run_from-cons}

-- A call, its recycling and the way out.
unfoldable pub phase_work : Phase → ℕ
phase_work exited = 0
phase_work (waiting w) = 1
phase_work starting = 2
phase_work (recycling j) = 2
phase_work (calling j) = 3
phase_work (spawning_for j) = 4

unfoldable pub queue_work : Option Job → ℕ
queue_work none = 0
queue_work (some j) = 4

unfoldable pub work : Slot → ℕ
unfolding phase_work queue_work
work s = queue_work s.queue + phase_work s.phase

-- A step at a slot does away with some of its work.
pub slot_step-work :
    (done : Bool) (i : ℕ) (ev : SlotEvent) (s : Slot) (e : Effect)
    → slot_step done i ev s ≡ some e
    → work e.slot + 1 ≤ work s
unfolding slot_step spawned take_job take_queued returned leave quiet reply call work
slot_step-work done i ev s e h = ground arith

pub take_job-work :
    (j : Job) (s : Slot) (e : Effect) → take_job j s s.phase ≡ some e → work e.slot ≤ work s + 3
unfolding take_job quiet call work
take_job-work j s e h = ground arith

pub enqueue-work :
    (j : Job) (s : Slot) (e : Effect) → enqueue j s s.queue ≡ some e → work e.slot ≤ work s + 4
unfolding enqueue quiet work
enqueue-work j s e h = ground arith

pub drain-work : (s : Slot) (e : Effect) → drain s s.queue ≡ some e → work e.slot ≤ work s
unfolding drain reply work
drain-work s e h = ground arith

fresh_work : (n : ℕ) → sum work (fresh_slots n) ≡ 2 * n
unfolding sum work fresh_slots
fresh_work zero = refl
fresh_work (suc n) = omega (arith, fresh_work n)

-- An event that is a step of a slot takes some of the work away, and no other brings more than the
-- job that it hands over.
pub Moves-work :
    (e : Event) (p p' : Pool)
    → Moves e p p'
    → slot_steps e + sum work p'.slots ≤ sum work p.slots + 4 * offers e
Moves-work e p p' (client_moves n c a t q _) = rw q (omega arith)
Moves-work e p p' (is_queued n i req ss x a o c h q) =
    let st = at_slot-IsStepped (λ s. enqueue (job n req) s s.queue) i p.slots ss x h in
    rw q (omega (arith, st.sums work, enqueue-work (job n req) st.old x st.made))
Moves-work e p p' (is_handed n i req ss x spills a o c h q) =
    let st = at_slot-IsStepped (λ s. take_job (job n req) s s.phase) i p.slots ss x h in
    rw q (omega (arith, st.sums work, take_job-work (job n req) st.old x st.made))
Moves-work e p p' (slot_moved i ev ss x a h q) =
    let st = at_slot-IsStepped (slot_step (canceled p.main) i ev) i p.slots ss x h in
    rw q (omega (arith, st.sums work, slot_step-work (canceled p.main) i ev st.old x st.made))
Moves-work e p p' (is_drained i ss x a d h q) =
    let st = at_slot-IsStepped (λ s. drain s s.queue) i p.slots ss x h in
    rw q (omega (arith, st.sums work, drain-work st.old x st.made))
Moves-work e p p' (main_moves m a n q) = rw q (omega arith)

pub tally : (Event → ℕ) → List Event → ℕ
tally f [] = 0
tally f (e ∷ es) = f e + tally f es

run_from-work_from :
    (es : List Event) (p p' : Pool)
    → run_from es (some p) ≡ some p'
    → tally slot_steps es + sum work p'.slots ≤ sum work p.slots + 4 * tally offers es
unfolding tally
run_from-work_from [] p p' h = rw (run_from-nil p p' h) (omega arith)
run_from-work_from (e ∷ es) p p' h =
    let (q, m, r) = run_from-cons e es p p' h in
    omega (arith, Moves-work e p q m, run_from-work_from es q p' r)

-- In every run the slots make at most two steps each to come up and to return, and four for each
-- attempt to hand over a job: no slot goes round without one.
pub run_from-work :
    (enabled : Bool) (size : ℕ) (es : List Event) (p : Pool)
    → run_from es (some (new_pool enabled size)) ≡ some p
    → tally slot_steps es + sum work p.slots ≤ 2 * size + 4 * tally offers es
unfolding new_pool
run_from-work enabled size es p h =
    omega (arith, run_from-work_from es (new_pool enabled size) p h, fresh_work size)

-- A run of steps of slots only.
unfoldable pub slot_run : List (ℕ × SlotEvent) → List Event
slot_run [] = []
slot_run ((i, ev) ∷ ms) = slot_moves i ev ∷ slot_run ms

slot_run-tally :
    (ms : List (ℕ × SlotEvent))
    → (tally slot_steps (slot_run ms) ≡ length ms) × (tally offers (slot_run ms) ≡ 0)
unfolding tally slot_run slot_steps offers
slot_run-tally [] = (refl, refl)
slot_run-tally ((i, ev) ∷ ms) = let (a, b) = slot_run-tally ms in (omega arith, omega arith)

-- Such a run is no longer than the work that there was.
pub slot_run-le :
    (ms : List (ℕ × SlotEvent)) (p p' : Pool)
    → run_from (slot_run ms) (some p) ≡ some p'
    → length ms ≤ sum work p.slots
slot_run-le ms p p' h =
    let (a, b) = slot_run-tally ms in omega (arith, run_from-work_from (slot_run ms) p p' h)
