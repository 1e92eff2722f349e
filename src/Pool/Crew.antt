-- ===== src/Pool/Crew.antt =====
-- pool.go: `runSlot` with the worker and the processes of the slot, step for step with `slot_step`.
use tsheadroom.Prelude.{ℕ, Bool, true, false, List, [], ◌∷◌, Option, none, some}
use tsheadroom.Go.Json.{Json}
use tsheadroom.Protocol.{CompressResult}
use tsheadroom.Pool.{
  Job, Slot, starting, Effect, take_job, spawn_returns, do_returns, takes_queued, leaves, slot_step,
  enqueue, drain,
}
use tsheadroom.Pool.Process.{
  Platform, Os, fresh_os, exits, kill, Ending, shutdown, Worker, Turn, spawn_process,
}

-- A slot with its `w` and the processes that it has started.
pub record Crew : Type 0 where
  pub slot : Slot
  pub worker : Option Worker
  pub os : Os

abbrev pub fresh_crew : Crew
fresh_crew = record {
  slot = record { queue = none; phase = starting };
  worker = none;
  os = fresh_os;
}

-- What happens at the slot: the loop of `spawn` ends; `do` returns; a job comes out of the affinity
-- channel, or the shared one; the deferred `shutdown` ends; the worker's process ends of itself; a job
-- goes into the channel, or is drained from it.
pub data CrewEvent : Type 0 where
  spawns : List Turn → CrewEvent
  calls : Option CompressResult → CrewEvent
  takes process_ends is_drained : CrewEvent
  is_given is_sent : Job → CrewEvent
  returns : Ending → CrewEvent

-- The slot's step, with what became of the worker; `none` if either does not happen.
unfoldable pub with_step : Option Effect → Option (Os × Option Worker) → Option Crew
with_step none r = none
with_step (some e) none = none
with_step (some e) (some (os, w)) = some (record { slot = e.slot; worker = w; os = os })

unfoldable pub has_worker : Option Worker → Bool
has_worker none = false
has_worker (some w) = true

unfoldable pub spawned_worker : Option (Os × Option Worker) → Bool
spawned_worker none = false
spawned_worker (some (os, w)) = has_worker w

unfoldable pub without_worker : Option Os → Option (Os × Option Worker)
without_worker none = none
without_worker (some os) = some (os, none)

-- A failed call kills the worker; it is nil until `spawn` returns.
unfoldable pub after_call : Option CompressResult → Option Worker → Os → Option (Os × Option Worker)
after_call (some res) w os = some (os, w)
after_call none none os = none
after_call none (some w) os = without_worker (kill w.pid os)

unfoldable pub after_return : Ending → Option Worker → Os → Option (Os × Option Worker)
after_return ending none os = some (os, none)
after_return ending (some w) os = without_worker (shutdown ending w.pid os)

unfoldable pub ended_process : Crew → Option Worker → Option Crew
ended_process c none = none
ended_process c (some w) = some (record c { os = exits w.pid c.os })

unfoldable pub crew_step : Json → Platform → Bool → ℕ → CrewEvent → Crew → Option Crew
crew_step j platform done i (spawns ts) c =
    let r = spawn_process j platform ts c.os in
    with_step (slot_step done i (spawn_returns (spawned_worker r)) c.slot) r
crew_step j platform done i (calls r) c =
    with_step (slot_step done i (do_returns r) c.slot) (after_call r c.worker c.os)
crew_step j platform done i takes c =
    with_step (slot_step done i takes_queued c.slot) (some (c.os, c.worker))
crew_step j platform done i (is_given k) c =
    with_step (take_job k c.slot c.slot.phase) (some (c.os, c.worker))
crew_step j platform done i (is_sent k) c =
    with_step (enqueue k c.slot c.slot.queue) (some (c.os, c.worker))
crew_step j platform done i is_drained c =
    with_step (drain c.slot c.slot.queue) (some (c.os, c.worker))
crew_step j platform done i (returns ending) c =
    with_step (slot_step done i leaves c.slot) (after_return ending c.worker c.os)
crew_step j platform done i process_ends c = ended_process c c.worker

-- A run of the slot, each event with whether the pool is canceled.
unfoldable pub run_crew : Json → Platform → ℕ → List (Bool × CrewEvent) → Option Crew → Option Crew
run_crew j platform i es none = none
run_crew j platform i [] (some c) = some c
run_crew j platform i ((done, e) ∷ es) (some c) =
    run_crew j platform i es (crew_step j platform done i e c)
