-- ===== src/Pool.antt =====
-- pool.go: the callers of `Compress`, the slot goroutines and `Shutdown`, as one system. An event is
-- what happens between two points at which a goroutine may be overtaken: a channel operation, a
-- spawn that returns, a call of a worker that returns. Any order of events that are possible is a run.
pub mod Routing
pub mod Events
pub mod Weights
pub mod Conservation
pub mod Delivery
pub mod Runs
pub mod Shutdown
pub mod Final
pub mod Aftermath
pub mod Busy
pub mod Worker
pub mod Exchange
pub mod Work
pub mod Progress
pub mod Answers
pub mod Provenance
pub mod Requests
pub mod Wire
pub mod Framing
pub mod Conversation
pub mod ConversationTests
pub mod Outcome
pub mod Tracing
pub mod Moves
pub mod Steps
mod Tests
mod ExchangeTests
pub mod Process
pub mod Session
pub mod InStep
pub mod Crew
pub mod Upkeep
pub mod Lifecycle
pub mod Hiring
pub mod Reaping
mod ProgressTests
mod LifecycleTests
pub mod SessionTests
pub mod Saturation
use tsheadroom.Prelude.{
  ℕ, zero, suc, Bytes, bytes_eq, Bool, true, false, not, ◌&&◌, ◌||◌, ◌==◌, List, [], ◌∷◌, ◌++◌,
  Option, none, some, length, if◌then◌else◌,
}
use tsheadroom.Go.Int64.{Int64, add, decrement}
use tsheadroom.Config.{update}
use tsheadroom.Protocol.{CompressRequest, CompressResult}
use tsheadroom.Pool.Routing.{slot_for}

-- The number of a job stands for its response channel.
pub record Job : Type 0 where
  pub id : ℕ
  pub req : CompressRequest

pub data JobResult : Type 0 where
  result : CompressResult → JobResult
  worker_failed unavailable shutting_down : JobResult

-- Where `runSlot` is: in the first spawn; at the select, with a worker or without; in a spawn for a
-- job that it took without a worker; in `w.do`; in the spawn after a failed call, whose answer is
-- not sent before that; returned.
pub data Phase : Type 0 where
  starting exited : Phase
  waiting : Bool → Phase
  spawning_for calling recycling : Job → Phase

-- A slot and its affinity channel, of depth 1.
pub record Slot : Type 0 where
  pub queue : Option Job
  pub phase : Phase

-- Where a call of `Compress` is: not begun; past the first test of `dispatch`; at its last select;
-- waiting for the answer; returned with it; returned before it; returned from `dispatch` with an error.
pub data Client : Type 0 where
  absent accepted collected abandoned refused : Client
  checked spilling : CompressRequest → Client

-- Where `Shutdown` is: not called; in `wg.Wait`; draining the channel of a slot; returned.
pub data Main : Type 0 where
  serving stopping stopped : Main
  draining : ℕ → Main

pub record Pool : Type 0 where
  pub affinity_enabled : Bool
  pub slots : List Slot
  pub busy : Int64
  pub hits : Int64
  pub spills : Int64
  pub clients : ℕ → Client
  pub replies : List (ℕ × JobResult)
  pub main : Main

unfoldable pub fresh_slots : ℕ → List Slot
fresh_slots zero = []
fresh_slots (suc n) = record { queue = none; phase = starting } ∷ fresh_slots n

-- `main` sets `affinityEnabled` before the first request.
unfoldable pub new_pool : Bool → ℕ → Pool
new_pool enabled size = record {
  affinity_enabled = enabled;
  slots = fresh_slots size;
  busy = 0;
  hits = 0;
  spills = 0;
  clients = λ k. absent;
  replies = [];
  main = serving;
}

-- `p.ctx` is done.
unfoldable pub canceled : Main → Bool
canceled serving = false
canceled stopping = true
canceled (draining k) = true
canceled stopped = true

-- What a step of a slot does: to itself, to a response channel, to the gauge of busy slots.
pub data Gauge : Type 0 where
  same up down : Gauge

pub record Effect : Type 0 where
  pub slot : Slot
  pub sent : List (ℕ × JobResult)
  pub gauge : Gauge

unfoldable pub shift : Gauge → Int64 → Int64
shift same n = n
shift up n = add n 1
shift down n = decrement n

unfoldable pub quiet : Slot → Effect
quiet s = record { slot = s; sent = []; gauge = same }

unfoldable pub reply : Job → JobResult → Slot → Effect
reply j r s = record { slot = s; sent = (j.id, r) ∷ []; gauge = same }

unfoldable pub call : Job → Slot → Effect
call j s = record { slot = record s { phase = calling j }; sent = []; gauge = up }

-- A spawn returns a worker, or nil, which it does only when the pool shuts down. Its loop, which tries
-- again for as long as starts fail, is Worker's `spawn`; here it is one event, the return, which a
-- run may put off for ever.
unfoldable pub spawned : Bool → Bool → Slot → Phase → Option Effect
spawned done ok s starting =
    if ok || done then some (quiet (record s { phase = waiting ok })) else none
spawned done ok s (spawning_for j) =
    if ok
    then some (call j s)
    else if done
    then some (reply j unavailable (record s { phase = exited }))
    else none
spawned done ok s (recycling j) =
    if ok || done then some (reply j worker_failed (record s { phase = waiting ok })) else none
spawned done ok s _ = none

-- The select of `runSlot` gives a job.
unfoldable pub take_job : Job → Slot → Phase → Option Effect
take_job j s (waiting true) = some (call j s)
take_job j s (waiting false) = some (quiet (record s { phase = spawning_for j }))
take_job j s _ = none

unfoldable pub take_queued : Slot → Option Job → Option Effect
take_queued s none = none
take_queued s (some j) = take_job j (record s { queue = none }) s.phase

-- `w.do` returns; the result is stamped with the slot.
unfoldable pub returned : ℕ → Option CompressResult → Slot → Phase → Option Effect
returned i (some res) s (calling j) = some (record {
  slot = record s { phase = waiting true };
  sent = (j.id, result (record res { slot = i })) ∷ [];
  gauge = down;
})
returned i none s (calling j) =
    some (record { slot = record s { phase = recycling j }; sent = []; gauge = down })
returned i r s _ = none

unfoldable pub leave : Bool → Slot → Phase → Option Effect
leave done s (waiting w) = if done then some (quiet (record s { phase = exited })) else none
leave done s _ = none

pub data SlotEvent : Type 0 where
  spawn_returns : Bool → SlotEvent
  do_returns : Option CompressResult → SlotEvent
  takes_queued leaves : SlotEvent

unfoldable pub slot_step : Bool → ℕ → SlotEvent → Slot → Option Effect
slot_step done i (spawn_returns ok) s = spawned done ok s s.phase
slot_step done i (do_returns r) s = returned i r s s.phase
slot_step done i takes_queued s = take_queued s s.queue
slot_step done i leaves s = leave done s s.phase

-- A send to the affinity channel, if it has room.
unfoldable pub enqueue : Job → Slot → Option Job → Option Effect
enqueue j s none = some (quiet (record s { queue = some j }))
enqueue j s (some other) = none

-- One job of `drainBuffered`.
unfoldable pub drain : Slot → Option Job → Option Effect
drain s none = none
drain s (some j) = some (reply j shutting_down (record s { queue = none }))

unfoldable pub head_effect : List Slot → Option Effect → Option (List Slot × Effect)
head_effect ss none = none
head_effect ss (some e) = some (e.slot ∷ ss, e)

unfoldable pub tail_effect : Slot → Option (List Slot × Effect) → Option (List Slot × Effect)
tail_effect s none = none
tail_effect s (some (ss, e)) = some (s ∷ ss, e)

-- A step of the slot at an index.
unfoldable pub at_slot : ℕ → (Slot → Option Effect) → List Slot → Option (List Slot × Effect)
at_slot i f [] = none
at_slot zero f (s ∷ ss) = head_effect ss (f s)
at_slot (suc i) f (s ∷ ss) = tail_effect s (at_slot i f ss)
