-- ===== src/Pool/Events.antt =====
-- pool.go: the events of the whole pool, and its runs.
use tsheadroom.Prelude.{
  ℕ, suc, bytes_eq, Bool, true, false, not, ◌&&◌, ◌||◌, ◌==◌, List, [], ◌∷◌, ◌++◌, Option, none,
  some, length, if◌then◌else◌,
}
use tsheadroom.Go.Int64.{add}
use tsheadroom.Config.{update}
use tsheadroom.Protocol.{CompressRequest}
use tsheadroom.Pool.Routing.{slot_for}
use tsheadroom.Pool.{
  Job, JobResult, Phase, exited, Slot, Client, absent, accepted, collected, abandoned, refused,
  checked, spilling, Main, serving, stopping, stopped, draining, Pool, canceled, Effect, shift,
  SlotEvent, slot_step, take_job, enqueue, drain, at_slot,
}

-- What may happen to a call of `Compress`, given by its number, and to the rest of the pool: the call
-- begins; its send to the affinity channel is tried; the shared channel hands it to a slot; its own
-- context is done; it sees that the pool shuts down; it gets its answer; a slot moves; `Shutdown` does.
pub data Event : Type 0 where
  begins : ℕ → CompressRequest → Event
  tries_affinity gives_up sees_shutdown collects : ℕ → Event
  handed_to : ℕ → ℕ → Event
  slot_moves : ℕ → SlotEvent → Event
  shutdown_moves : Event

abbrev pub set_client : ℕ → Client → Pool → Pool
set_client k c p = record p { clients = update p.clients k c }

abbrev pub job : ℕ → CompressRequest → Job
job k req = record { id = k; req = req }

unfoldable pub begin : ℕ → CompressRequest → Pool → Client → Option Pool
begin k req p absent = some (set_client k (if canceled p.main then refused else checked req) p)
begin k req p _ = none

-- The affinity send succeeds, or the job goes on to the shared channel.
unfoldable pub queued : ℕ → CompressRequest → Pool → Option (List Slot × Effect) → Pool
queued k req p none = set_client k (spilling req) p
queued k req p (some (ss, e)) = record p {
  slots = ss;
  hits = add p.hits 1;
  clients = update p.clients k accepted;
}

unfoldable pub affined : Pool → CompressRequest → Bool
affined p req = p.affinity_enabled && not (bytes_eq req.affinity_key [])

unfoldable pub offer : ℕ → Pool → Client → Option Pool
offer k p (checked req) =
    if affined p req
    then some (
        queued k req p (
          at_slot (slot_for req.affinity_key (length p.slots)) (λ s. enqueue (job k req) s s.queue)
            p.slots))
    else some (set_client k (spilling req) p)
offer k p _ = none

unfoldable pub handed : ℕ → CompressRequest → Pool → Option (List Slot × Effect) → Option Pool
handed k req p none = none
handed k req p (some (ss, e)) = some (record p {
  slots = ss;
  busy = shift e.gauge p.busy;
  spills = if affined p req then add p.spills 1 else p.spills;
  clients = update p.clients k accepted;
})

unfoldable pub hand_over : ℕ → ℕ → Pool → Client → Option Pool
hand_over k i p (spilling req) =
    handed k req p (at_slot i (λ s. take_job (job k req) s s.phase) p.slots)
hand_over k i p _ = none

unfoldable pub give_up : ℕ → Pool → Client → Option Pool
give_up k p (spilling req) = some (set_client k refused p)
give_up k p accepted = some (set_client k abandoned p)
give_up k p _ = none

unfoldable pub see_shutdown : ℕ → Pool → Client → Option Pool
see_shutdown k p (spilling req) = if canceled p.main then some (set_client k refused p) else none
see_shutdown k p _ = none

unfoldable pub answered : ℕ → List (ℕ × JobResult) → Bool
answered k [] = false
answered k ((n, r) ∷ rest) = n == k || answered k rest

unfoldable pub collect : ℕ → Pool → Client → Option Pool
collect k p accepted = if answered k p.replies then some (set_client k collected p) else none
collect k p _ = none

-- A step of a slot, with its reply and its gauge.
unfoldable pub moved : Pool → Option (List Slot × Effect) → Option Pool
moved p none = none
moved p (some (ss, e)) =
    some (record p { slots = ss; busy = shift e.gauge p.busy; replies = e.sent ++ p.replies })

unfoldable pub is_exited : Phase → Bool
is_exited exited = true
is_exited _ = false

unfoldable pub all_exited : List Slot → Bool
all_exited [] = true
all_exited (s ∷ ss) = is_exited s.phase && all_exited ss

-- The channel at hand has a job, or the loop goes on to the next one.
unfoldable pub drained : ℕ → Pool → Option Pool → Pool
drained i p (some p') = p'
drained i p none = record p { main = if suc i == length p.slots then stopped else draining (suc i) }

unfoldable pub shut : Pool → Main → Option Pool
shut p serving = some (record p { main = stopping })
shut p stopping =
    if all_exited p.slots
    then some (record p { main = if length p.slots == 0 then stopped else draining 0 })
    else none
shut p (draining i) = some (drained i p (moved p (at_slot i (λ s. drain s s.queue) p.slots)))
shut p stopped = none

unfoldable pub step : Event → Pool → Option Pool
step (begins k req) p = begin k req p (p.clients k)
step (tries_affinity k) p = offer k p (p.clients k)
step (handed_to k i) p = hand_over k i p (p.clients k)
step (gives_up k) p = give_up k p (p.clients k)
step (sees_shutdown k) p = see_shutdown k p (p.clients k)
step (collects k) p = collect k p (p.clients k)
step (slot_moves i ev) p = moved p (at_slot i (slot_step (canceled p.main) i ev) p.slots)
step shutdown_moves p = shut p p.main

-- The events in order, from a pool; `none` if one is not possible where it comes.
unfoldable pub run_from : List Event → Option Pool → Option Pool
run_from es none = none
run_from [] (some p) = some p
run_from (e ∷ es) (some p) = run_from es (step e p)
