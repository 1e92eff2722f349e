-- ===== src/Pool/Moves.antt =====
-- What one event does to the pool, in six kinds.
use tsheadroom.Prelude.{Option, none, some, ℕ, suc, ◌++◌, true, List, some, ◌≡◌, ◌⊎◌}
use tsheadroom.Go.Int64.{Int64, add}
use tsheadroom.Config.{update}
use tsheadroom.Protocol.{CompressRequest}
use tsheadroom.Pool.{
  Slot, Client, accepted, collected, abandoned, checked, spilling, Main, serving, stopping, stopped,
  draining, Pool, canceled, Effect, shift, take_job, SlotEvent, slot_step, enqueue, drain, at_slot,
}
use tsheadroom.Pool.Events.{
  begins, Event, tries_affinity, handed_to, slot_moves, job, set_client, all_exited,
}

-- Whether the pool took a job, for a call of `Compress`.
unfoldable pub taken : Client → ℕ
taken accepted = 1
taken collected = 1
taken abandoned = 1
taken _ = 0

-- The request of a call that has still to hand its job over.
unfoldable pub asks : Client → Option CompressRequest
asks (checked req) = some req
asks (spilling req) = some req
asks _ = none

-- The events that are steps of a slot, and those that may give one a job.
unfoldable pub slot_steps : Event → ℕ
slot_steps (slot_moves i ev) = 1
slot_steps _ = 0

unfoldable pub offers : Event → ℕ
offers (tries_affinity k) = 1
offers (handed_to k i) = 1
offers _ = 0

-- The steps of `Shutdown` that leave the slots alone.
pub data NextMain (p : Pool) (m : Main) : Type 0 where
  cancels : p.main ≡ serving → m ≡ stopping → NextMain p m
  waited :
      p.main ≡ stopping
      → all_exited p.slots ≡ true
      → (m ≡ stopped) ⊎ (m ≡ draining 0)
      → NextMain p m
  next_channel :
      (i : ℕ) → p.main ≡ draining i → (m ≡ stopped) ⊎ (m ≡ draining (suc i)) → NextMain p m

pub data Moves (e : Event) (p p' : Pool) : Type 0 where
  client_moves :
      (n : ℕ) (c : Client)
      → slot_steps e ≡ 0
      → taken c ≡ taken (p.clients n)
      → p' ≡ set_client n c p
      → ((req : CompressRequest)
          → asks c ≡ some req
          → (e ≡ begins n req) ⊎ (asks (p.clients n) ≡ some req))
      → Moves e p p'
  is_queued :
      (n i : ℕ) (req : CompressRequest) (ss : List Slot) (x : Effect)
      → slot_steps e ≡ 0
      → offers e ≡ 1
      → p.clients n ≡ checked req
      → at_slot i (λ s. enqueue (job n req) s s.queue) p.slots ≡ some (ss, x)
      → p' ≡ record p { slots = ss; hits = add p.hits 1; clients = update p.clients n accepted }
      → Moves e p p'
  is_handed :
      (n i : ℕ) (req : CompressRequest) (ss : List Slot) (x : Effect) (spills : Int64)
      → slot_steps e ≡ 0
      → offers e ≡ 1
      → p.clients n ≡ spilling req
      → at_slot i (λ s. take_job (job n req) s s.phase) p.slots ≡ some (ss, x)
      → p' ≡ record p {
        slots = ss;
        busy = shift x.gauge p.busy;
        spills = spills;
        clients = update p.clients n accepted;
      }
      → Moves e p p'
  slot_moved :
      (i : ℕ) (ev : SlotEvent) (ss : List Slot) (x : Effect)
      → slot_steps e ≡ 1
      → at_slot i (slot_step (canceled p.main) i ev) p.slots ≡ some (ss, x)
      → p' ≡ record p { slots = ss; busy = shift x.gauge p.busy; replies = x.sent ++ p.replies }
      → Moves e p p'
  is_drained :
      (i : ℕ) (ss : List Slot) (x : Effect)
      → slot_steps e ≡ 0
      → p.main ≡ draining i
      → at_slot i (λ s. drain s s.queue) p.slots ≡ some (ss, x)
      → p' ≡ record p { slots = ss; busy = shift x.gauge p.busy; replies = x.sent ++ p.replies }
      → Moves e p p'
  main_moves :
      (m : Main) → slot_steps e ≡ 0 → NextMain p m → p' ≡ record p { main = m } → Moves e p p'
