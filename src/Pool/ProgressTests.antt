-- ===== src/Pool/ProgressTests.antt =====
-- A job that a slot has still to take, and a pool that is told to stop.
use tsheadroom.Prelude.{ℕ, bytes_eq, ◌≤◌, length, true, List, [], ◌∷◌, none, some, ◌≡◌, ◌⊎◌, refl}
use tsheadroom.Go.Int64.{add, decrement, non_positive}
use tsheadroom.Config.{update}
use tsheadroom.Pool.{
  Pool, waiting, exited, result, absent, checked, accepted, serving, stopping, new_pool,
  fresh_slots, canceled, quiet, call, shift, spawned, take_job, take_queued, returned, leave,
  SlotEvent, spawn_returns, do_returns, leaves, takes_queued, slot_step, enqueue, head_effect,
  tail_effect, at_slot,
}
use tsheadroom.Pool.Routing.{slot_for}
use tsheadroom.Pool.Events.{
  Event, begins, tries_affinity, slot_moves, job, affined, begin, queued, offer, moved, answered,
  all_exited, step, run_from,
}
use tsheadroom.Pool.Weights.{sum}
use tsheadroom.Pool.Work.{work, slot_run}
use tsheadroom.Pool.Progress.{CanStep, stopping-terminates}
use tsheadroom.Pool.Answers.{accepted-answered}
use tsheadroom.Pool.Tests.{chat, chat_result}

abbrev sends : List Event
sends = begins 0 chat ∷ slot_moves 0 (spawn_returns true) ∷ tries_affinity 0 ∷ []

abbrev sent_pool : Pool
sent_pool = record {
  affinity_enabled = true;
  slots = record { queue = some (job 0 chat); phase = waiting true } ∷ [];
  busy = 0;
  hits = 1;
  spills = 0;
  clients = update (update (λ k. absent) 0 (checked chat)) 0 accepted;
  replies = [];
  main = serving;
}

sends_runs : run_from sends (some (new_pool true 1)) ≡ some sent_pool
unfolding run_from step begin at_slot tail_effect head_effect slot_step spawned moved offer queued
    enqueue slot_for non_positive canceled quiet fresh_slots new_pool add shift affined bytes_eq
sends_runs = refl

abbrev serves : List (ℕ × SlotEvent)
serves = (0, takes_queued) ∷ (0, do_returns (some chat_result)) ∷ []

abbrev answered_pool : Pool
answered_pool = record sent_pool {
  slots = record { queue = none; phase = waiting true } ∷ [];
  replies = (0, result (record chat_result { slot = 0 })) ∷ [];
}

serves_runs : run_from (slot_run serves) (some sent_pool) ≡ some answered_pool
unfolding run_from slot_run step at_slot head_effect slot_step moved take_queued take_job returned
    call quiet add decrement shift canceled
serves_runs = refl

accepted-answered_example :
    (length serves ≤ sum work sent_pool.slots)
    × ((answered 0 answered_pool.replies ≡ true) ⊎ CanStep answered_pool)
accepted-answered_example =
    accepted-answered true 1 sends 0 sent_pool answered_pool serves sends_runs refl refl serves_runs

abbrev stopping_pool : Pool
stopping_pool = record sent_pool { main = stopping }

abbrev stops : List (ℕ × SlotEvent)
stops = (0, leaves) ∷ []

abbrev left_pool : Pool
left_pool = record stopping_pool {
  slots = record { queue = some (job 0 chat); phase = exited } ∷ [];
}

stops_runs : run_from (slot_run stops) (some stopping_pool) ≡ some left_pool
unfolding run_from slot_run step at_slot head_effect slot_step moved leave quiet shift canceled
stops_runs = refl

stopping-terminates_example :
    (length stops ≤ sum work stopping_pool.slots)
    × ((all_exited left_pool.slots ≡ true) ⊎ CanStep left_pool)
stopping-terminates_example =
    stopping-terminates stopping_pool left_pool stops (unfold canceled in refl) stops_runs
