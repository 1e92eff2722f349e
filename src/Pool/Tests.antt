-- ===== src/Pool/Tests.antt =====
-- Small pools: a job that is served, one that comes too late.
use tsheadroom.Prelude.{
  ℕ, Bool, ◌≤◌, codes, bytes_eq, true, false, List, [], ◌∷◌, none, some, ◌≡◌, refl, arith, All,
}
use tsheadroom.Go.Float64.{five_float}
use tsheadroom.Go.Int64.{add, decrement, non_positive}
use tsheadroom.Config.{update, view, empty_heap, default_settings}
use tsheadroom.Protocol.{CompressRequest, CompressResult}
use tsheadroom.Pool.{
  Pool, waiting, result, absent, checked, accepted, collected, serving, stopped, new_pool,
  fresh_slots, canceled, quiet, call, shift, spawned, take_job, take_queued, returned,
  spawn_returns, do_returns, takes_queued, slot_step, enqueue, head_effect, tail_effect, at_slot,
}
use tsheadroom.Pool.Routing.{slot_for}
use tsheadroom.Pool.Events.{
  Event, begins, tries_affinity, collects, slot_moves, affined, begin, queued, offer, moved,
  answered, collect, step, run_from,
}
use tsheadroom.Pool.Shutdown.{IsExited}
use tsheadroom.Pool.Delivery.{IsConserved}
use tsheadroom.Pool.Provenance.{results, call_log, numbered}
use tsheadroom.Pool.Requests.{LogOk, run_from-call_log}
use tsheadroom.Pool.Runs.{run_from-IsConserved}
use tsheadroom.Pool.Busy.{IsGauged, run_from-IsGauged}
use tsheadroom.Pool.Final.{run_from-IsExited}
use tsheadroom.Pool.Aftermath.{late, late_pool, late_runs, late-unanswered, run_from-over}

abbrev pub chat : CompressRequest
chat = record {
  messages = codes "[m]";
  model = [];
  config = view empty_heap default_settings;
  affinity_key = codes "s1";
}

abbrev pub chat_result : CompressResult
chat_result = record {
  messages = codes "[s]";
  tokens_before = 9;
  tokens_after = 4;
  tokens_saved = 5;
  compression_ratio = five_float;
  transforms_applied = [];
  elapsed_ms = five_float;
  cold_first_call = false;
  model_limit = 100;
  slot = 7;
}

abbrev pub served : List Event
served =
    begins 0 chat
    ∷ slot_moves 0 (spawn_returns true)
    ∷ tries_affinity 0
    ∷ slot_moves 0 takes_queued
    ∷ slot_moves 0 (do_returns (some chat_result))
    ∷ collects 0
    ∷ []

abbrev pub served_pool : Pool
served_pool = record {
  affinity_enabled = true;
  slots = record { queue = none; phase = waiting true } ∷ [];
  busy = 0;
  hits = 1;
  spills = 0;
  clients = update (update (update (λ k. absent) 0 (checked chat)) 0 accepted) 0 collected;
  replies = (0, result (record chat_result { slot = 0 })) ∷ [];
  main = serving;
}

chat_affined : bytes_eq chat.affinity_key [] ≡ false
unfolding bytes_eq
chat_affined = refl

pub served_runs : run_from served (some (new_pool true 1)) ≡ some served_pool
unfolding run_from step begin at_slot tail_effect head_effect slot_step spawned moved offer queued
    enqueue slot_for non_positive canceled quiet call fresh_slots new_pool add decrement shift
    affined bytes_eq take_queued take_job returned collect answered
served_runs = refl

run_from-IsConserved_example : IsConserved served_pool
run_from-IsConserved_example = run_from-IsConserved true 1 served served_pool served_runs

run_from-IsExited_example : All IsExited (late_pool chat).slots
run_from-IsExited_example =
    run_from-IsExited true 1 (late chat) (late_pool chat) (late_runs chat chat_affined) refl

late-unanswered_example :
    (run_from (late chat) (some (new_pool true 1)) ≡ some (late_pool chat))
    × ((late_pool chat).clients 0 ≡ accepted)
    × ((late_pool chat).replies ≡ [])
late-unanswered_example =
    late-unanswered chat [] (late_pool chat) chat_affined (unfold run_from in refl)

run_from-over_example :
    ((late_pool chat).main ≡ stopped) × ((late_pool chat).replies ≡ (late_pool chat).replies)
run_from-over_example =
    run_from-over true 1 (late chat) [] (late_pool chat) (late_pool chat)
      (late_runs chat chat_affined) refl (unfold run_from in refl)

run_from-IsGauged_example : IsGauged 1 served_pool × (served_pool.busy ≤ 1)
run_from-IsGauged_example = run_from-IsGauged true 1 served served_pool (omega arith) served_runs

abbrev is_chat : ℕ → CompressRequest → Bool
is_chat k req = bytes_eq req.messages (codes "[m]")

run_from-call_log_example :
    (results served_pool.replies ≡ numbered (call_log served (new_pool true 1) []))
    × LogOk is_chat (call_log served (new_pool true 1) [])
unfolding bytes_eq
run_from-call_log_example =
    run_from-call_log true 1 served served_pool is_chat served_runs
      (refl, (tt, (tt, (tt, (tt, (tt, tt))))))
