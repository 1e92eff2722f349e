-- ===== src/Server/TracingTests.antt =====
-- A hook call that the only slot of a pool serves.
use tsheadroom.Prelude.{codes, bytes_eq, true, false, List, [], ◌∷◌, some, ◌≡◌, refl}
use tsheadroom.Prelude.Dict.{get}
use tsheadroom.Go.Float64.{five_float}
use tsheadroom.Go.Int64.{add, decrement, non_positive}
use tsheadroom.Go.Strings.{equal_fold}
use tsheadroom.Go.Json.{unmarshal, assign, assign_all, raw_message, object}
use tsheadroom.Protocol.{CompressResult}
use tsheadroom.Handler.{hook_setters}
use tsheadroom.Handler.Process.{
  process, with_data, with_body, with_messages, compress_messages, finish, is_noop,
}
use tsheadroom.Handler.Process.Tests.{toy_fields, toy_json, toy_config, new_body}
use tsheadroom.Pool.{
  canceled, quiet, call, shift, spawned, take_job, returned, spawn_returns, do_returns, slot_step,
  fresh_slots, new_pool, head_effect, tail_effect, at_slot,
}
use tsheadroom.Pool.Events.{
  Event, tries_affinity, handed_to, collects, slot_moves, affined, begin, offer, handed, hand_over,
  moved, answered, collect, step, run_from,
}
use tsheadroom.Pool.Outcome.{pool_compressor, compress_in, compress_returns, response, as_result}
use tsheadroom.Server.Tracing.{IsTraced, process-IsTraced}

abbrev returned_result : CompressResult
returned_result = record {
  messages = codes "[s]";
  tokens_before = 9;
  tokens_after = 4;
  tokens_saved = 5;
  compression_ratio = five_float;
  transforms_applied = [];
  elapsed_ms = five_float;
  cold_first_call = false;
  model_limit = 100;
  slot = 7;
}

abbrev serving : List Event
serving =
    slot_moves 0 (spawn_returns true)
    ∷ tries_affinity 0
    ∷ handed_to 0 0
    ∷ slot_moves 0 (do_returns (some returned_result))
    ∷ collects 0
    ∷ []

hook_runs :
    (process toy_json
      (pool_compressor false 1 0 [] serving)
      toy_config
      false
      (codes "call")).0.request_body
    ≡ some new_body
unfolding process toy_fields with_data unmarshal bytes_eq assign_all assign hook_setters equal_fold
    raw_message with_body object with_messages get compress_messages finish is_noop non_positive
    pool_compressor compress_in compress_returns response as_result run_from step begin at_slot
    tail_effect head_effect slot_step spawned moved offer affined hand_over handed take_job returned
    collect answered canceled quiet call shift fresh_slots new_pool add decrement
hook_runs = refl

process-IsTraced_example :
    IsTraced toy_json toy_config false (codes "call") false 1 0 [] serving new_body
process-IsTraced_example =
    process-IsTraced toy_json toy_config false (codes "call") false 1 0 [] serving new_body tt
      (tt, (tt, (tt, (tt, (tt, tt))))) hook_runs
