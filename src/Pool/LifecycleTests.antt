-- ===== src/Pool/LifecycleTests.antt =====
-- A slot whose first process does not get ready, whose second fails a call, and whose third overstays.
use tsheadroom.Prelude.{
  ℕ, Bytes, codes, bytes_eq, Bool, true, false, ◌++◌, List, [], ◌∷◌, Option, none, some, ◌≡◌, refl,
  arith, if◌then◌else◌,
}
use tsheadroom.Prelude.Dict.{Dict}
use tsheadroom.Go.Strings.{equal_fold}
use tsheadroom.Go.Json.{Json, unmarshal, assign, assign_all, plain, write_back}
use tsheadroom.Pool.{
  waiting, exited, spawned, take_job, returned, leave, quiet, reply, call, leaves, slot_step,
}
use tsheadroom.Pool.Worker.{await_ready, check_ready, ready_setters, initial_backoff, spawn}
use tsheadroom.Pool.Process.{
  linux, other, set_proc_attr, Process, blank_process, fresh_os, with_process, end_life, exits,
  signal_kill, waited, wait, kill, close_stdin, overdue, in_time, await_end, shutdown, with_error,
  keep_ready, start, start_worker, Turn, spawn_process, Life, running, ended, reaped,
}
use tsheadroom.Pool.Reaping.{IsSettled}
use tsheadroom.Pool.Hiring.{attempts, spawn_end, Leaves, spawn_process-spawn}
use tsheadroom.Pool.Crew.{
  Crew, fresh_crew, CrewEvent, spawns, calls, is_given, returns, with_step, has_worker,
  spawned_worker, without_worker, after_call, after_return, crew_step, run_crew,
}
use tsheadroom.Pool.Upkeep.{IsManned}
use tsheadroom.Pool.Lifecycle.{run_crew-IsManned, run_crew-Reaps, run_crew-follows, slot_event}
use tsheadroom.Config.{update}
use tsheadroom.Pool.Events.{job}
use tsheadroom.Pool.Tests.{chat}

unfoldable up_fields : Bytes → Option (Dict Bytes)
up_fields b = if bytes_eq b (codes "up") then some ((codes "ready", codes "t") ∷ []) else some []

abbrev up_json : Json
up_json = record {
  is_null = λ raw. false;
  bool = λ raw. some true;
  int = λ raw. none;
  float = λ raw. none;
  string = λ raw. none;
  fields = up_fields;
  array = λ raw. none;
  normalize = λ raw. none;
  quote = λ s. s;
  float_text = λ f. [];
}

abbrev turn : Option Bytes → Turn
turn line = record {
  stopped_before = false;
  launch = record {
    stdin_pipe = true;
    stdout_pipe = true;
    stderr_pipe = true;
    starts = true;
    line = line;
  };
  stopped_after = false;
}

abbrev bad_then_good : List Turn
bad_then_good = turn none ∷ turn (some (codes "up")) ∷ []

abbrev life : List (Bool × CrewEvent)
life =
    (false, spawns bad_then_good)
    ∷ (false, is_given (job 0 chat))
    ∷ (false, calls none)
    ∷ (false, spawns (turn (some (codes "up")) ∷ []))
    ∷ []

abbrev proc : Life → Bool → ℕ → Process
proc l input n = record {
  attr = record { pdeathsig = false; setpgid = true };
  life = l;
  stdin_open = input;
  waits = n;
}

-- A process that is started, killed and waited for.
abbrev killed : ℕ → (ℕ → Process) → ℕ → Process
killed n f =
    update (update (update f n (proc running true 0)) n (proc ended true 0)) n (proc reaped true 1)

abbrev up_crew : Crew
up_crew = record {
  slot = record { queue = none; phase = waiting true };
  worker = some (record { pid = 2; headroom_version = [] });
  os = record {
    started = 3;
    process = update (killed 1 (killed 0 (λ n. blank_process))) 2 (proc running true 0);
  };
}

life_runs : run_crew up_json other 0 life (some fresh_crew) ≡ some up_crew
unfolding run_crew crew_step spawn_process start_worker keep_ready await_ready check_ready
    ready_setters unmarshal assign assign_all plain write_back equal_fold up_fields bytes_eq
    with_error kill signal_kill exits with_process end_life wait waited set_proc_attr start
    with_step spawned_worker has_worker slot_step spawned take_job returned quiet call after_call
    without_worker reply
life_runs = refl

abbrev whole_life : List (Bool × CrewEvent)
whole_life = life ++ (true, returns overdue) ∷ []

abbrev exited_crew : Crew
exited_crew = record {
  slot = record { queue = none; phase = exited };
  worker = none;
  os = record {
    started = 3;
    process =
        update (update (update up_crew.os.process 2 (proc running false 0)) 2 (proc ended false 0))
          2 (proc reaped false 1);
  };
}

whole_life_runs : run_crew up_json other 0 whole_life (some fresh_crew) ≡ some exited_crew
unfolding run_crew crew_step spawn_process start_worker keep_ready await_ready check_ready
    ready_setters unmarshal assign assign_all plain write_back equal_fold up_fields bytes_eq
    with_error kill signal_kill exits with_process end_life wait waited set_proc_attr start
    with_step spawned_worker has_worker slot_step spawned take_job returned leave quiet call
    after_call without_worker after_return shutdown await_end close_stdin reply
whole_life_runs = refl

run_crew-IsManned_example : IsManned up_crew
run_crew-IsManned_example = run_crew-IsManned up_json other 0 life up_crew life_runs

run_crew-Reaps_example : IsSettled (exited_crew.os.process 2)
run_crew-Reaps_example =
    run_crew-Reaps up_json other 0 whole_life exited_crew 2 whole_life_runs refl (omega arith)

run_crew-follows_example :
    (c' : Crew) × (crew_step up_json other true 0 (returns in_time) up_crew ≡ some c')
    × (c'.slot ≡ record { queue = none; phase = exited })
unfolding quiet
run_crew-follows_example =
    run_crew-follows up_json other 0 life up_crew true (returns in_time) leaves
      (quiet (record { queue = none; phase = exited })) life_runs (unfold slot_event in refl)
      (unfold slot_step leave in refl)

spawn_process-spawn_example :
    (spawn_end up_json linux (spawn_process up_json linux bad_then_good fresh_os)
      ≡ (spawn initial_backoff (attempts up_json linux bad_then_good)).0)
    × Leaves up_json linux (spawn_process up_json linux bad_then_good fresh_os)
spawn_process-spawn_example =
    spawn_process-spawn up_json linux initial_backoff bad_then_good fresh_os
      (λ n. (λ h. absurd (omega arith), λ h. refl))
