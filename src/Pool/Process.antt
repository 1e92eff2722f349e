-- ===== src/Pool/Process.antt =====
-- pool.go and procattr_*.go: the life of a worker's process: `setProcAttr`, `startWorker`, `kill` and
-- `shutdown`. A process is named by how many the slot has started before it. What the process itself
-- does, and whether the calls of os/exec succeed, are arguments.
use tsheadroom.Prelude.{
  ℕ, suc, ◌+◌, Bytes, Bool, true, false, not, List, [], ◌∷◌, Option, none, some, if◌then◌else◌,
}
use tsheadroom.Go.Json.{Json}
use tsheadroom.Config.{update}
use tsheadroom.Pool.Worker.{await_ready}

pub data Platform : Type 0 where
  linux other : Platform

-- `syscall.SysProcAttr`: whether `Pdeathsig` is SIGKILL, and `Setpgid`.
pub record ProcAttr : Type 0 where
  pub pdeathsig : Bool
  pub setpgid : Bool

-- procattr_linux.go
unfoldable pub set_proc_attr_linux : ProcAttr
set_proc_attr_linux = record { pdeathsig = true; setpgid = true }

-- procattr_other.go
unfoldable pub set_proc_attr_other : ProcAttr
set_proc_attr_other = record { pdeathsig = false; setpgid = true }

-- The one that the program is built with.
unfoldable pub set_proc_attr : Platform → ProcAttr
unfolding set_proc_attr_linux set_proc_attr_other
set_proc_attr linux = set_proc_attr_linux
set_proc_attr other = set_proc_attr_other

-- `ended` is a process that the kernel keeps until somebody waits for it.
pub data Life : Type 0 where
  not_started running ended reaped : Life

pub record Process : Type 0 where
  pub attr : ProcAttr
  pub life : Life
  pub stdin_open : Bool
  pub waits : ℕ

abbrev pub blank_process : Process
blank_process = record {
  attr = record { pdeathsig = false; setpgid = false };
  life = not_started;
  stdin_open = false;
  waits = 0;
}

pub record Os : Type 0 where
  pub started : ℕ
  pub process : ℕ → Process

abbrev pub fresh_os : Os
fresh_os = record { started = 0; process = λ n. blank_process }

unfoldable pub with_process : ℕ → Process → Os → Os
with_process pid p os = record os { process = update os.process pid p }

unfoldable pub end_life : Life → Life
end_life running = ended
end_life l = l

-- The process ends of itself.
unfoldable pub exits : ℕ → Os → Os
exits pid os =
    with_process pid (record (os.process pid) { life = end_life (os.process pid).life }) os

-- SIGKILL to the process group, which is there if the process was given its own. A process that was
-- not started is not signaled, and one that was reaped is gone.
unfoldable pub signal_kill : ℕ → Os → Os
signal_kill pid os = if (os.process pid).attr.setpgid then exits pid os else os

-- `cmd.Wait` returns when the process has ended, and at once, with an error, when it was not started
-- or was waited for; `none` if it does not return.
unfoldable pub waited : ℕ → Os → Life → Option Os
waited pid os not_started = some os
waited pid os running = none
waited pid os _ = some (
    with_process pid (record (os.process pid) { life = reaped; waits = (os.process pid).waits + 1 })
      os)

unfoldable pub wait : ℕ → Os → Option Os
wait pid os = waited pid os (os.process pid).life

unfoldable pub kill : ℕ → Os → Option Os
kill pid os = wait pid (signal_kill pid os)

unfoldable pub close_stdin : ℕ → Os → Os
close_stdin pid os = with_process pid (record (os.process pid) { stdin_open = false }) os

-- How the select of `shutdown` goes: the worker ends, and was waited for, within the grace period; it
-- does not; it does, but the timer is served.
pub data Ending : Type 0 where
  in_time overdue both_ready : Ending

unfoldable pub and_kill : ℕ → Option Os → Option Os
and_kill pid none = none
and_kill pid (some os) = some (signal_kill pid os)

unfoldable pub await_end : Ending → ℕ → Os → Option Os
await_end in_time pid os = wait pid (exits pid os)
await_end overdue pid os = wait pid (signal_kill pid os)
await_end both_ready pid os = and_kill pid (wait pid (exits pid os))

unfoldable pub shutdown : Ending → ℕ → Os → Option Os
shutdown ending pid os = await_end ending pid (close_stdin pid os)

-- What the calls of `startWorker` give: the three pipes, the start, and the first line, if it came in
-- time.
pub record Launch : Type 0 where
  pub stdin_pipe : Bool
  pub stdout_pipe : Bool
  pub stderr_pipe : Bool
  pub starts : Bool
  pub line : Option Bytes

pub record Worker : Type 0 where
  pub pid : ℕ
  pub headroom_version : Bytes

pub data StartError : Type 0 where
  no_stdin no_stdout no_stderr no_start not_ready : StartError

pub data Started : Type 0 where
  is_up : Worker → Started
  is_down : StartError → Started

-- `cmd.Start`.
unfoldable pub start : ProcAttr → Os → Os
start attr os = record {
  started = suc os.started;
  process =
      update os.process os.started
        (record { attr = attr; life = running; stdin_open = true; waits = 0 });
}

unfoldable pub with_error : StartError → Option Os → Option (Os × Started)
with_error e none = none
with_error e (some os) = some (os, is_down e)

-- The end of `startWorker`: a worker that is not ready is killed.
unfoldable pub keep_ready : ℕ → Os → Option Bytes → Option (Os × Started)
keep_ready pid os none = with_error not_ready (kill pid os)
keep_ready pid os (some ver) = some (os, is_up (record { pid = pid; headroom_version = ver }))

-- `none` if it does not return.
unfoldable pub start_worker : Json → Platform → Launch → Os → Option (Os × Started)
start_worker j platform l os =
    if not l.stdin_pipe
    then some (os, is_down no_stdin)
    else if not l.stdout_pipe
    then some (os, is_down no_stdout)
    else if not l.stderr_pipe
    then some (os, is_down no_stderr)
    else if not l.starts
    then some (os, is_down no_start)
    else keep_ready os.started (start (set_proc_attr platform) os) (await_ready j l.line)

-- One turn of the loop in `spawn`, as `Worker.Attempt`, with the calls that its start makes.
pub record Turn : Type 0 where
  pub stopped_before : Bool
  pub launch : Launch
  pub stopped_after : Bool

-- `spawn` with its processes: a worker, or nil. `none` if the turns do not end it.
unfoldable pub spawn_process : Json → Platform → List Turn → Os → Option (Os × Option Worker)
spawn_process j platform [] os = none
spawn_process j platform (t ∷ rest) os = elim t.stopped_before [
  | true ↦ some (os, none)
  | false ↦ elim (start_worker j platform t.launch os) [
    | none ↦ none
    | some (os', is_up w) ↦ some (os', some w)
    | some (os', is_down e) ↦ elim t.stopped_after [
      | true ↦ some (os', none)
      | false ↦ spawn_process j platform rest os'
    ]
  ]
]
