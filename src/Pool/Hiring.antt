-- ===== src/Pool/Hiring.antt =====
-- What `startWorker` and `spawn` leave behind.
use tsheadroom.Prelude.{
  ℕ, Bytes, false, ◌&&◌, List, [], ◌∷◌, Option, none, some, ◌≡◌, inl, inr, refl, if◌then◌else◌,
  Bool-cases,
}
use tsheadroom.Go.Json.{Json}
use tsheadroom.Pool.Worker.{
  await_ready, Attempt, Spawn, ready, stopped, trying, next_backoff, spawn,
}
use tsheadroom.Pool.Process.{
  Platform, set_proc_attr, Os, Launch, Worker, not_ready, Started, is_up, is_down, start,
  with_error, keep_ready, start_worker, no_stdin, no_stdout, no_stderr, no_start, Turn,
  spawn_process,
}
use tsheadroom.Pool.Reaping.{Employs, kill-Employs, start-Employs}

-- The version that a launch comes to, if the worker gets ready.
unfoldable pub launch_version : Json → Launch → Option Bytes
launch_version j l =
    if l.stdin_pipe && l.stdout_pipe && l.stderr_pipe && l.starts
    then await_ready j l.line
    else none

unfoldable pub worker_of : Started → Option Worker
worker_of (is_up w) = some w
worker_of (is_down e) = none

unfoldable pub version_of : Started → Option Bytes
version_of (is_up w) = some w.headroom_version
version_of (is_down e) = none

module _ (j : Json) (platform : Platform) where
  -- A start that returned, with this version.
  abbrev Settles : Option (Os × Started) → Option Bytes → Type 0
  Settles r ver =
      (os' : Os) × (s : Started) × (r ≡ some (os', s))
      × Employs (worker_of s) os'
      × (version_of s ≡ ver)

  keep_ready-Settles :
      (os : Os) (v : Option Bytes)
      → Employs none os
      → Settles (keep_ready os.started (start (set_proc_attr platform) os) v) v
  unfolding keep_ready with_error worker_of version_of
  keep_ready-Settles os none own =
      let (os', h, done) =
        kill-Employs (record { pid = os.started; headroom_version = [] })
          (start (set_proc_attr platform) os) (start-Employs platform [] os own) in
      (os', is_down not_ready, rw h refl, done, refl)
  keep_ready-Settles os (some ver) own = (
    start (set_proc_attr platform) os,
    is_up (record { pid = os.started; headroom_version = ver }),
    refl,
    start-Employs platform ver os own,
    refl,
  )

  pub start_worker-Settles :
      (l : Launch) (os : Os)
      → Employs none os
      → Settles (start_worker j platform l os) (launch_version j l)
  unfolding start_worker launch_version worker_of version_of
  start_worker-Settles l os v = elim (Bool-cases l.stdin_pipe) [
    | inr a ↦ rw a (os, is_down no_stdin, refl, v, refl)
    | inl a ↦ elim (Bool-cases l.stdout_pipe) [
      | inr b ↦ rw (a, b) (os, is_down no_stdout, refl, v, refl)
      | inl b ↦ elim (Bool-cases l.stderr_pipe) [
        | inr c ↦ rw (a, b, c) (os, is_down no_stderr, refl, v, refl)
        | inl c ↦ elim (Bool-cases l.starts) [
          | inr d ↦ rw (a, b, c, d) (os, is_down no_start, refl, v, refl)
          | inl d ↦ rw (a, b, c, d) (keep_ready-Settles os (await_ready j l.line) v)
        ]
      ]
    ]
  ]

  unfoldable pub attempt : Turn → Attempt
  unfolding launch_version
  attempt t = record {
    stopped_before = t.stopped_before;
    started = launch_version j t.launch;
    stopped_after = t.stopped_after;
  }

  unfoldable pub attempts : List Turn → List Attempt
  attempts [] = []
  attempts (t ∷ ts) = attempt t ∷ attempts ts

  -- How `spawn` ends, and that it keeps the process of the worker that it returns, and no other.
  unfoldable pub spawn_end : Option (Os × Option Worker) → Spawn
  spawn_end none = trying
  spawn_end (some (os, none)) = stopped
  spawn_end (some (os, some w)) = ready w.headroom_version

  abbrev pub Leaves : Option (Os × Option Worker) → Type 0
  Leaves none = Unit
  Leaves (some (os, w)) = Employs w os

  abbrev Ends : ℕ → List Turn → Os → Type 0
  Ends b ts os =
      (spawn_end (spawn_process j platform ts os) ≡ (spawn b (attempts ts)).0)
      × Leaves (spawn_process j platform ts os)

  spawn_turn :
      (b : ℕ) (t : Turn) (ts : List Turn) (os os' : Os) (s : Started)
      → t.stopped_before ≡ false
      → start_worker j platform t.launch os ≡ some (os', s)
      → Employs (worker_of s) os'
      → version_of s ≡ launch_version j t.launch
      → (Employs none os' → Ends (next_backoff b) ts os')
      → Ends b (t ∷ ts) os
  unfolding spawn_process spawn attempts attempt spawn_end worker_of version_of
  spawn_turn b t ts os os' (is_up w) p h own ver ih = rw (p, h, ← ver) (refl, own)
  spawn_turn b t ts os os' (is_down e) p h own ver ih = elim (Bool-cases t.stopped_after) [
    | inl q ↦ rw (p, h, ← ver, q) (refl, own)
    | inr q ↦ rw (p, h, ← ver, q) (ih own)
  ]

  -- `spawn` with its processes ends the way `spawn` does on what its starts come to, whatever the wait
  -- between them: so each start returns, one that fails too. From a state in which no process is left
  -- it leaves that of the worker which it returns, and no other; all that it started besides, because
  -- they did not get ready, were killed and waited for, once.
  pub spawn_process-spawn :
      (b : ℕ) (ts : List Turn) (os : Os)
      → Employs none os
      → (spawn_end (spawn_process j platform ts os) ≡ (spawn b (attempts ts)).0)
        × Leaves (spawn_process j platform ts os)
  unfolding spawn_process spawn attempts attempt spawn_end worker_of version_of
  spawn_process-spawn b [] os v = (refl, tt)
  spawn_process-spawn b (t ∷ ts) os v = elim (Bool-cases t.stopped_before) [
    | inl p ↦ rw p (refl, v)
    | inr p ↦
        let (os', s, h, own, ver) = start_worker-Settles t.launch os v in
        spawn_turn b t ts os os' s p h own ver (spawn_process-spawn (next_backoff b) ts os')
  ]
