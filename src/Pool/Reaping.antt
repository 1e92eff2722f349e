-- ===== src/Pool/Reaping.antt =====
-- Which processes of a slot are left, before and after each operation on them.
use tsheadroom.Prelude.{
  ℕ, ◌+◌, ◌<◌, ◌≤◌, ◌==◌, ==_iff, Bytes, true, false, Option, none, some, ◌≡◌, ◌≢◌, ◌⊎◌, inl, inr,
  refl, sym, arith, Bool-cases,
}
use tsheadroom.Config.{update}
use tsheadroom.Pool.Process.{
  Platform, linux, other, set_proc_attr, running, ended, reaped, Process, blank_process, Os,
  with_process, end_life, exits, signal_kill, waited, wait, kill, close_stdin, Ending, in_time,
  overdue, both_ready, and_kill, await_end, shutdown, Worker, start,
}

-- A process that has ended, and for which `Wait` was called, once.
pub record IsSettled (p : Process) : Type 0 where
  pub gone : p.life ≡ reaped
  pub once : p.waits ≡ 1

-- A process that nobody has waited for, and that a signal to its group reaches.
pub record IsOwned (p : Process) : Type 0 where
  pub lives : (p.life ≡ running) ⊎ (p.life ≡ ended)
  pub unwaited : p.waits ≡ 0
  pub grouped : p.attr.setpgid ≡ true

abbrev pub IsPast : Os → ℕ → Type 0
IsPast os n =
    (n < os.started → IsSettled (os.process n)) × (os.started ≤ n → os.process n ≡ blank_process)

-- All processes are settled, but for that of the slot's worker, if it has one.
abbrev pub Employs : Option Worker → Os → Type 0
Employs none os = (n : ℕ) → IsPast os n
Employs (some w) os =
    (w.pid < os.started) × IsOwned (os.process w.pid) × ((n : ℕ) → n ≢ w.pid → IsPast os n)

at_same : (f : ℕ → Process) (n : ℕ) (p : Process) → update f n p n ≡ p
at_same f n p = rw ((==_iff n n).1 refl) refl

at_other : (f : ℕ → Process) (n m : ℕ) (p : Process) → m ≢ n → update f n p m ≡ f m
at_other f n m p h = elim (Bool-cases (n == m)) [
  | inl q ↦ absurd (h (sym ((==_iff n m).0 q)))
  | inr q ↦ rw q refl
]

module _ (w : Worker) (os : Os) where
  owned-Employs :
      (p : Process) → Employs (some w) os → IsOwned p → Employs (some w) (with_process w.pid p os)
  unfolding with_process
  owned-Employs p (lt, own, past) v = (
    lt,
    rw (at_same os.process w.pid p) v,
    λ n d. rw (at_other os.process w.pid n p d) (past n d),
  )

  settled-IsPast :
      (n : ℕ) (p : Process)
      → w.pid < os.started
      → IsSettled p
      → (n ≢ w.pid → IsPast os n)
      → IsPast (with_process w.pid p os) n
  unfolding with_process
  settled-IsPast n p lt v past = elim (Bool-cases (n == w.pid)) [
    | inl q ↦
        let e = (==_iff n w.pid).0 q in
        rw (e, at_same os.process w.pid p) (λ _. v, λ h. absurd (omega arith))
    | inr q ↦
        let d : n ≢ w.pid = λ e. cc (q, (==_iff n w.pid).1 e) in
        rw (at_other os.process w.pid n p d) (past d)
  ]

  pub exits-Employs : Employs (some w) os → Employs (some w) (exits w.pid os)
  unfolding exits end_life
  exits-Employs v =
      let (lt, own, past) = v in
      owned-Employs (record (os.process w.pid) { life = end_life (os.process w.pid).life }) v
        (record {
          lives = inr (elim own.lives [ inl q ↦ rw q refl | inr q ↦ rw q refl ]);
          unwaited = own.unwaited;
          grouped = own.grouped;
        })

  exits_ended : Employs (some w) os → ((exits w.pid os).process w.pid).life ≡ ended
  unfolding exits end_life with_process
  exits_ended (lt, own, past) = elim own.lives [
    | inl q ↦
        rw
          (
            at_same os.process w.pid
                (record (os.process w.pid) { life = end_life (os.process w.pid).life }),
            q,
          )
          refl
    | inr q ↦
        rw
          (
            at_same os.process w.pid
                (record (os.process w.pid) { life = end_life (os.process w.pid).life }),
            q,
          )
          refl
  ]

  wait-Employs :
      Employs (some w) os
      → (os.process w.pid).life ≡ ended
      → (os' : Os) × (wait w.pid os ≡ some os') × Employs none os' × (w.pid < os'.started)
  unfolding wait waited
  wait-Employs (lt, own, past) h =
      let p : Process = record (os.process w.pid) {
        life = reaped;
        waits = (os.process w.pid).waits + 1;
      } in
      let settled : IsSettled p = record { gone = refl; once = rw own.unwaited refl } in
      (
        with_process w.pid p os,
        rw (h, waited) refl,
        (λ n. settled-IsPast n p lt settled (past n)),
        unfold with_process in lt,
      )

  -- What was said of `wait`, for a process that ends.
  close_stdin-Employs : Employs (some w) os → Employs (some w) (close_stdin w.pid os)
  unfolding close_stdin
  close_stdin-Employs v =
      let (lt, own, past) = v in
      owned-Employs (record (os.process w.pid) { stdin_open = false }) v
        (record { lives = own.lives; unwaited = own.unwaited; grouped = own.grouped })

  signal_kill-exits : Employs (some w) os → signal_kill w.pid os ≡ exits w.pid os
  unfolding signal_kill
  signal_kill-exits (lt, own, past) = rw own.grouped refl

  -- A process that was waited for is beyond signals.
  exits_again : w.pid < os.started → Employs none os → Employs none (exits w.pid os)
  unfolding exits end_life
  exits_again lt v =
      let old = (v w.pid).0 lt in
      let p : Process = record (os.process w.pid) { life = end_life (os.process w.pid).life } in
      λ n. settled-IsPast n p lt (record { gone = rw old.gone refl; once = old.once }) (λ d. v n)

  signal_kill-Employs : w.pid < os.started → Employs none os → Employs none (signal_kill w.pid os)
  unfolding signal_kill
  signal_kill-Employs lt v = elim (Bool-cases (os.process w.pid).attr.setpgid) [
    | inl q ↦ rw q (exits_again lt v)
    | inr q ↦ rw q v
  ]

module _ (w : Worker) where
  -- A process that ends is waited for.
  exited-Employs :
      (os : Os)
      → Employs (some w) os
      → (os' : Os) × (wait w.pid (exits w.pid os) ≡ some os')
        × Employs none os'
        × (w.pid < os'.started)
  exited-Employs os v = wait-Employs w (exits w.pid os) (exits-Employs w os v) (exits_ended w os v)

  -- `kill` returns, with the process gone and waited for, once.
  pub kill-Employs :
      (os : Os) → Employs (some w) os → (os' : Os) × (kill w.pid os ≡ some os') × Employs none os'
  unfolding kill
  kill-Employs os v =
      let (os', h, done, lt) = exited-Employs os v in (os', rw (signal_kill-exits w os v) h, done)

  await_end-Employs :
      (ending : Ending) (os : Os)
      → Employs (some w) os
      → (os' : Os) × (await_end ending w.pid os ≡ some os') × Employs none os'
  unfolding await_end and_kill
  await_end-Employs in_time os v = let (os', h, done, lt) = exited-Employs os v in (os', h, done)
  await_end-Employs overdue os v =
      let (os', h, done, lt) = exited-Employs os v in (os', rw (signal_kill-exits w os v) h, done)
  await_end-Employs both_ready os v =
      let (os', h, done, lt) = exited-Employs os v in
      (signal_kill w.pid os', rw h refl, signal_kill-Employs w os' lt done)

  -- `shutdown` returns, however its select goes, with the process gone and waited for, once.
  pub shutdown-Employs :
      (ending : Ending) (os : Os)
      → Employs (some w) os
      → (os' : Os) × (shutdown ending w.pid os ≡ some os') × Employs none os'
  unfolding shutdown
  shutdown-Employs ending os v =
      await_end-Employs ending (close_stdin w.pid os) (close_stdin-Employs w os v)

grouped_attr : (platform : Platform) → (set_proc_attr platform).setpgid ≡ true
unfolding set_proc_attr
grouped_attr linux = refl
grouped_attr other = refl

pub start-Employs :
    (platform : Platform) (ver : Bytes) (os : Os)
    → Employs none os
    → Employs
        (some (record { pid = os.started; headroom_version = ver }))
        (start (set_proc_attr platform) os)
unfolding start
start-Employs platform ver os v =
    let p : Process = record {
      attr = set_proc_attr platform;
      life = running;
      stdin_open = true;
      waits = 0;
    } in
    (
      omega arith,
      rw (at_same os.process os.started p)
          (record { lives = inl refl; unwaited = refl; grouped = grouped_attr platform }),
      λ n d.
          rw (at_other os.process os.started n p d)
            ((λ lt. (v n).0 (ground arith)), λ le. (v n).1 (omega arith)),
    )
