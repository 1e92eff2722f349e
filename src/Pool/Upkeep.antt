-- ===== src/Pool/Upkeep.antt =====
-- The processes of a slot from one event to the next.
use tsheadroom.Prelude.{
  ℕ, Bool, true, false, List, Option, none, some, ◌≡◌, refl, sym, ap, ◌∙◌, arith,
}
use tsheadroom.Go.Json.{Json}
use tsheadroom.Protocol.{CompressResult}
use tsheadroom.Pool.{
  Job, Phase, waiting, calling, Slot, Effect, quiet, reply, call, spawned, take_job, take_queued,
  returned, leave, spawn_returns, do_returns, takes_queued, leaves, slot_step, enqueue, drain,
}
use tsheadroom.Pool.Process.{Platform, Os, exits, Ending, Worker, Turn, spawn_process}
use tsheadroom.Pool.Reaping.{Employs, exits-Employs, kill-Employs, shutdown-Employs}
use tsheadroom.Pool.Hiring.{spawn_process-spawn}
use tsheadroom.Pool.Crew.{
  Crew, CrewEvent, spawns, calls, takes, process_ends, is_drained, is_given, is_sent, returns,
  with_step, has_worker, spawned_worker, without_worker, after_call, after_return, ended_process,
  crew_step,
}

-- Whether `w` is a worker, going by where the slot is in its loop.
unfoldable pub phase_worker : Phase → Bool
phase_worker (waiting w) = w
phase_worker (calling j) = true
phase_worker _ = false

-- The slot has a worker where its loop says so, and has waited once for every other process.
pub record IsManned (c : Crew) : Type 0 where
  pub fits : has_worker c.worker ≡ phase_worker c.slot.phase
  pub employs : Employs c.worker c.os

-- Whether the call gave a result.
unfoldable pub is_result : Option CompressResult → Bool
is_result none = false
is_result (some r) = true

slot_spawned-fits :
    (done : Bool) (i : ℕ) (ok : Bool) (s : Slot) (e : Effect)
    → slot_step done i (spawn_returns ok) s ≡ some e
    → (phase_worker s.phase ≡ false) × (phase_worker e.slot.phase ≡ ok)
unfolding slot_step spawned quiet reply call phase_worker
slot_spawned-fits done i ok s e h = (ground arith, ground arith)

pub slot_returned-fits :
    (done : Bool) (i : ℕ) (r : Option CompressResult) (s : Slot) (e : Effect)
    → slot_step done i (do_returns r) s ≡ some e
    → phase_worker s.phase ≡ true
unfolding slot_step returned phase_worker
slot_returned-fits done i r s e h = ground arith

take_job-fits :
    (k : Job) (s : Slot) (e : Effect)
    → take_job k s s.phase ≡ some e
    → phase_worker e.slot.phase ≡ phase_worker s.phase
unfolding take_job quiet call phase_worker
take_job-fits k s e h = ground arith

slot_take-fits :
    (done : Bool) (i : ℕ) (s : Slot) (e : Effect)
    → slot_step done i takes_queued s ≡ some e
    → phase_worker e.slot.phase ≡ phase_worker s.phase
unfolding slot_step take_queued take_job quiet call phase_worker
slot_take-fits done i s e h = ground arith

enqueue-fits :
    (k : Job) (s : Slot) (e : Effect) → enqueue k s s.queue ≡ some e → e.slot.phase ≡ s.phase
unfolding enqueue quiet
enqueue-fits k s e h = ground arith

drain-fits : (s : Slot) (e : Effect) → drain s s.queue ≡ some e → e.slot.phase ≡ s.phase
unfolding drain reply
drain-fits s e h = ground arith

slot_leave-fits :
    (done : Bool) (i : ℕ) (s : Slot) (e : Effect)
    → slot_step done i leaves s ≡ some e
    → phase_worker e.slot.phase ≡ false
unfolding slot_step leave quiet phase_worker
slot_leave-fits done i s e h = ground arith

result-fits :
    (done : Bool) (i : ℕ) (r : Option CompressResult) (s : Slot) (e : Effect)
    → slot_step done i (do_returns r) s ≡ some e
    → phase_worker e.slot.phase ≡ is_result r
unfolding slot_step returned phase_worker is_result
result-fits done i r s e h = ground arith

-- The slot's step and the worker's happened.
with_step-both :
    (x : Option Effect) (r : Option (Os × Option Worker)) (c : Crew)
    → with_step x r ≡ some c
    → (e : Effect) × (x ≡ some e) × (c.slot ≡ e.slot) × (r ≡ some (c.os, c.worker))
unfolding with_step
with_step-both none r c h = cc h
with_step-both (some e) none c h = cc h
with_step-both (some e) (some (os, w)) c h = (e, refl, cc h, cc h)

nobody : (w : Option Worker) (os : Os) → has_worker w ≡ false → Employs w os → Employs none os
unfolding has_worker
nobody none os h v = v
nobody (some w) os h v = cc h

-- The worker's side of a step goes through, and leaves a worker or none.
abbrev pub GoesOn : Option (Os × Option Worker) → Bool → Type 0
GoesOn r b =
    (os : Os) × (w : Option Worker) × (r ≡ some (os, w)) × (has_worker w ≡ b) × Employs w os

pub after_call-GoesOn :
    (r : Option CompressResult) (w : Option Worker) (os : Os)
    → has_worker w ≡ true
    → Employs w os
    → GoesOn (after_call r w os) (is_result r)
unfolding after_call without_worker has_worker is_result
after_call-GoesOn (some res) w os a v = (os, w, refl, a, v)
after_call-GoesOn none none os a v = cc a
after_call-GoesOn none (some w) os a v =
    let (os', h, own) = kill-Employs w os v in (os', none, rw h refl, refl, own)

pub after_return-GoesOn :
    (ending : Ending) (w : Option Worker) (os : Os)
    → Employs w os
    → GoesOn (after_return ending w os) false
unfolding after_return without_worker has_worker
after_return-GoesOn ending none os v = (os, none, refl, refl, v)
after_return-GoesOn ending (some w) os v =
    let (os', h, own) = shutdown-Employs w ending os v in (os', none, rw h refl, refl, own)

-- A step at the slot, after which the loop says what the worker's side says.
went-IsManned :
    (x : Option Effect) (r : Option (Os × Option Worker)) (b : Bool) (c : Crew)
    → with_step x r ≡ some c
    → GoesOn r b
    → ((e : Effect) → x ≡ some e → phase_worker e.slot.phase ≡ b)
    → IsManned c
went-IsManned x r b c h (os, w, q, fits, own) after =
    let (e, s, p, q') = with_step-both x r c h in
    let same_os : c.os ≡ os = cc (q, q') in
    let same_worker : c.worker ≡ w = cc (q, q') in
    record {
      fits = rw (p, same_worker) (fits ∙ sym (after e s));
      employs = rw (same_os, same_worker) own;
    }

module _ (j : Json) (platform : Platform) (done : Bool) (i : ℕ) (c c' : Crew) where
  spawns-IsManned :
      (ts : List Turn)
      → crew_step j platform done i (spawns ts) c ≡ some c'
      → IsManned c
      → IsManned c'
  unfolding crew_step
  spawns-IsManned ts h v =
      let r = spawn_process j platform ts c.os in
      let (e, s, p, q) =
        with_step-both (slot_step done i (spawn_returns (spawned_worker r)) c.slot) r c' h in
      let (before, after) = slot_spawned-fits done i (spawned_worker r) c.slot e s in
      let (end, left) =
        spawn_process-spawn j platform 0 ts c.os
          (nobody c.worker c.os (v.fits ∙ before) v.employs) in
      record { fits = rw (p, after, q) (unfold spawned_worker in refl); employs = rw q at left }

  -- A step that leaves the worker alone.
  same-IsManned :
      (x : Option Effect)
      → with_step x (some (c.os, c.worker)) ≡ some c'
      → ((e : Effect) → x ≡ some e → phase_worker e.slot.phase ≡ phase_worker c.slot.phase)
      → IsManned c
      → IsManned c'
  same-IsManned x h after v =
      went-IsManned x (some (c.os, c.worker)) (phase_worker c.slot.phase) c' h
        (c.os, c.worker, refl, v.fits, v.employs) after

  calls-IsManned :
      (r : Option CompressResult)
      → crew_step j platform done i (calls r) c ≡ some c'
      → IsManned c
      → IsManned c'
  unfolding crew_step is_result
  calls-IsManned r h v =
      let (e, s, p, q) =
        with_step-both (slot_step done i (do_returns r) c.slot) (after_call r c.worker c.os) c' h in
      let a = v.fits ∙ slot_returned-fits done i r c.slot e s in
      went-IsManned (slot_step done i (do_returns r) c.slot) (after_call r c.worker c.os)
        (is_result r) c' h (after_call-GoesOn r c.worker c.os a v.employs)
        (λ e s. result-fits done i r c.slot e s)

  ends-IsManned :
      (w : Option Worker) → c.worker ≡ w → ended_process c w ≡ some c' → IsManned c → IsManned c'
  unfolding ended_process
  ends-IsManned none q h v = cc h
  ends-IsManned (some w) q h v =
      let e : c' ≡ record c { os = exits w.pid c.os } = cc h in
      rw e (record { fits = v.fits; employs = rw q (exits-Employs w c.os (rw q at v.employs)) })

  pub crew_step-IsManned :
      (e : CrewEvent) → crew_step j platform done i e c ≡ some c' → IsManned c → IsManned c'
  unfolding crew_step
  crew_step-IsManned (spawns ts) h v = spawns-IsManned ts h v
  crew_step-IsManned (calls r) h v = calls-IsManned r h v
  crew_step-IsManned takes h v = same-IsManned _ h (slot_take-fits done i c.slot) v
  crew_step-IsManned (is_given k) h v = same-IsManned _ h (take_job-fits k c.slot) v
  crew_step-IsManned (is_sent k) h v =
      same-IsManned _ h (λ e s. ap phase_worker (enqueue-fits k c.slot e s)) v
  crew_step-IsManned is_drained h v =
      same-IsManned _ h (λ e s. ap phase_worker (drain-fits c.slot e s)) v
  crew_step-IsManned (returns ending) h v =
      went-IsManned (slot_step done i leaves c.slot) (after_return ending c.worker c.os) false c' h
        (after_return-GoesOn ending c.worker c.os v.employs) (slot_leave-fits done i c.slot)
  crew_step-IsManned process_ends h v = ends-IsManned c.worker refl h v
