-- ===== src/Pool/Lifecycle.antt =====
-- Whole lives of a slot, with its processes.
use tsheadroom.Prelude.{
  ℕ, ◌<◌, Bool, false, List, [], ◌∷◌, Option, none, some, ◌≡◌, ◌≢◌, inl, inr, refl, subst, ◌∙◌,
  arith, Option-cases,
}
use tsheadroom.Go.Json.{Json}
use tsheadroom.Pool.{exited, Effect, SlotEvent, do_returns, leaves, takes_queued, slot_step}
use tsheadroom.Pool.Process.{Platform, Os, Worker}
use tsheadroom.Pool.Reaping.{Employs, IsSettled}
use tsheadroom.Pool.Crew.{
  Crew, fresh_crew, CrewEvent, spawns, calls, takes, process_ends, is_drained, is_given, is_sent,
  returns, with_step, has_worker, after_call, after_return, crew_step, run_crew,
}
use tsheadroom.Pool.Upkeep.{
  phase_worker, IsManned, crew_step-IsManned, GoesOn, after_call-GoesOn, after_return-GoesOn,
  is_result, slot_returned-fits,
}

fresh-IsManned : IsManned fresh_crew
unfolding has_worker phase_worker
fresh-IsManned = record { fits = refl; employs = λ n. (λ h. absurd (omega arith), λ h. refl) }

no_worker : (w : Option Worker) (os : Os) → has_worker w ≡ false → Employs w os → Employs none os
unfolding has_worker
no_worker none os h v = v
no_worker (some w) os h v = cc h

none_left :
    (c : Crew)
    → IsManned c
    → c.slot.phase ≡ exited
    → (n : ℕ) → n < c.os.started
    → IsSettled (c.os.process n)
unfolding phase_worker
none_left c v h n lt = (no_worker c.worker c.os (rw h at v.fits) v.employs n).0 lt

step_goes :
    (x : Option Effect) (r : Option (Os × Option Worker)) (b : Bool) (e : Effect)
    → x ≡ some e
    → GoesOn r b
    → (c : Crew) × (with_step x r ≡ some c) × (c.slot ≡ e.slot)
unfolding with_step
step_goes x r b e h (os, w, q, fits, own) =
    (record { slot = e.slot; worker = w; os = os }, rw (h, q) refl, refl)

-- The step of the slot in an event that is one, but for `spawn`.
unfoldable pub slot_event : CrewEvent → Option SlotEvent
slot_event (calls r) = some (do_returns r)
slot_event takes = some takes_queued
slot_event (returns ending) = some leaves
slot_event _ = none

follows :
    (j : Json) (platform : Platform) (i : ℕ) (c : Crew) (done : Bool) (ev : CrewEvent)
    (sv : SlotEvent) (e : Effect)
    → IsManned c
    → slot_event ev ≡ some sv
    → slot_step done i sv c.slot ≡ some e
    → (c' : Crew) × (crew_step j platform done i ev c ≡ some c') × (c'.slot ≡ e.slot)
unfolding crew_step slot_event
follows j platform i c done (calls r) sv e v q s =
    let s' : slot_step done i (do_returns r) c.slot ≡ some e =
      rw (let x : sv ≡ do_returns r = cc q in x) at s in
    step_goes (slot_step done i (do_returns r) c.slot) (after_call r c.worker c.os) (is_result r) e
      s'
      (after_call-GoesOn r c.worker c.os (v.fits ∙ slot_returned-fits done i r c.slot e s')
        v.employs)
follows j platform i c done takes sv e v q s =
    let s' : slot_step done i takes_queued c.slot ≡ some e =
      rw (let x : sv ≡ takes_queued = cc q in x) at s in
    step_goes (slot_step done i takes_queued c.slot) (some (c.os, c.worker)) (has_worker c.worker) e
      s' (c.os, c.worker, refl, refl, v.employs)
follows j platform i c done (returns ending) sv e v q s =
    let s' : slot_step done i leaves c.slot ≡ some e = rw (let x : sv ≡ leaves = cc q in x) at s in
    step_goes (slot_step done i leaves c.slot) (after_return ending c.worker c.os) false e s'
      (after_return-GoesOn ending c.worker c.os v.employs)
follows j platform i c done (spawns ts) sv e v q s = cc q
follows j platform i c done process_ends sv e v q s = cc q
follows j platform i c done is_drained sv e v q s = cc q
follows j platform i c done (is_given k) sv e v q s = cc q
follows j platform i c done (is_sent k) sv e v q s = cc q

module _ (j : Json) (platform : Platform) (i : ℕ) where
  runs_none : (es : List (Bool × CrewEvent)) (c : Crew) → run_crew j platform i es none ≢ some c
  unfolding run_crew
  runs_none [] c h = cc h
  runs_none (e ∷ es) c h = cc h

  runs-IsManned :
      (es : List (Bool × CrewEvent)) (c c' : Crew)
      → run_crew j platform i es (some c) ≡ some c'
      → IsManned c
      → IsManned c'
  unfolding run_crew
  runs-IsManned [] c c' h v = let e : c ≡ c' = cc h in subst IsManned e v
  runs-IsManned ((done, e) ∷ es) c c' h v = elim (Option-cases (crew_step j platform done i e c)) [
    | inl n ↦ absurd (runs_none es c' (rw (n, run_crew) at h))
    | inr (d, n) ↦
        runs-IsManned es d c' (rw (n, run_crew) at h)
          (crew_step-IsManned j platform done i c d e n v)
  ]

  -- In every run of a slot, on either platform, whatever its workers and the system calls do: the slot
  -- has a worker exactly where `runSlot` says so, nobody has waited for that worker's process, and
  -- every other process that was started was waited for, once.
  pub run_crew-IsManned :
      (es : List (Bool × CrewEvent)) (c : Crew)
      → run_crew j platform i es (some fresh_crew) ≡ some c
      → IsManned c
  run_crew-IsManned es c h = runs-IsManned es fresh_crew c h fresh-IsManned

  -- When the goroutine of a slot has returned, every process that it started has ended and was waited
  -- for, once.
  pub run_crew-Reaps :
      (es : List (Bool × CrewEvent)) (c : Crew) (n : ℕ)
      → run_crew j platform i es (some fresh_crew) ≡ some c
      → c.slot.phase ≡ exited
      → n < c.os.started
      → IsSettled (c.os.process n)
  run_crew-Reaps es c n h x lt = none_left c (run_crew-IsManned es c h) x n lt

  -- In every run of a slot, neither the `kill` after a failed call nor the `shutdown` on the way out
  -- blocks it: wherever the slot of the pool's model can see `do` return, take a job or leave, the slot
  -- with its processes can do so too, however the select of `shutdown` goes, and its loop comes to the
  -- same place.
  pub run_crew-follows :
      (es : List (Bool × CrewEvent)) (c : Crew) (done : Bool) (ev : CrewEvent) (sv : SlotEvent)
      (e : Effect)
      → run_crew j platform i es (some fresh_crew) ≡ some c
      → slot_event ev ≡ some sv
      → slot_step done i sv c.slot ≡ some e
      → (c' : Crew) × (crew_step j platform done i ev c ≡ some c') × (c'.slot ≡ e.slot)
  run_crew-follows es c done ev sv e h q s =
      follows j platform i c done ev sv e (run_crew-IsManned es c h) q s
