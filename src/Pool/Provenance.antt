-- ===== src/Pool/Provenance.antt =====
-- Where the results that the pool sends come from.
use tsheadroom.Prelude.{
  sym, ℕ, zero, suc, ◌++◌, Bool, List, [], ◌∷◌, Option, none, some, ◌≡◌, refl, ap, ◌∙◌, inl, inr,
  arith, Option-cases,
}
use tsheadroom.Protocol.{CompressResult}
use tsheadroom.Pool.{
  Job, JobResult, result, worker_failed, unavailable, shutting_down, Phase, calling, Slot, Pool,
  canceled, shift, Effect, quiet, call, reply, spawned, take_job, take_queued, returned, leave,
  SlotEvent, do_returns, slot_step, drain, head_effect, tail_effect, at_slot,
}
use tsheadroom.Pool.Events.{
  Event, begins, tries_affinity, gives_up, sees_shutdown, collects, handed_to, slot_moves,
  shutdown_moves, moved, step, run_from,
}
use tsheadroom.Pool.Moves.{
  slot_steps, Moves, client_moves, is_queued, is_handed, slot_moved, is_drained, main_moves,
}
use tsheadroom.Pool.Steps.{step-Moves, run_from-none, run_from-nil}

unfoldable pub slot_at : ℕ → List Slot → Option Slot
slot_at i [] = none
slot_at zero (s ∷ ss) = some s
slot_at (suc i) (s ∷ ss) = slot_at i ss

-- What a call returned, for the job that the slot was calling its worker with.
unfoldable pub called : ℕ → CompressResult → Phase → List (Job × CompressResult)
called i r (calling j) = (j, record r { slot = i }) ∷ []
called i r _ = []

unfoldable pub called_at : ℕ → CompressResult → Option Slot → List (Job × CompressResult)
called_at i r none = []
called_at i r (some s) = called i r s.phase

unfoldable pub logged_step : ℕ → SlotEvent → List Slot → List (Job × CompressResult)
logged_step i (do_returns (some r)) ss = called_at i r (slot_at i ss)
logged_step i _ ss = []

unfoldable pub logged : Event → Pool → List (Job × CompressResult)
logged (slot_moves i ev) p = logged_step i ev p.slots
logged _ p = []

-- The results that worker calls return in a run, the last one first, each with the job of that call,
-- stamped with the slot that made it, before those of `log`.
unfoldable pub call_log :
    List Event → Pool → List (Job × CompressResult) → List (Job × CompressResult)
call_log [] p log = log
call_log (e ∷ es) p log = elim (step e p) [
  | none ↦ log
  | some q ↦ call_log es q (logged e p ++ log)
]

unfoldable pub numbered : List (Job × CompressResult) → List (ℕ × CompressResult)
numbered [] = []
numbered ((j, r) ∷ rest) = (j.id, r) ∷ numbered rest

numbered-append :
    (xs ys : List (Job × CompressResult)) → numbered (xs ++ ys) ≡ numbered xs ++ numbered ys
unfolding numbered
numbered-append [] ys = refl
numbered-append ((j, r) ∷ xs) ys = ap (λ rs. (j.id, r) ∷ rs) (numbered-append xs ys)

-- The results among the replies.
unfoldable pub results : List (ℕ × JobResult) → List (ℕ × CompressResult)
results [] = []
results ((k, result r) ∷ rest) = (k, r) ∷ results rest
results ((k, _) ∷ rest) = results rest

results-append : (xs ys : List (ℕ × JobResult)) → results (xs ++ ys) ≡ results xs ++ results ys
unfolding results
results-append [] ys = refl
results-append ((k, result r) ∷ xs) ys = ap (λ rs. (k, r) ∷ rs) (results-append xs ys)
results-append ((k, worker_failed) ∷ xs) ys = results-append xs ys
results-append ((k, unavailable) ∷ xs) ys = results-append xs ys
results-append ((k, shutting_down) ∷ xs) ys = results-append xs ys

-- The slot that made a step.
at_slot-slot_at :
    (i : ℕ) (f : Slot → Option Effect) (ss ss' : List Slot) (x : Effect)
    → at_slot i f ss ≡ some (ss', x)
    → (s : Slot) × (slot_at i ss ≡ some s) × (f s ≡ some x)
unfolding at_slot slot_at head_effect tail_effect
at_slot-slot_at i f [] ss' x h = cc h
at_slot-slot_at zero f (s ∷ ss) ss' x h = elim (Option-cases (f s)) [
  | inl n ↦ cc (rw n at h)
  | inr (e, n) ↦ (s, refl, n ∙ ap some (let q : e ≡ x = cc (rw n at h) in q))
]
at_slot-slot_at (suc i) f (s ∷ ss) ss' x h = elim (Option-cases (at_slot i f ss)) [
  | inl n ↦ cc (rw n at h)
  | inr ((rest, e), n) ↦
      let q : e ≡ x = cc (rw n at h) in
      let (s', a, b) = at_slot-slot_at i f ss rest e n in (s', a, b ∙ ap some q)
]

slot_step-results :
    (done : Bool) (i : ℕ) (ev : SlotEvent) (s : Slot) (x : Effect) (ss : List Slot)
    → slot_at i ss ≡ some s
    → slot_step done i ev s ≡ some x
    → results x.sent ≡ numbered (logged_step i ev ss)
unfolding slot_step spawned take_job take_queued returned leave quiet reply call results logged_step
    numbered called_at called
slot_step-results done i ev s x ss a h = ground arith

drain-results : (s : Slot) (x : Effect) → drain s s.queue ≡ some x → results x.sent ≡ []
unfolding drain reply results
drain-results s x h = ground arith

-- Only a step of a slot sends a result.
other-results :
    (e : Event) (p q : Pool)
    → slot_steps e ≡ 0
    → Moves e p q
    → results q.replies ≡ results p.replies
other-results e p q z (client_moves n c a t h _) = rw h refl
other-results e p q z (is_queued n i req ss x a o c k h) = rw h refl
other-results e p q z (is_handed n i req ss x g a o c k h) = rw h refl
other-results e p q z (slot_moved i ev ss x a k h) = cc (z, a)
other-results e p q z (is_drained i ss x a d k h) =
    let (s, b, c) = at_slot-slot_at i (λ s. drain s s.queue) p.slots ss x k in
    rw h
      (results-append x.sent p.replies ∙ ap (λ rs. rs ++ results p.replies) (drain-results s x c))
other-results e p q z (main_moves m a n h) = rw h refl

moved-results :
    (i : ℕ) (ev : SlotEvent) (p q : Pool) (r : Option (List Slot × Effect))
    → at_slot i (slot_step (canceled p.main) i ev) p.slots ≡ r
    → moved p r ≡ some q
    → results q.replies ≡ numbered (logged_step i ev p.slots) ++ results p.replies
unfolding moved
moved-results i ev p q none k h = cc h
moved-results i ev p q (some (ss, x)) k h =
    let (s, b, c) = at_slot-slot_at i (slot_step (canceled p.main) i ev) p.slots ss x k in
    let e : q
        ≡ record p { slots = ss; busy = shift x.gauge p.busy; replies = x.sent ++ p.replies } =
      cc h in
    rw e (
      results-append x.sent p.replies
      ∙ ap (λ rs. rs ++ results p.replies)
          (slot_step-results (canceled p.main) i ev s x p.slots b c))

step-results :
    (e : Event) (p q : Pool)
    → step e p ≡ some q
    → results q.replies ≡ numbered (logged e p) ++ results p.replies
unfolding logged slot_steps step numbered
step-results (slot_moves i ev) p q h = moved-results i ev p q _ refl h
step-results (begins k req) p q h =
    other-results (begins k req) p q refl (step-Moves p q (begins k req) h)
step-results (tries_affinity k) p q h =
    other-results (tries_affinity k) p q refl (step-Moves p q (tries_affinity k) h)
step-results (handed_to k i) p q h =
    other-results (handed_to k i) p q refl (step-Moves p q (handed_to k i) h)
step-results (gives_up k) p q h =
    other-results (gives_up k) p q refl (step-Moves p q (gives_up k) h)
step-results (sees_shutdown k) p q h =
    other-results (sees_shutdown k) p q refl (step-Moves p q (sees_shutdown k) h)
step-results (collects k) p q h =
    other-results (collects k) p q refl (step-Moves p q (collects k) h)
step-results shutdown_moves p q h =
    other-results shutdown_moves p q refl (step-Moves p q shutdown_moves h)

pub run_from-results :
    (es : List Event) (p p' : Pool) (log : List (Job × CompressResult))
    → run_from es (some p) ≡ some p'
    → results p.replies ≡ numbered log
    → results p'.replies ≡ numbered (call_log es p log)
unfolding call_log run_from
run_from-results [] p p' log h v = rw (run_from-nil p p' h) v
run_from-results (e ∷ es) p p' log h v = elim (Option-cases (step e p)) [
  | inl n ↦ absurd (run_from-none es p' (rw (n, run_from) at h))
  | inr (q, n) ↦
      rw (n, call_log)
        (run_from-results es q p' (logged e p ++ log) (rw (n, run_from) at h) (
          step-results e p q n
          ∙ ap (λ rs. numbered (logged e p) ++ rs) v
          ∙ sym (numbered-append (logged e p) log)))
]
