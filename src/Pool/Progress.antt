-- ===== src/Pool/Progress.antt =====
-- Which steps the slots can make, and the way to the end of a pool that is canceled.
use tsheadroom.Prelude.{
  ℕ, suc, ◌≤◌, ◌||◌, ◌++◌, Bool, true, false, not, List, [], ◌∷◌, Option, none, some, ◌≡◌, ◌⊎◌,
  refl, inl, inr, length, arith, Bool-cases,
}
use tsheadroom.Pool.{
  Phase, starting, exited, waiting, spawning_for, calling, recycling, Slot, Main, Pool, canceled,
  Effect, down, shift, worker_failed, unavailable, quiet, reply, spawned, returned, leave,
  SlotEvent, spawn_returns, do_returns, leaves, slot_step, head_effect, tail_effect, at_slot,
}
use tsheadroom.Pool.Events.{Event, slot_moves, moved, all_exited, is_exited, step, run_from}
use tsheadroom.Pool.Weights.{sum}
use tsheadroom.Pool.Moves.{
  NextMain, cancels, waited, next_channel, Moves, client_moves, is_queued, is_handed, slot_moved,
  is_drained, main_moves,
}
use tsheadroom.Pool.Steps.{run_from-keeps}
use tsheadroom.Pool.Work.{work, slot_run, slot_run-le}

-- A slot of which `P` holds can make a step, so a list in which one has it can.
module _ (P : Slot → Bool) where
  unfoldable pub any : List Slot → Bool
  any [] = false
  any (s ∷ ss) = P s || any ss

  pub any_steps :
      (F : ℕ → SlotEvent → Slot → Option Effect)
      → ((i : ℕ) (s : Slot) → P s ≡ true → (ev : SlotEvent) × (e : Effect) × (F i ev s ≡ some e))
      → (ss : List Slot) → any ss ≡ true
      → (i : ℕ) × (ev : SlotEvent) × (r : List Slot × Effect) × (at_slot i (F i ev) ss ≡ some r)
  unfolding any at_slot head_effect tail_effect
  any_steps F can [] h = cc h
  any_steps F can (s ∷ ss) h = elim (Bool-cases (P s)) [
    | inl q ↦ let (ev, e, m) = can 0 s q in (0, ev, (e.slot ∷ ss, e), rw (m, head_effect) refl)
    | inr q ↦
        let (i, ev, (ss', e), m) = any_steps (λ i. F (suc i)) (λ i. can (suc i)) ss (rw q at h) in
        (suc i, ev, (s ∷ ss', e), rw (m, tail_effect) refl)
  ]

-- Some slot can make a step.
abbrev pub CanStep : Pool → Type 0
CanStep p = (i : ℕ) × (ev : SlotEvent) × (q : Pool) × (step (slot_moves i ev) p ≡ some q)

pub any-CanStep :
    (P : Slot → Bool) (p : Pool)
    → ((i : ℕ) (s : Slot)
        → P s ≡ true
        → (ev : SlotEvent) × (e : Effect) × (slot_step (canceled p.main) i ev s ≡ some e))
    → any P p.slots ≡ true
    → CanStep p
unfolding step moved
any-CanStep P p can h =
    let (i, ev, (ss, e), m) = any_steps P (slot_step (canceled p.main)) can p.slots h in
    (
      i,
      ev,
      record p { slots = ss; busy = shift e.gauge p.busy; replies = e.sent ++ p.replies },
      rw (m, moved) refl,
    )

flipped : (b : Bool) → not b ≡ true → b ≡ false
flipped b h = ground arith

-- Once the pool is canceled, a slot that has not returned can make a step.
canceled_steps :
    (i : ℕ) (s : Slot) (ph : Phase)
    → s.phase ≡ ph
    → is_exited ph ≡ false
    → (ev : SlotEvent) × (e : Effect) × (slot_step true i ev s ≡ some e)
unfolding slot_step spawned returned leave is_exited
canceled_steps i s starting q h =
    (spawn_returns false, quiet (record s { phase = waiting false }), rw (q, spawned) refl)
canceled_steps i s exited q h = cc h
canceled_steps i s (waiting w) q h =
    (leaves, quiet (record s { phase = exited }), rw (q, leave) refl)
canceled_steps i s (spawning_for j) q h =
    (spawn_returns false, reply j unavailable (record s { phase = exited }), rw (q, spawned) refl)
canceled_steps i s (calling j) q h = (
  do_returns none,
  record { slot = record s { phase = recycling j }; sent = []; gauge = down },
  rw (q, returned) refl,
)
canceled_steps i s (recycling j) q h = (
  spawn_returns false,
  reply j worker_failed (record s { phase = waiting false }),
  rw (q, spawned) refl,
)

any-not_exited :
    (ss : List Slot) → all_exited ss ≡ false → any (λ s. not (is_exited s.phase)) ss ≡ true
unfolding any all_exited
any-not_exited [] h = cc h
any-not_exited (s ∷ ss) h = ground (arith, any-not_exited ss)

NextMain-canceled : (p : Pool) (m : Main) → NextMain p m → canceled m ≡ true
unfolding canceled
NextMain-canceled p m (cancels a b) = rw b refl
NextMain-canceled p m (waited a x (inl b)) = rw b refl
NextMain-canceled p m (waited a x (inr b)) = rw b refl
NextMain-canceled p m (next_channel i a (inl b)) = rw b refl
NextMain-canceled p m (next_channel i a (inr b)) = rw b refl

-- A pool stays canceled.
Moves-canceled :
    (e : Event) (p p' : Pool) → Moves e p p' → canceled p.main ≡ true → canceled p'.main ≡ true
Moves-canceled e p p' (client_moves n c _ t q _) v = rw q v
Moves-canceled e p p' (is_queued n i req ss x _ _ c h q) v = rw q v
Moves-canceled e p p' (is_handed n i req ss x _ _ _ c h q) v = rw q v
Moves-canceled e p p' (slot_moved i ev ss x _ h q) v = rw q v
Moves-canceled e p p' (is_drained i ss x _ _ h q) v = rw q v
Moves-canceled e p p' (main_moves m _ n q) v = rw q (NextMain-canceled p m n)

canceled-CanStep : (p : Pool) → canceled p.main ≡ true → all_exited p.slots ≡ false → CanStep p
canceled-CanStep p c h =
    any-CanStep (λ s. not (is_exited s.phase)) p
      (λ i s q. rw c (canceled_steps i s s.phase refl (flipped (is_exited s.phase) q)))
      (any-not_exited p.slots h)

-- Once the pool is canceled, the slots come to their end, whatever the order of their steps: there are
-- at most as many as the work that was left, and as long as a slot has not returned one can make a
-- step. So `wg.Wait` returns, if spawns and worker calls do.
pub stopping-terminates :
    (p p' : Pool) (ms : List (ℕ × SlotEvent))
    → canceled p.main ≡ true
    → run_from (slot_run ms) (some p) ≡ some p'
    → (length ms ≤ sum work p.slots) × ((all_exited p'.slots ≡ true) ⊎ CanStep p')
stopping-terminates p p' ms c h = (
  slot_run-le ms p p' h,
  elim (Bool-cases (all_exited p'.slots)) [
    | inl q ↦ inl q
    | inr q ↦ inr (
        canceled-CanStep p'
          (run_from-keeps (λ p. canceled p.main ≡ true) Moves-canceled (slot_run ms) p p' h c) q)
  ],
)
