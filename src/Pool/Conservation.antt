-- ===== src/Pool/Conservation.antt =====
-- How often a job is in what a slot holds and sends.
use tsheadroom.Prelude.{
  ℕ, ◌+◌, ◌==◌, ◌++◌, Bool, List, [], ◌∷◌, Option, none, some, ◌≡◌, arith, if◌then◌else◌,
}
use tsheadroom.Pool.{
  Job, JobResult, Phase, spawning_for, calling, recycling, Slot, Effect, quiet, reply, call,
  spawned, take_job, take_queued, returned, leave, SlotEvent, slot_step, enqueue, drain, at_slot,
}
use tsheadroom.Pool.Weights.{sum, at_slot-IsStepped}

module _ (k : ℕ) where
  -- How often a job of number `k` is in a place.
  unfoldable pub one : ℕ → ℕ
  one n = if n == k then 1 else 0

  unfoldable pub in_queue : Option Job → ℕ
  in_queue none = 0
  in_queue (some j) = one j.id

  unfoldable pub in_phase : Phase → ℕ
  in_phase (spawning_for j) = one j.id
  in_phase (calling j) = one j.id
  in_phase (recycling j) = one j.id
  in_phase _ = 0

  unfoldable pub in_slot : Slot → ℕ
  in_slot s = in_queue s.queue + in_phase s.phase

  unfoldable pub in_replies : List (ℕ × JobResult) → ℕ
  in_replies [] = 0
  in_replies ((n, r) ∷ rest) = one n + in_replies rest

  pub in_replies-append :
      (rs qs : List (ℕ × JobResult)) → in_replies (rs ++ qs) ≡ in_replies rs + in_replies qs
  unfolding in_replies
  in_replies-append [] qs = omega arith
  in_replies-append ((n, r) ∷ rs) qs = let ih = in_replies-append rs qs in omega arith

  -- What a slot holds and sends after a step, against `more` jobs than it held before.
  abbrev pub Balances : ℕ → (Slot → Option Effect) → Type 0
  Balances more f =
      (s : Slot) (e : Effect) → f s ≡ some e → in_slot e.slot + in_replies e.sent ≡ in_slot s + more

  pub slot_step-Balances : (done : Bool) (i : ℕ) (ev : SlotEvent) → Balances 0 (slot_step done i ev)
  unfolding slot_step spawned take_job take_queued returned leave quiet reply call in_slot in_queue
      in_phase in_replies
  slot_step-Balances done i ev s e h = ground arith

  pub take_job-Balances : (j : Job) → Balances (one j.id) (λ s. take_job j s s.phase)
  unfolding take_job quiet call in_slot in_queue in_phase in_replies
  take_job-Balances j s e h = ground arith

  pub enqueue-Balances : (j : Job) → Balances (one j.id) (λ s. enqueue j s s.queue)
  unfolding enqueue quiet in_slot in_queue in_replies
  enqueue-Balances j s e h = ground arith

  pub drain-Balances : Balances 0 (λ s. drain s s.queue)
  unfolding drain reply in_slot in_queue in_replies
  drain-Balances s e h = ground arith

  -- A balanced step at one slot balances the sum over all.
  pub sum-Balances :
      (more i : ℕ) (f : Slot → Option Effect) (ss ss' : List Slot) (e : Effect)
      → Balances more f
      → at_slot i f ss ≡ some (ss', e)
      → sum in_slot ss' + in_replies e.sent ≡ sum in_slot ss + more
  sum-Balances more i f ss ss' e b h =
      let st = at_slot-IsStepped f i ss ss' e h in
      omega (arith, st.sums in_slot, b st.old e st.made)
