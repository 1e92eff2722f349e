-- ===== src/Pool/Saturation.antt =====
-- The gauge of busy slots against the slots that are in a worker call.
use tsheadroom.Prelude.{
  ℕ, ◌+◌, ◌<◌, ◌≤◌, Bool, List, [], ◌∷◌, Option, some, ◌≡◌, sym, arith, length,
}
use tsheadroom.Go.Int64.{word, add, decrement}
use tsheadroom.Pool.{
  Job, Phase, starting, exited, waiting, spawning_for, calling, recycling, Slot, Gauge, same, up,
  down, Effect, shift, quiet, reply, call, spawned, take_job, take_queued, returned, leave,
  SlotEvent, slot_step, enqueue, drain, at_slot,
}
use tsheadroom.Pool.Weights.{sum, at_slot-IsStepped}

unfoldable pub phase_calls : Phase → ℕ
phase_calls (calling j) = 1
phase_calls _ = 0

unfoldable pub in_call : Slot → ℕ
in_call s = phase_calls s.phase

-- The calls before and after a step, by what the step does to the gauge.
abbrev pub Matches : Gauge → ℕ → ℕ → Type 0
Matches same a b = b ≡ a
Matches up a b = b ≡ a + 1
Matches down a b = b + 1 ≡ a

-- The gauge follows a step of a slot, or the step leaves both alone.
abbrev pub Gauged : (Slot → Option Effect) → Type 0
Gauged f = (s : Slot) (e : Effect) → f s ≡ some e → Matches e.gauge (in_call s) (in_call e.slot)

pub slot_step-Gauged : (done : Bool) (i : ℕ) (ev : SlotEvent) → Gauged (slot_step done i ev)
unfolding slot_step spawned take_job take_queued returned leave quiet reply call in_call phase_calls
slot_step-Gauged done i ev s e h = ground arith

pub take_job-Gauged : (j : Job) → Gauged (λ s. take_job j s s.phase)
unfolding take_job quiet call in_call phase_calls
take_job-Gauged j s e h = ground arith

pub drain-Gauged : Gauged (λ s. drain s s.queue)
unfolding drain reply in_call
drain-Gauged s e h = ground arith

-- A send to an affinity channel is no call.
enqueue-in_call :
    (j : Job) (s : Slot) (e : Effect) → enqueue j s s.queue ≡ some e → in_call e.slot ≡ in_call s
unfolding enqueue quiet in_call
enqueue-in_call j s e h = ground arith

pub sum-enqueue :
    (i : ℕ) (j : Job) (ss ss' : List Slot) (e : Effect)
    → at_slot i (λ s. enqueue j s s.queue) ss ≡ some (ss', e)
    → (sum in_call ss' ≡ sum in_call ss) × (length ss' ≡ length ss)
sum-enqueue i j ss ss' e h =
    let st = at_slot-IsStepped (λ s. enqueue j s s.queue) i ss ss' e h in
    (omega (arith, st.sums in_call, enqueue-in_call j st.old e st.made), st.lengths)

Matches-add : (g : Gauge) (a b x y : ℕ) → Matches g a b → y + a ≡ x + b → Matches g x y
Matches-add same a b x y h e = omega arith
Matches-add up a b x y h e = omega arith
Matches-add down a b x y h e = omega arith

-- What a step at one slot does to the number of calls.
pub sum-Matches :
    (i : ℕ) (f : Slot → Option Effect) (ss ss' : List Slot) (e : Effect)
    → Gauged f
    → at_slot i f ss ≡ some (ss', e)
    → Matches e.gauge (sum in_call ss) (sum in_call ss') × (length ss' ≡ length ss)
sum-Matches i f ss ss' e g h =
    let st = at_slot-IsStepped f i ss ss' e h in
    (
      Matches-add e.gauge (in_call st.old) (in_call e.slot) (sum in_call ss) (sum in_call ss')
          (g st.old e st.made) (st.sums in_call),
      st.lengths,
    )

phase_calls-le : (ph : Phase) → phase_calls ph ≤ 1
unfolding phase_calls
phase_calls-le starting = omega arith
phase_calls-le exited = omega arith
phase_calls-le (waiting w) = omega arith
phase_calls-le (spawning_for j) = omega arith
phase_calls-le (calling j) = omega arith
phase_calls-le (recycling j) = omega arith

-- The gauge cannot wrap around, since a slot is in one call at most.
pub sum-le : (ss : List Slot) → sum in_call ss ≤ length ss
unfolding sum in_call
sum-le [] = omega arith
sum-le (s ∷ ss) = let ih = sum-le ss in let one = phase_calls-le s.phase in omega arith

pub shift-Matches :
    (g : Gauge) (ss ss' : List Slot)
    → Matches g (sum in_call ss) (sum in_call ss')
    → length ss' ≡ length ss
    → length ss < word
    → shift g (sum in_call ss) ≡ sum in_call ss'
unfolding shift add decrement
shift-Matches same ss ss' h l b = sym h
shift-Matches up ss ss' h l b = let q = sum-le ss' in omega arith
shift-Matches down ss ss' h l b = let q = sum-le ss in omega arith
