-- ===== src/Pool/Shutdown.antt =====
-- The slots from the end of `wg.Wait` on.
use tsheadroom.Prelude.{
  ℕ, Bool, true, List, [], ◌∷◌, Option, some, ◌≡◌, ◌≢◌, subst, ◌∙◌, inl, inr, All, arith,
  Bool-cases,
}
use tsheadroom.Pool.{
  Job, Phase, exited, Slot, Main, serving, stopping, stopped, draining, Pool, canceled, Effect,
  quiet, reply, spawned, take_job, take_queued, returned, leave, SlotEvent, slot_step, enqueue,
  drain, at_slot,
}
use tsheadroom.Pool.Events.{Event, job, all_exited, is_exited}
use tsheadroom.Pool.Weights.{at_slot-IsStepped}
use tsheadroom.Pool.Moves.{
  NextMain, cancels, waited, next_channel, Moves, client_moves, is_queued, is_handed, slot_moved,
  is_drained, main_moves,
}

abbrev pub IsExited : Slot → Type 0
IsExited s = s.phase ≡ exited

-- From the end of `wg.Wait` on, every slot has returned.
abbrev pub IsQuiet : List Slot → Main → Type 0
IsQuiet ss serving = Unit
IsQuiet ss stopping = Unit
IsQuiet ss (draining i) = All IsExited ss
IsQuiet ss stopped = All IsExited ss

exited_from : (ph : Phase) → is_exited ph ≡ true → ph ≡ exited
unfolding is_exited
exited_from ph h = ground arith

pub all_exited-All : (ss : List Slot) → all_exited ss ≡ true → All IsExited ss
unfolding all_exited
all_exited-All [] h = tt
all_exited-All (s ∷ ss) h = elim (Bool-cases (is_exited s.phase)) [
  | inl q ↦ (exited_from s.phase q, all_exited-All ss (rw q at h))
  | inr q ↦ cc (rw q at h)
]

-- A slot that has returned makes no step of its own and takes no job from the shared channel.
take_job_exited : (j : Job) (s : Slot) (e : Effect) → IsExited s → take_job j s s.phase ≢ some e
unfolding take_job
take_job_exited j s e x h = ground arith

slot_step_exited :
    (done : Bool) (i : ℕ) (ev : SlotEvent) (s : Slot) (e : Effect)
    → IsExited s
    → slot_step done i ev s ≢ some e
unfolding slot_step spawned take_job take_queued returned leave
slot_step_exited done i ev s e x h = ground arith

-- A step that a slot that has returned cannot make cannot be made when all have.
pub at_slot_exited :
    (i : ℕ) (f : Slot → Option Effect) (ss ss' : List Slot) (e : Effect)
    → ((s : Slot) (e : Effect) → IsExited s → f s ≢ some e)
    → All IsExited ss
    → at_slot i f ss ≢ some (ss', e)
at_slot_exited i f ss ss' e stuck x h =
    let st = at_slot-IsStepped f i ss ss' e h in stuck st.old e (st.kept IsExited x).0 st.made

pub no_take :
    (i : ℕ) (j : Job) (ss ss' : List Slot) (e : Effect)
    → All IsExited ss
    → at_slot i (λ s. take_job j s s.phase) ss ≢ some (ss', e)
no_take i j ss ss' e = at_slot_exited i _ ss ss' e (take_job_exited j)

pub no_step :
    (done : Bool) (i : ℕ) (ev : SlotEvent) (ss ss' : List Slot) (e : Effect)
    → All IsExited ss
    → at_slot i (slot_step done i ev) ss ≢ some (ss', e)
no_step done i ev ss ss' e = at_slot_exited i _ ss ss' e (slot_step_exited done i ev)

-- A send to an affinity channel and a drain leave the goroutine where it is.
abbrev Stays : (Slot → Option Effect) → Type 0
Stays f = (s : Slot) (e : Effect) → f s ≡ some e → e.slot.phase ≡ s.phase

enqueue-Stays : (j : Job) → Stays (λ s. enqueue j s s.queue)
unfolding enqueue quiet
enqueue-Stays j s e h = ground arith

drain-Stays : Stays (λ s. drain s s.queue)
unfolding drain reply
drain-Stays s e h = ground arith

at_slot-IsExited :
    (i : ℕ) (f : Slot → Option Effect) (ss ss' : List Slot) (e : Effect)
    → Stays f
    → at_slot i f ss ≡ some (ss', e)
    → All IsExited ss
    → All IsExited ss'
at_slot-IsExited i f ss ss' e stay h x =
    let st = at_slot-IsStepped f i ss ss' e h in
    let (old, all) = st.kept IsExited x in all (stay st.old e st.made ∙ old)

IsQuiet-map :
    (ss ss' : List Slot) (m : Main)
    → (All IsExited ss → All IsExited ss')
    → IsQuiet ss m
    → IsQuiet ss' m
IsQuiet-map ss ss' serving f v = tt
IsQuiet-map ss ss' stopping f v = tt
IsQuiet-map ss ss' (draining i) f v = f v
IsQuiet-map ss ss' stopped f v = f v

NextMain-IsQuiet : (p : Pool) (m : Main) → NextMain p m → IsQuiet p.slots p.main → IsQuiet p.slots m
NextMain-IsQuiet p m (cancels a b) v = rw b tt
NextMain-IsQuiet p m (waited a x (inl b)) v = rw b (all_exited-All p.slots x)
NextMain-IsQuiet p m (waited a x (inr b)) v = rw b (all_exited-All p.slots x)
NextMain-IsQuiet p m (next_channel i a (inl b)) v = rw b (subst (IsQuiet p.slots) a v)
NextMain-IsQuiet p m (next_channel i a (inr b)) v = rw b (subst (IsQuiet p.slots) a v)

pub Moves-IsQuiet :
    (e : Event) (p p' : Pool) → Moves e p p' → IsQuiet p.slots p.main → IsQuiet p'.slots p'.main
Moves-IsQuiet e p p' (client_moves n c _ t q _) v = rw q v
Moves-IsQuiet e p p' (is_queued n i req ss x _ _ c h q) v = rw q (
    IsQuiet-map p.slots ss p.main (at_slot-IsExited i _ p.slots ss x (enqueue-Stays (job n req)) h)
      v)
Moves-IsQuiet e p p' (is_handed n i req ss x _ _ _ c h q) v =
    rw q (IsQuiet-map p.slots ss p.main (λ a. absurd (no_take i (job n req) p.slots ss x a h)) v)
Moves-IsQuiet e p p' (slot_moved i ev ss x _ h q) v = rw q (
    IsQuiet-map p.slots ss p.main (λ a. absurd (no_step (canceled p.main) i ev p.slots ss x a h)) v)
Moves-IsQuiet e p p' (is_drained i ss x _ _ h q) v =
    rw q (IsQuiet-map p.slots ss p.main (at_slot-IsExited i _ p.slots ss x drain-Stays h) v)
Moves-IsQuiet e p p' (main_moves m _ n q) v = rw q (NextMain-IsQuiet p m n v)
