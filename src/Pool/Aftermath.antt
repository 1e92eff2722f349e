-- ===== src/Pool/Aftermath.antt =====
-- The pool after `Shutdown` has returned, and a job that comes too late.
use tsheadroom.Prelude.{
  ℕ, Bool, true, false, List, [], ◌∷◌, some, ◌≡◌, refl, subst, sym, All, bytes_eq,
}
use tsheadroom.Go.Int64.{add, non_positive}
use tsheadroom.Config.{update}
use tsheadroom.Protocol.{CompressRequest}
use tsheadroom.Pool.{
  Main, absent, accepted, checked, stopped, Pool, shift, head_effect, tail_effect, spawned, leave,
  quiet, enqueue, JobResult, new_pool, fresh_slots, canceled, spawn_returns, leaves, slot_step,
  drain, at_slot, exited,
}
use tsheadroom.Pool.Routing.{slot_for}
use tsheadroom.Pool.Events.{
  Event, begins, tries_affinity, slot_moves, shutdown_moves, job, begin, queued, affined, offer,
  moved, drained, shut, step, run_from, all_exited, is_exited,
}
use tsheadroom.Pool.Shutdown.{IsExited, IsQuiet, Moves-IsQuiet, no_step}
use tsheadroom.Pool.Final.{run_from-IsExited}
use tsheadroom.Pool.Moves.{
  NextMain, cancels, waited, next_channel, Moves, client_moves, is_queued, is_handed, slot_moved,
  is_drained, main_moves,
}
use tsheadroom.Pool.Steps.{run_from-keeps}

-- `Shutdown` has returned, with every slot, and the answers given are `rs`.
record IsOver (rs : List (ℕ × JobResult)) (p : Pool) : Type 0 where
  over : p.main ≡ stopped
  given : p.replies ≡ rs
  exits : All IsExited p.slots

-- There is no step of `Shutdown` after the last one.
NextMain-over : (p : Pool) (m : Main) → p.main ≡ stopped → ¬ NextMain p m
NextMain-over p m o (cancels a b) = cc (o, a)
NextMain-over p m o (waited a x b) = cc (o, a)
NextMain-over p m o (next_channel i a b) = cc (o, a)

Moves-over :
    (rs : List (ℕ × JobResult)) (e : Event) (p p' : Pool)
    → Moves e p p'
    → IsOver rs p
    → (p'.main ≡ stopped) × (p'.replies ≡ rs)
Moves-over rs e p p' (client_moves n c _ t q _) v = rw q (v.over, v.given)
Moves-over rs e p p' (is_queued n i req ss x _ _ c h q) v = rw q (v.over, v.given)
Moves-over rs e p p' (is_handed n i req ss x _ _ _ c h q) v = rw q (v.over, v.given)
Moves-over rs e p p' (slot_moved i ev ss x _ h q) v =
    absurd (no_step (canceled p.main) i ev p.slots ss x v.exits h)
Moves-over rs e p p' (is_drained i ss x _ d h q) v = absurd (let o = v.over in cc (o, d))
Moves-over rs e p p' (main_moves m _ n q) v = absurd (NextMain-over p m v.over n)

Moves-IsOver :
    (rs : List (ℕ × JobResult)) (e : Event) (p p' : Pool)
    → Moves e p p'
    → IsOver rs p
    → IsOver rs p'
Moves-IsOver rs e p p' mv v =
    let (o, g) = Moves-over rs e p p' mv v in
    record {
      over = o;
      given = g;
      exits =
          subst (IsQuiet p'.slots) o
            (Moves-IsQuiet e p p' mv (subst (IsQuiet p.slots) (sym v.over) v.exits));
    }

-- A pool of one slot is shut down between the test at the top of `dispatch` and the affinity send.
abbrev pub late : CompressRequest → List Event
late req =
    begins 0 req
    ∷ slot_moves 0 (spawn_returns true)
    ∷ shutdown_moves
    ∷ slot_moves 0 leaves
    ∷ shutdown_moves
    ∷ shutdown_moves
    ∷ tries_affinity 0
    ∷ []

-- Where this leaves the pool.
abbrev pub late_pool : CompressRequest → Pool
late_pool req = record {
  affinity_enabled = true;
  slots = record { queue = some (job 0 req); phase = exited } ∷ [];
  busy = 0;
  hits = 1;
  spills = 0;
  clients = update (update (λ k. absent) 0 (checked req)) 0 accepted;
  replies = [];
  main = stopped;
}

pub late_runs :
    (req : CompressRequest)
    → bytes_eq req.affinity_key [] ≡ false
    → run_from (late req) (some (new_pool true 1)) ≡ some (late_pool req)
unfolding run_from step begin at_slot tail_effect head_effect slot_step spawned leave shut
    all_exited is_exited drained moved drain offer queued enqueue slot_for non_positive canceled
    quiet fresh_slots new_pool add shift affined
late_runs req h = rw (h, run_from) refl

-- A job with an affinity key whose call of `Compress` passed the test at the top of `dispatch` just
-- before `Shutdown` was called may be queued once that has returned; and then, whatever happens, no
-- answer is sent.
pub late-unanswered :
    (req : CompressRequest) (more : List Event) (p : Pool)
    → bytes_eq req.affinity_key [] ≡ false
    → run_from more (some (late_pool req)) ≡ some p
    → (run_from (late req) (some (new_pool true 1)) ≡ some (late_pool req))
      × ((late_pool req).clients 0 ≡ accepted)
      × (p.replies ≡ [])
late-unanswered req more p h r = (
  late_runs req h,
  refl,
  (run_from-keeps (IsOver []) (Moves-IsOver []) more (late_pool req) p r
      (record { over = refl; given = refl; exits = (refl, tt) })).given,
)

-- After `Shutdown` has returned nothing is answered any more, in any run.
pub run_from-over :
    (enabled : Bool) (size : ℕ) (es more : List Event) (p p' : Pool)
    → run_from es (some (new_pool enabled size)) ≡ some p
    → p.main ≡ stopped
    → run_from more (some p) ≡ some p'
    → (p'.main ≡ stopped) × (p'.replies ≡ p.replies)
run_from-over enabled size es more p p' h m r =
    let v =
      run_from-keeps (IsOver p.replies) (Moves-IsOver p.replies) more p p' r
        (record { over = m; given = refl; exits = run_from-IsExited enabled size es p h m }) in
    (v.over, v.given)
