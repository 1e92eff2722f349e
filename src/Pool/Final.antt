-- ===== src/Pool/Final.antt =====
-- What holds when `Shutdown` has returned.
use tsheadroom.Prelude.{List, ℕ, Bool, some, ◌≡◌, subst, All}
use tsheadroom.Pool.{stopped, Pool, new_pool}
use tsheadroom.Pool.Events.{Event, run_from}
use tsheadroom.Pool.Shutdown.{IsExited, IsQuiet, Moves-IsQuiet}
use tsheadroom.Pool.Steps.{run_from-keeps}

-- In every run, when `Shutdown` has returned, every slot goroutine has.
pub run_from-IsExited :
    (enabled : Bool) (size : ℕ) (es : List Event) (p : Pool)
    → run_from es (some (new_pool enabled size)) ≡ some p
    → p.main ≡ stopped
    → All IsExited p.slots
unfolding new_pool
run_from-IsExited enabled size es p h m =
    subst (IsQuiet p.slots) m
      (run_from-keeps (λ p. IsQuiet p.slots p.main) Moves-IsQuiet es (new_pool enabled size) p h tt)
