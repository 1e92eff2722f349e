-- ===== src/Pool/Outcome.antt =====
-- pool.go: what `Compress` returns to its caller, once a run of the pool has brought it there.
use tsheadroom.Prelude.{ℕ, ◌==◌, ◌++◌, Bool, List, [], ◌∷◌, Option, none, some, if◌then◌else◌}
use tsheadroom.Protocol.{CompressResult, Compressor}
use tsheadroom.Pool.{JobResult, result, Client, collected, Pool, new_pool}
use tsheadroom.Pool.Events.{Event, begins, run_from}

-- A result, or `none` for an error.
unfoldable pub as_result : JobResult → Option CompressResult
as_result (result r) = some r
as_result _ = none

-- What comes out of the response channel of a job.
unfoldable pub response : ℕ → List (ℕ × JobResult) → Option CompressResult
response k [] = none
response k ((n, r) ∷ rest) = if n == k then as_result r else response k rest

-- `Compress` returns what it received from its channel, or an error if it was refused or gave up.
unfoldable pub compress_returns : ℕ → Pool → Client → Option CompressResult
compress_returns k p collected = response k p.replies
compress_returns k p _ = none

unfoldable pub compress_in : ℕ → Option Pool → Option CompressResult
compress_in k none = none
compress_in k (some p) = compress_returns k p (p.clients k)

-- The pool as the handler of call `k` sees it: the call begins after the events `before`, and the
-- events `after` follow.
unfoldable pub pool_compressor : Bool → ℕ → ℕ → List Event → List Event → Compressor
pool_compressor enabled size k before after req =
    compress_in k (run_from (before ++ begins k req ∷ after) (some (new_pool enabled size)))
