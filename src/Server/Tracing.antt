-- ===== src/Server/Tracing.antt =====
-- A modified body, from the hook handler through the pool to the worker.
use tsheadroom.Prelude.{ℕ, Bytes, Bool, List, some, ◌≡◌, All}
use tsheadroom.Prelude.Dict.{Dict}
use tsheadroom.Go.Json.{Json}
use tsheadroom.Config.{View}
use tsheadroom.Handler.Process.{process}
use tsheadroom.Handler.Process.Outcomes.{request_of}
use tsheadroom.Handler.Process.Splice.{IsSplice, process-IsSplice}
use tsheadroom.Pool.Events.{Event}
use tsheadroom.Pool.Outcome.{pool_compressor}
use tsheadroom.Pool.Tracing.{IsMade, IsOther, calls_made, pool_compressor-IsMade}

module _ (j : Json) (config : View) (verbose : Bool) (body : Bytes) (enabled : Bool) (size k : ℕ)
    (before after : List Event) where
  -- What `process` asks of the pool, in the run in which it is call `k`.
  abbrev pub IsTraced : Dict Bytes → Type 0
  IsTraced b =
      let comp = pool_compressor enabled size k before after in
      (s : IsSplice j comp config verbose body b) × IsMade k
        (request_of j comp config verbose body s.call) s.res
        (calls_made enabled size k before after (request_of j comp config verbose body s.call))

  -- With the pool as its compressor, and whatever else the pool does before and after: the hook
  -- handler returns a modified body only if a slot of the pool has called its worker with the very
  -- request of this hook call, that is its messages as they stood, its model and the settings, and the
  -- worker has returned messages; these replace the old ones, and every other field is as it was.
  pub process-IsTraced :
      (b : Dict Bytes)
      → All (IsOther k) before
      → All (IsOther k) after
      → (process j (pool_compressor enabled size k before after) config verbose body).0.request_body
        ≡ some b
      → IsTraced b
  process-IsTraced b v w h =
      let comp = pool_compressor enabled size k before after in
      let s = process-IsSplice j comp config verbose body b h in
      (
        s,
        pool_compressor-IsMade enabled size k before after
            (request_of j comp config verbose body s.call) s.res v w s.compressed,
      )
