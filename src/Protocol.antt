-- ===== src/Protocol.antt =====
-- pool.go: the request and the result of one compression, as handler and pool pass them.
use tsheadroom.Prelude.{Bytes, Bool, List, Option}
use tsheadroom.Go.Int64.{Int64}
use tsheadroom.Go.Float64.{Float64}
use tsheadroom.Config.{View}

-- `config` is what the copied settings read as when the request is encoded: Go keeps the struct, whose
-- pointers are followed only then.
pub record CompressRequest : Type 0 where
  pub messages : Bytes
  pub model : Bytes
  pub config : View
  pub affinity_key : Bytes

pub record CompressResult : Type 0 where
  pub messages : Bytes
  pub tokens_before : Int64
  pub tokens_after : Int64
  pub tokens_saved : Int64
  pub compression_ratio : Float64
  pub transforms_applied : List Bytes
  pub elapsed_ms : Float64
  pub cold_first_call : Bool
  pub model_limit : Int64
  pub slot : Int64

-- The handler's dependency; `none` is any error, which the handler treats alike.
abbrev pub Compressor : Type 0
Compressor = CompressRequest → Option CompressResult
