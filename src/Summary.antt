-- ===== src/Summary.antt =====
-- handler.go: the numbers of one hook call, for the verbose line and for the metrics.
use tsheadroom.Prelude.{ℕ, Bytes, codes, Bool, false, [], ◌-◌}
use tsheadroom.Go.Int64.{Int64, word}
use tsheadroom.Go.Float64.{Float64, zero_float}

pub record Summary : Type 0 where
  pub in_messages : ℕ
  pub in_bytes : ℕ
  pub out_bytes : ℕ
  pub wire_bytes : ℕ
  pub enc : Bytes
  pub provider : Bytes
  pub model : Bytes
  pub tokens_before : Int64
  pub tokens_saved : Int64
  pub tokens_after : Int64
  pub worker_ms : Float64
  pub cold : Bool
  pub model_limit : Int64
  pub slot : Int64
  pub reason : Bytes

-- -1
abbrev pub no_slot : Int64
no_slot = word - 1

-- The zero value of the struct, but for the slot that every literal in the source sets to -1.
abbrev pub blank : Summary
blank = record {
  in_messages = 0;
  in_bytes = 0;
  out_bytes = 0;
  wire_bytes = 0;
  enc = [];
  provider = [];
  model = [];
  tokens_before = 0;
  tokens_saved = 0;
  tokens_after = 0;
  worker_ms = zero_float;
  cold = false;
  model_limit = 0;
  slot = no_slot;
  reason = [];
}

abbrev pub modify_reason : Bytes
modify_reason = codes "modify"

abbrev pub noop_reason : Bytes
noop_reason = codes "allow(noop)"

abbrev pub error_reason : Bytes
error_reason = codes "allow(error)"

abbrev pub passthrough_reason : Bytes
passthrough_reason = codes "allow(passthrough)"

abbrev pub read_error_reason : Bytes
read_error_reason = codes "allow(read-error)"

abbrev pub decode_error_reason : Bytes
decode_error_reason = codes "allow(decode-error)"

abbrev pub reject_reason : Bytes
reject_reason = codes "reject(encoding)"
