-- ===== src/Pool/Routing.antt =====
-- pool.go: the slot of a conversation.
use tsheadroom.Prelude.{ℕ, ◌%◌, ◌^◌, ◌<◌, Bytes, ◌||◌, ◌==◌, arith, if◌then◌else◌}
use tsheadroom.Go.Int64.{Int64, non_positive}
use tsheadroom.Go.Hash.{sum32}

-- The modulus is taken on uint32.
unfoldable pub slot_for : Bytes → Int64 → ℕ
slot_for key size = if non_positive size || size == 1 then 0 else sum32 key % (size % 2 ^ 32)

-- A conversation is routed to a slot that exists, in every pool of at least one and fewer than 2 ^ 32
-- slots.
pub slot_for-lt : (key : Bytes) (size : Int64) → 0 < size → size < 2 ^ 32 → slot_for key size < size
unfolding slot_for
slot_for-lt key size p h = ground arith
