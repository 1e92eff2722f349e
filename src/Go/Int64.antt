-- ===== src/Go/Int64.antt =====
-- Go's int and int64 on a 64-bit machine: the two's complement bit pattern, a number below 2 ^ 64.
use tsheadroom.Prelude.{ℕ, ◌+◌, ◌-◌, ◌%◌, ◌^◌, ◌<◌, ◌≡◌, Bool, ◌||◌, arith, leb, ◌==◌, not}

abbrev pub Int64 : Type 0
Int64 = ℕ

abbrev pub word : ℕ
word = 2 ^ 64

abbrev pub min_negative : ℕ
min_negative = 2 ^ 63

unfoldable pub add : Int64 → Int64 → Int64
add a b = (a + b) % word

-- `x--`
unfoldable pub decrement : Int64 → Int64
decrement a = (a + word - 1) % word

-- `x < 0`, `x <= 0`, `x > 0`
unfoldable pub is_negative : Int64 → Bool
is_negative a = leb min_negative a

unfoldable pub non_positive : Int64 → Bool
unfolding is_negative
non_positive a = a == 0 || is_negative a

unfoldable pub positive : Int64 → Bool
unfolding non_positive
positive a = not (non_positive a)

pub add-lt : (a b : Int64) → add a b < word
unfolding add
add-lt a b = omega arith

-- Sums that stay below 2 ^ 64 do not wrap.
pub add-eq : (a b : Int64) → a + b < word → add a b ≡ a + b
unfolding add
add-eq a b h = omega arith

pub decrement-eq : (a : Int64) → 0 < a → a < word → decrement a ≡ a - 1
unfolding decrement
decrement-eq a p h = omega arith
