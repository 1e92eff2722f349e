-- ===== src/Go/Double.antt =====
-- Arithmetic on the float64 that are not negative, each a whole number of units of 2 ^ -62, rounded to
-- the nearest as IEEE 754 has it. The unit is fine enough for every value from 2 ^ -10 on (0.001 is
-- one), which has 53 bits in it. Infinity is left out.
use tsheadroom.Prelude.{
  ℕ, zero, suc, ◌+◌, ◌*◌, ◌^◌, ◌/◌, ◌%◌, true, false, ltb, if◌then◌else◌, ◌≡◌, refl,
}

abbrev one : ℕ
one = 2 ^ 62

-- The distance of two neighbours at `n`: the first doubling of `k` by which `n` has 53 bits. The largest
-- float64 has 1024 bits before the point, so 1086 doublings are enough.
unfoldable quantum : ℕ → ℕ → ℕ → ℕ
quantum zero n k = k
quantum (suc fuel) n k = elim (ltb n (2 ^ 53 * k)) [ true ↦ k | false ↦ quantum fuel n (2 * k) ]

-- The whole number that is nearest to n / d, and the even one of two.
unfoldable nearest : ℕ → ℕ → ℕ
nearest n d =
    let q = n / d in
    let r = n % d in if ltb (2 * r) d then q else if ltb d (2 * r) then q + 1 else q + q % 2

-- The float64 that is nearest to n / d units.
unfoldable rounded : ℕ → ℕ → ℕ
unfolding quantum nearest
rounded n d = let k = quantum 1086 (n / d) 1 in nearest n (d * k) * k

unfoldable pub add_float : ℕ → ℕ → ℕ
unfolding rounded
add_float a b = rounded (a + b) 1

-- `float64(us) / 1000`
unfoldable pub millis : ℕ → ℕ
unfolding rounded
millis us = rounded (rounded us 1 * one) 1000

-- `math.Round(f * 100) / 100`: of two whole numbers Round takes the larger.
unfoldable pub round_hundredths : ℕ → ℕ
unfolding rounded
round_hundredths f = rounded ((rounded (f * 100) 1 + 2 ^ 61) / one * one) 100

-- The digits of `%.2f`, as a number of hundredths.
unfoldable pub hundredths_of : ℕ → ℕ
unfolding nearest
hundredths_of f = nearest (f * 100) one

-- 1.005 is less than its decimals say, 0.1 + 0.2 is more.
below_half : hundredths_of (round_hundredths (millis 1005)) ≡ 100
unfolding hundredths_of round_hundredths millis rounded nearest quantum
below_half = refl

not_three_tenths : add_float (millis 100) (millis 200) ≡ millis 300 + 2 ^ 8
unfolding add_float millis rounded nearest quantum
not_three_tenths = refl
