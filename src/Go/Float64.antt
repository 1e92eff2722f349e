-- ===== src/Go/Float64.antt =====
-- A finite float64, exactly: ± mantissa · 2 ^ (exponent - 1074). JSON has no other float.
use tsheadroom.Prelude.{ℕ, ◌*◌, ◌^◌, Bool, false, ◌||◌, ◌&&◌, not, ltb, ◌==◌, ◌≡◌, refl}

pub record Float64 : Type 0 where
  pub negative : Bool
  pub mantissa : ℕ
  pub exponent : ℕ

abbrev pub zero_float : Float64
zero_float = record { negative = false; mantissa = 0; exponent = 0 }

-- `f <= 0`
unfoldable pub non_positive : Float64 → Bool
non_positive f = f.negative || f.mantissa == 0

-- `f > 1`
unfoldable pub exceeds_one : Float64 → Bool
exceeds_one f = not f.negative && ltb (2 ^ 1074) (f.mantissa * 2 ^ f.exponent)

-- 1, 0.5 and 5
abbrev pub one_float : Float64
one_float = record { negative = false; mantissa = 1; exponent = 1074 }

abbrev pub half_float : Float64
half_float = record { negative = false; mantissa = 1; exponent = 1073 }

abbrev pub five_float : Float64
five_float = record { negative = false; mantissa = 5; exponent = 1074 }

bounds_of_ratio :
    exceeds_one one_float || exceeds_one half_float || not (exceeds_one five_float) ≡ false
unfolding exceeds_one
bounds_of_ratio = refl
