-- ===== src/Go/Strconv/Digits.antt =====
-- Which bytes a printed number has.
use tsheadroom.Prelude.{
  ℕ, zero, suc, ◌/◌, ◌%◌, true, Bytes, [], ◌∷◌, ◌≡◌, inl, inr, arith, ltb, Bool-cases, All,
}
use tsheadroom.Go.Strconv.Defs.{digit, digits, format_uint, itoa, is_digit}

digits-digits :
    (f n : ℕ) (acc : Bytes)
    → All (λ c. is_digit c ≡ true) acc
    → All (λ c. is_digit c ≡ true) (digits f 10 n acc)
unfolding digits digit is_digit
digits-digits zero n acc v = v
digits-digits (suc f) n acc v = elim (Bool-cases (ltb n 10)) [
  | inl small ↦ rw small (ground arith, v)
  | inr large ↦ rw large (digits-digits f (n / 10) (digit (n % 10) ∷ acc) (ground arith, v))
]

pub itoa-digits : (n : ℕ) → All (λ c. is_digit c ≡ true) (itoa n)
unfolding itoa format_uint
itoa-digits n = digits-digits (suc n) n [] tt
