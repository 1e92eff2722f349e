-- ===== src/Go/Strconv/Roundtrip.antt =====
-- Reading back what was printed.
use tsheadroom.Prelude.{
  ℕ, zero, suc, ◌+◌, ◌-◌, ◌*◌, ◌/◌, ◌%◌, ◌^◌, ◌<◌, ◌≡◌, ◌≢◌, Bytes, [], ◌∷◌, true, some, arith, All,
  ltb, Bool-cases, inl, inr,
}
use tsheadroom.Go.Strconv.Defs.{
  digit, digits, itoa, is_digit, read_digits, read_number, in_range, negate, atoi,
}

read_digits-digit :
    (a d : ℕ) (acc : Bytes) → d < 10 → read_digits a (digit d ∷ acc) ≡ read_digits (a * 10 + d) acc
unfolding read_digits digit
read_digits-digit a d acc h = ground arith

-- What `digits` puts in front reads as `n`.
read_digits-digits :
    (f n : ℕ) (acc : Bytes) → n < f → read_digits 0 (digits f 10 n acc) ≡ read_digits n acc
unfolding digits
read_digits-digits zero n acc h = absurd (omega arith)
read_digits-digits (suc f) n acc h = elim (Bool-cases (ltb n 10)) [
  | inl small ↦ rw small (ground (arith, read_digits-digit 0 n acc))
  | inr large ↦ rw large (
      ground (
        arith,
        read_digits-digits f (n / 10) (digit (n % 10) ∷ acc),
        read_digits-digit (n / 10) (n % 10) acc,
      ))
]

-- The first byte of a printed number is a digit.
digits-head :
    (f n : ℕ) (acc : Bytes)
    → n < f
    → (c : ℕ) × (s : Bytes) × (digits f 10 n acc ≡ c ∷ s) × (is_digit c ≡ true)
unfolding digits
digits-head zero n acc h = absurd (omega arith)
digits-head (suc f) n acc h = elim (Bool-cases (ltb n 10)) [
  | inl small ↦ (digit n, acc, rw small, unfold digit is_digit in ground arith)
  | inr large ↦ rw large (digits-head f (n / 10) (digit (n % 10) ∷ acc) (ground arith))
]

atoi-digit :
    (c : ℕ) (s : Bytes) → is_digit c ≡ true → atoi (c ∷ s) ≡ in_range (2 ^ 63) (read_number (c ∷ s))
unfolding is_digit atoi
atoi-digit c s h = ground arith

read_number-itoa : (n : ℕ) → read_number (itoa n) ≡ some n
unfolding itoa read_number
read_number-itoa n =
    let (c, s, e, d) = digits-head (suc n) n [] (omega arith) in
    cc (e, read_digits-digits (suc n) n [] (omega arith))

-- `Atoi` reads back what `Itoa` printed, for every int that is not negative.
pub atoi-itoa : (n : ℕ) → n < 2 ^ 63 → atoi (itoa n) ≡ some n
unfolding itoa in_range
atoi-itoa n h =
    let (c, s, e, d) = digits-head (suc n) n [] (omega arith) in
    ground (arith, e, atoi-digit c s d, read_number-itoa n, h)

-- So it does with a minus sign, which stands for the complement.
pub atoi-minus : (n : ℕ) → n < 2 ^ 63 + 1 → atoi (b'-' ∷ itoa n) ≡ some ((2 ^ 64 - n) % 2 ^ 64)
unfolding atoi in_range negate
atoi-minus n h = ground (arith, read_number-itoa n)

-- A printed number holds no other byte than digits.
pub digit-ne-dot :
    (f n : ℕ) (acc : Bytes) → All (λ c. c ≢ b'.') acc → All (λ c. c ≢ b'.') (digits f 10 n acc)
unfolding digits
digit-ne-dot zero n acc h = h
digit-ne-dot (suc f) n acc h = elim (Bool-cases (ltb n 10)) [
  | inl small ↦ rw small ((unfold digit in ground arith), h)
  | inr large ↦
      rw large (digit-ne-dot f (n / 10) (digit (n % 10) ∷ acc) ((unfold digit in ground arith), h))
]
