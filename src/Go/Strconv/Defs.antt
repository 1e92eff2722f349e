-- ===== src/Go/Strconv/Defs.antt =====
-- Digits are produced on fuel; the number itself plus one is enough, as each round divides it.
use tsheadroom.Prelude.{
  ℕ, zero, suc, ◌+◌, ◌-◌, ◌*◌, ◌/◌, ◌%◌, ◌^◌, Bytes, [], ◌∷◌, Bool, ◌&&◌, Option, none, some, ltb,
  leb, ◌==◌, if◌then◌else◌,
}

-- The digit for a value below 36.
unfoldable pub digit : ℕ → ℕ
digit d = if ltb d 10 then b'0' + d else b'a' + (d - 10)

-- Puts the digits of `n` in front of `acc`.
unfoldable pub digits : ℕ → ℕ → ℕ → Bytes → Bytes
unfolding digit
digits zero base n acc = acc
digits (suc f) base n acc =
    let rest = digits f base (n / base) (digit (n % base) ∷ acc) in
    if ltb n base then digit n ∷ acc else rest

-- `strconv.FormatUint(n, base)`.
unfoldable pub format_uint : ℕ → ℕ → Bytes
unfolding digits
format_uint n base = digits (suc n) base n []

unfoldable pub itoa : ℕ → Bytes
unfolding format_uint
itoa n = format_uint n 10

unfoldable pub is_digit : ℕ → Bool
is_digit c = leb b'0' c && leb c b'9'

unfoldable pub read_digits : ℕ → Bytes → Option ℕ
unfolding is_digit
read_digits acc [] = some acc
read_digits acc (c ∷ s) =
    let rest = read_digits (acc * 10 + (c - b'0')) s in if is_digit c then rest else none

-- The digits after the sign: at least one.
unfoldable pub read_number : Bytes → Option ℕ
unfolding read_digits
read_number [] = none
read_number (c ∷ s) = read_digits 0 (c ∷ s)

unfoldable pub in_range : ℕ → Option ℕ → Option ℕ
in_range limit none = none
in_range limit (some n) = if ltb n limit then some n else none

unfoldable pub negate : Option ℕ → Option ℕ
negate none = none
negate (some n) = some ((2 ^ 64 - n) % 2 ^ 64)

-- `strconv.Atoi`: the int as its 64-bit pattern, `none` for a syntax or range error.
unfoldable pub atoi : Bytes → Option ℕ
unfolding read_number in_range negate
atoi [] = none
atoi (c ∷ s) =
    if c == b'-'
    then negate (in_range (2 ^ 63 + 1) (read_number s))
    else if c == b'+'
    then in_range (2 ^ 63) (read_number s)
    else in_range (2 ^ 63) (read_number (c ∷ s))
