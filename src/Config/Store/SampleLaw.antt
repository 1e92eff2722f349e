-- ===== src/Config/Store/SampleLaw.antt =====
-- The single values of the sample codec.
use tsheadroom.Prelude.{
  ℕ, ◌^◌, ◌<◌, ◌==◌, Bytes, codes, bytes_eq, Bool, true, false, [], ◌∷◌, Option, some, ◌≡◌, refl,
  arith, inl, inr, Bool-cases, All,
}
use tsheadroom.Prelude.Dict.{Dict}
use tsheadroom.Go.Int64.{Int64, word, is_negative}
use tsheadroom.Go.Strconv.{atoi, itoa, is_digit, in_range, negate, read_number}
use tsheadroom.Go.Strconv.Digits.{itoa-digits}
use tsheadroom.Go.Float64.{Float64}
use tsheadroom.Config.Json.{bool_text, int_text}
use tsheadroom.Config.Texts.{atoi-int_text}
use tsheadroom.Config.Store.SampleCodec.{sample_json, starts_null}
use tsheadroom.Config.Store.Restart.{Reads, IsCodec}

digits_not_null : (s : Bytes) → All (λ c. is_digit c ≡ true) s → starts_null s ≡ false
unfolding is_digit
digits_not_null [] v = refl
digits_not_null (c ∷ s) (v, vs) = ground arith

sample_ints : (n : Int64) → starts_null (int_text n) ≡ false
unfolding int_text
sample_ints n = elim (Bool-cases (is_negative n)) [
  | inl q ↦ rw q refl
  | inr q ↦ rw q (digits_not_null (itoa n) (itoa-digits n))
]

sample_bools : (b : Bool) → Reads sample_json sample_json.bool bool_text b
unfolding bool_text
sample_bools true = (refl, refl)
sample_bools false = (refl, refl)

in_range-lt : (limit : ℕ) (r : Option ℕ) (n : ℕ) → in_range limit r ≡ some n → n < limit
unfolding in_range
in_range-lt limit r n h = ground arith

negate-lt : (r : Option ℕ) (n : ℕ) → negate r ≡ some n → n < word
unfolding negate
negate-lt r n h = ground arith

sample_words : (raw : Bytes) (n : Int64) → atoi raw ≡ some n → n < word
unfolding atoi
sample_words [] n h = cc h
sample_words (c ∷ s) n h = elim (Bool-cases (c == b'-')) [
  | inl q ↦ negate-lt _ n (rw q at h)
  | inr q ↦ elim (Bool-cases (c == b'+')) [
    | inl p ↦ omega (arith, in_range-lt (2 ^ 63) (read_number s) n (rw (q, p) at h))
    | inr p ↦ omega (arith, in_range-lt (2 ^ 63) (read_number (c ∷ s)) n (rw (q, p) at h))
  ]
]

sample_floats :
    (raw : Bytes) (x : Float64)
    → sample_json.float raw ≡ some x
    → Reads sample_json sample_json.float sample_json.float_text x
unfolding bytes_eq
sample_floats raw x h = elim (Bool-cases (bytes_eq raw (codes "0"))) [
  | inl q ↦ (refl, rw q at h)
  | inr q ↦ cc (rw q at h)
]

sample_strings :
    (raw s : Bytes)
    → sample_json.string raw ≡ some s
    → Reads sample_json sample_json.string sample_json.quote s
unfolding bytes_eq
sample_strings raw s h = elim (Bool-cases (bytes_eq raw (codes "-"))) [
  | inl q ↦ (refl, rw q at h)
  | inr q ↦ cc (rw q at h)
]

-- The law is about the single values, so it holds for the codec with any other `fields`.
pub sample_law :
    (split : Bytes → Option (Dict Bytes)) → IsCodec (record sample_json { fields = split })
unfolding bytes_eq
sample_law split = record {
  null_reads = refl;
  bools = sample_bools;
  ints = λ n h. (sample_ints n, atoi-int_text n h);
  zero_reads = (refl, refl);
  empty_reads = (refl, refl);
  words = sample_words;
  floats = sample_floats;
  strings = sample_strings;
}
