-- ===== src/Config/Texts.antt =====
-- The texts of the single values of settings.
use tsheadroom.Prelude.{
  ℕ, ◌-◌, ◌<◌, Bytes, Bool, true, false, [], ◌∷◌, Option, none, some, ◌≡◌, refl, ap, ◌∙◌, inl, inr,
  arith, Bool-cases, All,
}
use tsheadroom.Prelude.Lines.{IsLine}
use tsheadroom.Go.Int64.{Int64, is_negative, word}
use tsheadroom.Go.Strconv.{itoa, atoi, atoi-itoa, atoi-minus, is_digit}
use tsheadroom.Go.Strconv.Digits.{itoa-digits}
use tsheadroom.Config.Json.{bool_text, int_text, or_null}

digits-IsLine : (s : Bytes) → All (λ c. is_digit c ≡ true) s → IsLine s
unfolding is_digit
digits-IsLine [] v = tt
digits-IsLine (c ∷ s) (v, vs) = (ground arith, digits-IsLine s vs)

itoa-IsLine : (n : ℕ) → IsLine (itoa n)
itoa-IsLine n = digits-IsLine (itoa n) (itoa-digits n)

pub int_text-IsLine : (n : Int64) → IsLine (int_text n)
unfolding int_text
int_text-IsLine n = elim (Bool-cases (is_negative n)) [
  | inl q ↦ rw q (refl, itoa-IsLine (word - n))
  | inr q ↦ rw q (itoa-IsLine n)
]

pub bool_text-IsLine : (b : Bool) → IsLine (bool_text b)
unfolding bool_text
bool_text-IsLine true = (refl, (refl, (refl, (refl, tt))))
bool_text-IsLine false = (refl, (refl, (refl, (refl, (refl, tt)))))

pub or_null-IsLine {ℓ} :
    {A : Type ℓ} (text : A → Bytes) (x : Option A)
    → ((a : A) → IsLine (text a))
    → IsLine (or_null text x)
unfolding or_null
or_null-IsLine text none v = (refl, (refl, (refl, (refl, tt))))
or_null-IsLine text (some a) v = v a

-- A word reads back.
pub atoi-int_text : (n : Int64) → n < word → atoi (int_text n) ≡ some n
unfolding int_text is_negative
atoi-int_text n h = elim (Bool-cases (is_negative n)) [
  | inl q ↦ rw q (atoi-minus (word - n) (ground arith) ∙ ap some (omega arith))
  | inr q ↦ rw q (atoi-itoa n (ground arith))
]
