-- ===== src/Go/Strings/Laws.antt =====
-- Laws of the string functions.
use tsheadroom.Prelude.{ℕ, ◌≡◌, ◌≢◌, refl, true, false, Bytes, [], ◌∷◌, ◌++◌, some, arith, All}
use tsheadroom.Go.Strings.{cut, lower, to_lower, first_field, split_n, str_le}

pub lower_idem : (c : ℕ) → lower (lower c) ≡ lower c
unfolding lower
lower_idem c = ground arith

pub to_lower_idem : (s : Bytes) → to_lower (to_lower s) ≡ to_lower s
unfolding to_lower
to_lower_idem [] = refl
to_lower_idem (c ∷ s) = cc (lower_idem c, to_lower_idem s)

pub cut-append :
    (sep : ℕ) (s t : Bytes) → All (λ c. c ≢ sep) s → cut sep (s ++ sep ∷ t) ≡ (s, some t)
unfolding cut
cut-append sep [] t h = ground arith
cut-append sep (c ∷ s) t h = ground (arith, cut-append sep s t h.1)

pub first_field_absent : (sep : ℕ) (s : Bytes) → All (λ c. c ≢ sep) s → first_field sep s ≡ s
unfolding first_field
first_field_absent sep [] h = refl
first_field_absent sep (c ∷ s) h = ground (arith, first_field_absent sep s h.1)

pub str_le_refl : (s : Bytes) → str_le s s ≡ true
unfolding str_le
str_le_refl [] = refl
str_le_refl (x ∷ s) = ground (arith, str_le_refl s)

pub str_le_total : (s t : Bytes) → str_le s t ≡ false → str_le t s ≡ true
unfolding str_le
str_le_total [] t h = cc
str_le_total (x ∷ s) [] h = refl
str_le_total (x ∷ s) (y ∷ t) h = ground (arith, str_le_total s t)

-- The first two fields and the rest.
pub split_n-three :
    (sep : ℕ) (s t u : Bytes)
    → All (λ c. c ≢ sep) s
    → All (λ c. c ≢ sep) t
    → split_n sep (s ++ sep ∷ (t ++ sep ∷ u)) 3 ≡ s ∷ t ∷ u ∷ []
unfolding split_n
split_n-three sep s t u h k =
    ground (arith, cut-append sep s (t ++ sep ∷ u) h, cut-append sep t u k)

pub str_le_antisym : (s t : Bytes) → str_le s t ≡ true → str_le t s ≡ true → s ≡ t
unfolding str_le
str_le_antisym [] [] h k = refl
str_le_antisym [] (y ∷ t) h k = cc k
str_le_antisym (x ∷ s) [] h k = cc h
str_le_antisym (x ∷ s) (y ∷ t) h k = ground (arith, str_le_antisym s t)

pub str_le_trans : (s t u : Bytes) → str_le s t ≡ true → str_le t u ≡ true → str_le s u ≡ true
unfolding str_le
str_le_trans [] t u h k = refl
str_le_trans (x ∷ s) [] u h k = cc h
str_le_trans (x ∷ s) (y ∷ t) [] h k = cc k
str_le_trans (x ∷ s) (y ∷ t) (z ∷ u) h k = ground (arith, str_le_trans s t u)
