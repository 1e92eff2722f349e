-- ===== src/Go/Strings.antt =====
-- Package strings, on ASCII text: `SplitN`, `Split`, `Join`, `TrimSpace`, `ToLower`, `EqualFold`,
-- `TrimRight`, `TrimSuffix`, `ReplaceAll` and the order of `sort.Strings`.
pub mod Laws
use mathlib.Core.List.{reverse}
use tsheadroom.Prelude.{
  ℕ, zero, suc, ◌+◌, ◌-◌, Bool, true, false, ◌&&◌, ◌||◌, Bytes, List, [], ◌∷◌, ◌++◌, map, Option,
  none, some, ltb, leb, ◌==◌, bytes_eq, if◌then◌else◌,
}

-- The text before the first separator, and what follows it if there is one.
unfoldable pub cut : ℕ → Bytes → Bytes × Option Bytes
cut sep [] = ([], none)
cut sep (c ∷ s) = let (a, r) = cut sep s in if c == sep then ([], some s) else (c ∷ a, r)

-- `strings.SplitN(s, sep, n)` for a separator of one byte and n ≥ 0.
unfoldable pub split_n : ℕ → Bytes → ℕ → List Bytes
unfolding cut
split_n sep s zero = []
split_n sep s (suc zero) = s ∷ []
split_n sep s (suc (suc n)) =
    let (a, r) = cut sep s in elim r [ none ↦ a ∷ [] | some t ↦ a ∷ split_n sep t (suc n) ]

-- `strings.SplitN(s, sep, 2)[0]`.
unfoldable pub first_field : ℕ → Bytes → Bytes
unfolding cut
first_field sep s = (cut sep s).0

unfoldable pub cons_first : ℕ → List Bytes → List Bytes
cons_first c [] = (c ∷ []) ∷ []
cons_first c (x ∷ xs) = (c ∷ x) ∷ xs

-- `strings.Split(s, sep)` for a separator of one byte.
unfoldable pub split : ℕ → Bytes → List Bytes
unfolding cons_first
split sep [] = [] ∷ []
split sep (c ∷ s) = let rest = split sep s in if c == sep then [] ∷ rest else cons_first c rest

unfoldable pub join : List Bytes → Bytes → Bytes
join [] sep = []
join (x ∷ []) sep = x
join (x ∷ y ∷ xs) sep = x ++ (sep ++ join (y ∷ xs) sep)

-- ASCII white space: tab, line feed, vertical tab, form feed, carriage return, space.
unfoldable pub is_space : ℕ → Bool
is_space c = leb 9 c && leb c 13 || c == 32

unfoldable pub trim_left : (ℕ → Bool) → Bytes → Bytes
trim_left p [] = []
trim_left p (c ∷ s) = let rest = trim_left p s in if p c then rest else c ∷ s

unfoldable pub trim_right : (ℕ → Bool) → Bytes → Bytes
unfolding trim_left
trim_right p s = reverse (trim_left p (reverse s))

unfoldable pub trim_space : Bytes → Bytes
unfolding trim_left trim_right is_space
trim_space s = trim_right is_space (trim_left is_space s)

-- `strings.TrimSuffix(s, suffix)` for a suffix of one byte.
unfoldable pub trim_suffix : ℕ → Bytes → Bytes
trim_suffix x [] = []
trim_suffix x (c ∷ []) = if c == x then [] else c ∷ []
trim_suffix x (c ∷ d ∷ s) = c ∷ trim_suffix x (d ∷ s)

unfoldable pub lower : ℕ → ℕ
lower c = if leb b'A' c && leb c b'Z' then c + 32 else c

unfoldable pub to_lower : Bytes → Bytes
unfolding lower
to_lower s = map lower s

unfoldable pub equal_fold : Bytes → Bytes → Bool
unfolding to_lower bytes_eq
equal_fold s t = bytes_eq (to_lower s) (to_lower t)

-- `strings.ReplaceAll(s, old, new)` for an old text of one byte.
unfoldable pub replace_all : ℕ → Bytes → Bytes → Bytes
replace_all x new [] = []
replace_all x new (c ∷ s) = (if c == x then new else c ∷ []) ++ replace_all x new s

-- The order of strings by bytes.
unfoldable pub str_le : Bytes → Bytes → Bool
str_le [] t = true
str_le (x ∷ s) [] = false
str_le (x ∷ s) (y ∷ t) = ltb x y || x == y && str_le s t
