-- ===== src/Prelude/Lines.antt =====
-- Bytes as lines.
use tsheadroom.Prelude.{
  ℕ, ◌==◌, ◌++◌, Bytes, false, List, [], ◌∷◌, ◌≡◌, refl, All, All-append, if◌then◌else◌,
}
use tsheadroom.Go.Strings.{join}

-- Bytes without a line feed.
abbrev pub IsLine : Bytes → Type 0
IsLine b = All (λ c. (c == 10) ≡ false) b

-- A line as it is written.
abbrev pub framed : Bytes → Bytes
framed line = line ++ 10 ∷ []

unfoldable pub with_char : ℕ → List Bytes → List Bytes
with_char c [] = []
with_char c (l ∷ ls) = (c ∷ l) ∷ ls

-- The lines of a stream, each without its line feed. What no line feed ends is not a line.
unfoldable pub lines : Bytes → List Bytes
unfolding with_char
lines [] = []
lines (c ∷ cs) = let later = lines cs in if c == 10 then [] ∷ later else with_char c later

pub lines-framed :
    (line rest : Bytes) → IsLine line → lines (framed line ++ rest) ≡ line ∷ lines rest
unfolding lines with_char
lines-framed [] rest v = refl
lines-framed (c ∷ cs) rest (h, hs) = rw (h, lines-framed cs rest hs) refl

pub lines-unfinished : (cs : Bytes) → IsLine cs → lines cs ≡ []
unfolding lines with_char
lines-unfinished [] v = refl
lines-unfinished (c ∷ cs) (h, hs) = rw (h, lines-unfinished cs hs) refl

append_three-IsLine :
    (xs ys zs : Bytes) → IsLine xs → IsLine ys → IsLine zs → IsLine (xs ++ (ys ++ zs))
append_three-IsLine xs ys zs u v w = All-append _ xs (ys ++ zs) u (All-append _ ys zs v w)

pub join-IsLine :
    (xs : List Bytes) (sep : Bytes) → All IsLine xs → IsLine sep → IsLine (join xs sep)
unfolding join
join-IsLine [] sep v w = tt
join-IsLine (x ∷ []) sep (v, vs) w = v
join-IsLine (x ∷ y ∷ xs) sep (v, vs) w =
    append_three-IsLine x sep (join (y ∷ xs) sep) v w (join-IsLine (y ∷ xs) sep vs w)
