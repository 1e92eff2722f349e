-- ===== src/Metrics/Export/Escape.antt =====
-- Label values: the three replacements are one pass, which can be undone.
use tsheadroom.Prelude.{
  ℕ, Bool, true, false, Option, none, some, ◌≡◌, refl, Bytes, [], ◌∷◌, ◌++◌, arith, ◌==◌,
  if◌then◌else◌,
}
use tsheadroom.Metrics.Export.{escape_label}

-- What stands for one byte.
pub escape_byte : ℕ → Bytes
escape_byte c =
    if c == 92
    then 92 ∷ 92 ∷ []
    else if c == 10
    then 92 ∷ b'n' ∷ []
    else if c == 34
    then 92 ∷ 34 ∷ []
    else c ∷ []

pub escape_each : Bytes → Bytes
escape_each [] = []
escape_each (c ∷ s) = escape_byte c ++ escape_each s

-- One pass over the bytes does what the three replacements do.
pub escape_label-eq : (s : Bytes) → escape_label s ≡ escape_each s
unfolding escape_label escape_each escape_byte
escape_label-eq [] = refl
escape_label-eq (c ∷ s) = ground (arith, escape_label-eq s)

-- A scraper's reading of a label value, up to the closing quote: the value, and what follows. The
-- flag is set after a backslash; a bare line feed is an error.
pub unescape : ℕ → ℕ
unescape c = if c == b'n' then 10 else c

pub prepend : ℕ → Option (Bytes × Bytes) → Option (Bytes × Bytes)
prepend c none = none
prepend c (some (v, rest)) = some (c ∷ v, rest)

pub read_label : Bool → Bytes → Option (Bytes × Bytes)
unfolding unescape prepend
read_label after [] = none
read_label true (c ∷ s) = prepend (unescape c) (read_label false s)
read_label false (c ∷ s) =
    let after = read_label true s in
    let rest = read_label false s in
    if c == 34
    then some ([], s)
    else if c == 92
    then after
    else if c == 10
    then none
    else prepend c rest

escape_each-read : (v rest : Bytes) → read_label false (escape_each v ++ 34 ∷ rest) ≡ some (v, rest)
unfolding read_label escape_each escape_byte
escape_each-read [] rest = refl
escape_each-read (c ∷ v) rest = ground (arith, escape_each-read v rest)

-- A scraper that reads an exported label value, up to the closing quote, gets back the value and
-- what follows it, whatever bytes the value holds.
pub read_label-escape_label :
    (v rest : Bytes) → read_label false (escape_label v ++ 34 ∷ rest) ≡ some (v, rest)
read_label-escape_label v rest = rw (escape_label-eq v) (escape_each-read v rest)
