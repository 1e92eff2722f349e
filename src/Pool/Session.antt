-- ===== src/Pool/Session.antt =====
-- pool.go: `readLine` on the worker's stdout, and the calls that a slot makes of one worker.
use tsheadroom.Prelude.{
  ℕ, ◌==◌, Bytes, Bool, true, false, ◌&&◌, List, [], ◌∷◌, Option, none, some, if◌then◌else◌,
}
use tsheadroom.Go.Int64.{Int64}
use tsheadroom.Go.Json.{Json}
use tsheadroom.Pool.Worker.{DoResult, returns, fails, do_request}

unfoldable pub with_byte : ℕ → Option (Bytes × Bytes) → Option (Bytes × Bytes)
with_byte c none = none
with_byte c (some (line, rest)) = some (c ∷ line, rest)

-- `ReadBytes('\n')`: the bytes up to the first line feed, with it, and what comes after; `none` if
-- the stream ends without one, which is an error.
unfoldable pub read_bytes : Bytes → Option (Bytes × Bytes)
read_bytes [] = none
read_bytes (c ∷ cs) =
    let later = with_byte c (read_bytes cs) in if c == 10 then some (c ∷ [], cs) else later

-- The worker's side of a slot: the number of the last request, and what the worker still writes.
pub record Session : Type 0 where
  pub next_id : Int64
  pub stdout : Bytes

-- Whether the request of a call is encoded and written, and whether its deadline is served first.
pub record Trial : Type 0 where
  pub encodes : Bool
  pub writes : Bool
  pub expired : Bool

unfoldable pub line_of : Option (Bytes × Bytes) → Option Bytes
line_of none = none
line_of (some (line, rest)) = some line

unfoldable pub rest_of : Bytes → Option (Bytes × Bytes) → Bytes
rest_of out none = []
rest_of out (some (line, rest)) = rest

-- `readLine`: the line, if it comes in time, and the stream after it.
unfoldable pub read_line : Bool → Bytes → Option Bytes × Bytes
read_line true out = (none, out)
read_line false out = (line_of (read_bytes out), rest_of out (read_bytes out))

-- `do` on the worker's streams. It reads once it has written.
unfoldable pub do_call : Json → Trial → Session → Session × DoResult
do_call j t s =
    let (line, rest) =
      if t.encodes && t.writes then read_line t.expired s.stdout else (none, s.stdout) in
    let (id, r) =
      do_request j (record { encodes = t.encodes; writes = t.writes; line = line }) s.next_id in
    (record { next_id = id; stdout = rest }, r)

-- The calls of one worker: the first that fails is the last, since the slot kills the worker.
unfoldable pub continue : List DoResult → DoResult → List DoResult
continue later (returns res) = returns res ∷ later
continue later (fails e) = fails e ∷ []

unfoldable pub calls : Json → List Trial → Session → List DoResult
calls j [] s = []
calls j (t ∷ ts) s = let (s', r) = do_call j t s in let later = calls j ts s' in continue later r
