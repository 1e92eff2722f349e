-- ===== src/Pool/InStep.antt =====
-- The calls of one worker against the lines that it writes.
use tsheadroom.Prelude.{
  ℕ, ◌==◌, ==_iff, ◌++◌, Bytes, true, false, List, [], ◌∷◌, Option, none, some, ◌≡◌, ◌↔◌, refl, ap,
  sym, ◌∙◌, inl, inr, Bool-cases, All,
}
use tsheadroom.Prelude.Lines.{framed}
use tsheadroom.Go.Int64.{add}
use tsheadroom.Go.Json.{Json}
use tsheadroom.Protocol.{CompressResult}
use tsheadroom.Pool.Worker.{Envelope, Exchange, DoResult, returns, fails, do_request}
use tsheadroom.Pool.Exchange.{envelope_of, Answers, do_request-returns_iff}
use tsheadroom.Pool.Session.{
  with_byte, read_bytes, Trial, line_of, rest_of, read_line, do_call, continue, calls,
}

abbrev pub good : Trial
good = record { encodes = true; writes = true; expired = false }

-- A line without a line feed is read back whole.
pub read_bytes-framed :
    (line rest : Bytes)
    → All (λ c. (c == 10) ≡ false) line
    → read_bytes (framed line ++ rest) ≡ some (framed line, rest)
unfolding read_bytes with_byte
read_bytes-framed [] rest h = refl
read_bytes-framed (c ∷ cs) rest (h, hs) = rw (h, read_bytes-framed cs rest hs) refl

-- What `ReadBytes` takes off the stream is its first line.
abbrev IsFirstLine : Bytes → Bytes × Bytes → Type 0
IsFirstLine out (taken, rest) =
    (line : Bytes) × All (λ c. (c == 10) ≡ false) line
    × (taken ≡ framed line)
    × (out ≡ framed line ++ rest)

with_byte-some :
    (c : ℕ) (r : Option (Bytes × Bytes)) (p : Bytes × Bytes)
    → with_byte c r ≡ some p
    → (q : Bytes × Bytes) × (r ≡ some q) × (p ≡ (c ∷ q.0, q.1))
unfolding with_byte
with_byte-some c none p h = cc h
with_byte-some c (some (line, rest)) p h = ((line, rest), refl, cc h)

read_bytes-IsFirstLine :
    (out : Bytes) (p : Bytes × Bytes) → read_bytes out ≡ some p → IsFirstLine out p
unfolding read_bytes
read_bytes-IsFirstLine [] p h = cc h
read_bytes-IsFirstLine (c ∷ cs) p h = elim (Bool-cases (c == 10)) [
  | inl a ↦
      let q : p ≡ (c ∷ [], cs) = cc (rw a at h) in
      let e : c ≡ 10 = (==_iff c 10).0 a in rw q ([], tt, ap (λ c. c ∷ []) e, ap (λ c. c ∷ cs) e)
  | inr a ↦
      let (q, r, e) = with_byte-some c (read_bytes cs) p (rw a at h) in
      let (line, clean, t, o) = read_bytes-IsFirstLine cs q r in
      rw e (c ∷ line, (a, clean), ap (λ t. c ∷ t) t, ap (λ o. c ∷ o) o)
]

-- The lines of a worker that answers the requests from the one after `n` on, each with its own id.
abbrev pub InOrder : Json → ℕ → List Bytes → List CompressResult → Type 0
InOrder j n [] [] = Unit
InOrder j n (l ∷ ls) (r ∷ rs) =
    All (λ c. (c == 10) ≡ false) l
    × ((e : Envelope) × (envelope_of j (framed l) ≡ (e, true)) × Answers (add n 1) r e)
    × InOrder j (add n 1) ls rs
InOrder j n [] (r ∷ rs) = ⊥
InOrder j n (l ∷ ls) [] = ⊥

-- Lines, and what follows them.
unfoldable pub stream : List Bytes → Bytes → Bytes
stream [] rest = rest
stream (l ∷ ls) rest = framed l ++ stream ls rest

unfoldable pub good_calls : List CompressResult → List Trial
good_calls [] = []
good_calls (r ∷ rs) = good ∷ good_calls rs

unfoldable pub all_return : List CompressResult → List DoResult
all_return [] = []
all_return (r ∷ rs) = returns r ∷ all_return rs

abbrev pub IsServed : Json → ℕ → Bytes → List CompressResult → Type 0
IsServed j n out rs =
    (ls : List Bytes) × (rest : Bytes) × (out ≡ stream ls rest) × InOrder j n ls rs

continue-returns :
    (later : List DoResult) (x : DoResult) (r : CompressResult) (rs : List DoResult)
    → continue later x ≡ returns r ∷ rs
    → (x ≡ returns r) × (later ≡ rs)
unfolding continue
continue-returns later (returns res) r rs h = (cc h, cc h)
continue-returns later (fails e) r rs h = cc h

abbrev sent : Option Bytes → Exchange
sent line = record { encodes = true; writes = true; line = line }

module _ (j : Json) where
  -- A call whose line answers it.
  answered_call :
      (r : CompressResult) (n : ℕ) (out line rest : Bytes) (e : Envelope)
      → read_bytes out ≡ some (framed line, rest)
      → envelope_of j (framed line) ≡ (e, true)
      → Answers (add n 1) r e
      → do_call j good (record { next_id = n; stdout = out })
        ≡ (record { next_id = add n 1; stdout = rest }, returns r)
  unfolding do_call read_line line_of rest_of do_request
  answered_call r n out line rest e h d a =
      let x =
        (do_request-returns_iff j (sent (some (framed line))) n r).1
          (refl, refl, (framed line, refl, (e, d, a))) in
      rw h (ap (λ r. (record { next_id = add n 1; stdout = rest }, r)) x)

  served :
      (rs : List CompressResult) (ls : List Bytes) (n : ℕ) (out rest : Bytes)
      → out ≡ stream ls rest
      → InOrder j n ls rs
      → calls j (good_calls rs) (record { next_id = n; stdout = out }) ≡ all_return rs
  unfolding calls good_calls all_return stream continue
  served [] ls n out rest q v = refl
  served (r ∷ rs) [] n out rest q v = absurd v
  served (r ∷ rs) (l ∷ ls) n out rest q (clean, (e, d, a), v) =
      let h : read_bytes out ≡ some (framed l, stream ls rest) =
        ap read_bytes q ∙ read_bytes-framed l (stream ls rest) clean in
      let c = answered_call r n out l (stream ls rest) e h d a in
      rw c (ap (λ rs. returns r ∷ rs) (served rs ls (add n 1) (stream ls rest) rest refl v))

  -- The call's line is the first of the stream.
  call_line :
      (r : CompressResult) (n : ℕ) (out : Bytes) (x : Option (Bytes × Bytes))
      → read_bytes out ≡ x
      → (do_request j (sent (line_of x)) n).1 ≡ returns r
      → (l : Bytes) × (rest : Bytes) × All (λ c. (c == 10) ≡ false) l
        × (out ≡ framed l ++ rest)
        × (rest_of out x ≡ rest)
        × ((e : Envelope) × (envelope_of j (framed l) ≡ (e, true)) × Answers (add n 1) r e)
  unfolding line_of rest_of
  call_line r n out none q h =
      let (a, b, (line, c, v)) = (do_request-returns_iff j (sent none) n r).0 h in cc c
  call_line r n out (some (taken, rest)) q h =
      let (a, b, (line, c, (e, d, v))) = (do_request-returns_iff j (sent (some taken)) n r).0 h in
      let (l, clean, t, o) = read_bytes-IsFirstLine out (taken, rest) q in
      let same : line ≡ framed l = cc (c, t) in (l, rest, clean, o, refl, (e, rw same at d, v))

  in_order :
      (rs : List CompressResult) (n : ℕ) (out : Bytes)
      → calls j (good_calls rs) (record { next_id = n; stdout = out }) ≡ all_return rs
      → IsServed j n out rs
  unfolding calls good_calls all_return do_call read_line stream do_request
  in_order [] n out h = ([], out, refl, tt)
  in_order (r ∷ rs) n out h =
      let (x, later) =
        continue-returns _ (do_request j (sent (line_of (read_bytes out))) n).1 r (all_return rs)
          h in
      let (l, rest, clean, o, s, v) = call_line r n out (read_bytes out) refl x in
      let (ls, rest', q, vs) = in_order rs (add n 1) (rest_of out (read_bytes out)) later in
      (l ∷ ls, rest', o ∙ ap (λ rest. framed l ++ rest) (sym s ∙ q), (clean, v, vs))

  -- Calls of one worker that are all encoded, written and read in time return the results `rs`, in
  -- this order, exactly when the worker's output begins with one line for each call, and the k-th
  -- line is the ok response to the k-th request, with its id and the k-th result. So requests and
  -- answers stay in step, and a line too many, or one for another request, is never taken for an
  -- answer.
  pub calls-in_step :
      (rs : List CompressResult) (n : ℕ) (out : Bytes)
      → (calls j (good_calls rs) (record { next_id = n; stdout = out }) ≡ all_return rs)
        ↔ IsServed j n out rs
  calls-in_step rs n out = (in_order rs n out, λ (ls, rest, q, v). served rs ls n out rest q v)
