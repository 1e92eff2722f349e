-- ===== src/Pool/Exchange.antt =====
-- Which responses of a worker are taken, and how long `spawn` waits.
use tsheadroom.Prelude.{
  ℕ, zero, suc, ◌+◌, ◌*◌, ◌≤◌, ◌<◌, Bytes, Bool, true, false, List, [], ◌∷◌, Option, none, some,
  ◌≡◌, ◌≢◌, ◌↔◌, refl, subst, sym, ap, ◌∙◌, inl, inr, arith, ltb, ◌==◌, ==_iff, Bool-cases,
  Option-cases, if◌then◌else◌,
}
use tsheadroom.Go.Int64.{Int64, word, add, add-eq}
use tsheadroom.Go.Json.{Json, unmarshal}
use tsheadroom.Protocol.{CompressResult}
use tsheadroom.Pool.Worker.{
  Envelope, empty_envelope, envelope_setters, Exchange, returns, check_envelope, read_response,
  do_request, initial_backoff, max_backoff, next_backoff, Attempt, spawn,
}

-- The envelope that a line of the worker holds.
abbrev pub envelope_of : Json → Bytes → Envelope × Bool
envelope_of j line = unmarshal j (envelope_setters j) line empty_envelope

-- A response without an error that carries the id and a result.
pub record Answers (id : Int64) (res : CompressResult) (e : Envelope) : Type 0 where
  pub same_id : e.id ≡ id
  pub good : e.ok ≡ true
  pub holds : e.result ≡ some res

check_envelope-Answers :
    (id : Int64) (e : Envelope) (res : CompressResult)
    → check_envelope id (e, true) ≡ returns res
    → Answers id res e
unfolding check_envelope
check_envelope-Answers id e res h = elim (Bool-cases (e.id == id)) [
  | inr a ↦ cc (rw a at h)
  | inl a ↦ elim (Bool-cases e.ok) [
    | inr b ↦ cc (rw (a, b) at h)
    | inl b ↦ elim (Option-cases e.result) [
      | inl c ↦ cc (rw (a, b, c) at h)
      | inr (r, c) ↦
          let q : returns r ≡ returns res = rw (a, b, c) at h in
          record { same_id = (==_iff e.id id).0 a; good = b; holds = c ∙ cc q }
    ]
  ]
]

Answers-check_envelope :
    (id : Int64) (e : Envelope) (res : CompressResult)
    → Answers id res e
    → check_envelope id (e, true) ≡ returns res
unfolding check_envelope
Answers-check_envelope id e res v =
    let a = (==_iff e.id id).1 v.same_id in let b = v.good in let c = v.holds in rw (a, b, c) refl

check_returned :
    (id : Int64) (r : Envelope × Bool) (res : CompressResult)
    → check_envelope id r ≡ returns res
    → (e : Envelope) × (r ≡ (e, true)) × Answers id res e
unfolding check_envelope
check_returned id (e, false) res h = cc h
check_returned id (e, true) res h = (e, refl, check_envelope-Answers id e res h)

-- The line of a call that returned.
abbrev Line : Json → Int64 → CompressResult → Option Bytes → Type 0
Line j id res l =
    (line : Bytes) × (l ≡ some line)
    × ((e : Envelope) × (envelope_of j line ≡ (e, true)) × Answers id res e)

read_returned :
    (j : Json) (id : Int64) (l : Option Bytes) (res : CompressResult)
    → read_response j id l ≡ returns res
    → Line j id res l
unfolding read_response
read_returned j id none res h = cc h
read_returned j id (some line) res h = (line, refl, check_returned id (envelope_of j line) res h)

read_returns :
    (j : Json) (id : Int64) (l : Option Bytes) (res : CompressResult)
    → Line j id res l
    → read_response j id l ≡ returns res
unfolding read_response
read_returns j id l res (line, h, (e, d, v)) =
    rw (h, read_response) (ap (check_envelope id) d ∙ Answers-check_envelope id e res v)

-- A call returns a result exactly when the request was encoded and written, a line came in time, and
-- it holds a response that carries the id of this request, says ok and has that result.
pub do_request-returns_iff :
    (j : Json) (x : Exchange) (n : Int64) (res : CompressResult)
    → ((do_request j x n).1 ≡ returns res) ↔ (
        (x.encodes ≡ true)
        × (x.writes ≡ true)
        × ((line : Bytes) × (x.line ≡ some line)
            × ((e : Envelope) × (envelope_of j line ≡ (e, true)) × Answers (add n 1) res e)))
unfolding do_request
do_request-returns_iff j x n res = (
  λ h. elim (Bool-cases x.encodes) [
    | inr a ↦ cc (rw a at h)
    | inl a ↦ elim (Bool-cases x.writes) [
      | inr b ↦ cc (rw (a, b) at h)
      | inl b ↦ (a, b, read_returned j (add n 1) x.line res (rw (a, b) at h))
    ]
  ],
  λ (a, b, v). rw (a, b) (read_returns j (add n 1) x.line res v),
)

-- A line that holds a response with an id up to the last one used, so an answer to an earlier request
-- of this worker, is never returned as a result, as long as the ids have not wrapped around.
pub do_request-stale :
    (j : Json) (x : Exchange) (n m : Int64) (line : Bytes) (e : Envelope) (res : CompressResult)
    → m ≤ n
    → n + 1 < word
    → x.line ≡ some line
    → envelope_of j line ≡ (e, true)
    → e.id ≡ m
    → (do_request j x n).1 ≢ returns res
do_request-stale j x n m line e res le small l d i h =
    let (a, b, (line', l', (e', d', v))) = (do_request-returns_iff j x n res).0 h in
    let same_line : line ≡ line' = cc (l, l') in
    let pair : (e, true) ≡ (e', true) = sym d ∙ ap (envelope_of j) same_line ∙ d' in
    let ids : e.id ≡ e'.id = ap (λ (r : Envelope × Bool). r.0.id) pair in
    let q = v.same_id in let r = add-eq n 1 small in omega arith

-- 200 ms, doubled `k` times.
unfoldable pub doubled : ℕ → ℕ
doubled zero = 200
doubled (suc k) = doubled k * 2

unfoldable pub capped : ℕ → ℕ
capped k = if ltb max_backoff (doubled k) then max_backoff else doubled k

abbrev pub IsSchedule : ℕ → List ℕ → Type 0
IsSchedule k [] = Unit
IsSchedule k (w ∷ ws) = (w ≡ capped k) × IsSchedule (suc k) ws

next_capped : (k : ℕ) → next_backoff (capped k) ≡ capped (suc k)
unfolding next_backoff capped doubled
next_capped k = ground arith

spawn-IsSchedule_from : (k : ℕ) (ts : List Attempt) → IsSchedule k (spawn (capped k) ts).1
unfolding spawn
spawn-IsSchedule_from k [] = tt
spawn-IsSchedule_from k (a ∷ rest) =
    let ih =
      subst (λ b. IsSchedule (suc k) (spawn b rest).1) (sym (next_capped k))
        (spawn-IsSchedule_from (suc k) rest) in
    elim (Bool-cases a.stopped_before) [
      | inl p ↦ rw p tt
      | inr p ↦ elim (Option-cases a.started) [
        | inr (ver, q) ↦ rw (p, q) tt
        | inl q ↦ elim (Bool-cases a.stopped_after) [
          | inl r ↦ rw (p, q, r) (refl, tt)
          | inr r ↦ rw (p, q, r) (refl, ih)
        ]
      ]
    ]

-- However its attempts go, `spawn` waits 200 ms after the first that fails, twice as long after each
-- further one, and at most 10 s.
pub spawn-IsSchedule : (ts : List Attempt) → IsSchedule 0 (spawn initial_backoff ts).1
unfolding capped doubled
spawn-IsSchedule ts = spawn-IsSchedule_from 0 ts
