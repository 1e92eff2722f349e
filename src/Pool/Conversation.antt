-- ===== src/Pool/Conversation.antt =====
-- The calls of one worker, as a program sees them that reads its stdin line by line.
use mathlib.Core.List.{append-nil, append_assoc}
use tsheadroom.Prelude.{
  arith, ℕ, ◌⊎◌, zero, suc, ◌++◌, take, Bytes, Bool, true, false, List, [], ◌∷◌, map, Option, none,
  some, ◌≡◌, refl, ap, sym, ◌∙◌, inl, inr, Bool-cases, if◌then◌else◌,
}
use tsheadroom.Prelude.Lines.{IsLine, framed, lines, lines-framed, lines-unfinished}
use tsheadroom.Go.Int64.{Int64, add}
use tsheadroom.Go.Json.{Json}
use tsheadroom.Protocol.{CompressRequest}
use tsheadroom.Pool.Worker.{
  DoResult, returns, fails, marshal_request, write_to_worker, read_from_worker, decode_response,
  no_result, id_mismatch, worker_error, check_envelope, read_response, do_request,
}
use tsheadroom.Pool.Session.{Session, Trial, continue, do_call, calls}
use tsheadroom.Pool.Wire.{request_text, Link, Delivery, exchange, do_sent, then_sent, calls_sent}
use tsheadroom.Pool.Framing.{IsCompact, request_text-IsLine}

take-IsLine : (n : ℕ) (cs : Bytes) → IsLine cs → IsLine (take n cs)
take-IsLine zero cs v = tt
take-IsLine (suc n) [] v = tt
take-IsLine (suc n) (c ∷ cs) (h, hs) = (h, take-IsLine n cs hs)

-- Whether a call wrote its request whole.
unfoldable pub wrote : DoResult → Bool
wrote (returns res) = true
wrote (fails marshal_request) = false
wrote (fails write_to_worker) = false
wrote (fails read_from_worker) = true
wrote (fails decode_response) = true
wrote (fails no_result) = true
wrote (fails (id_mismatch got want)) = true
wrote (fails (worker_error typ error)) = true

unfoldable pub written : List DoResult → ℕ
unfolding wrote
written [] = 0
written (r ∷ rs) = let n = written rs in if wrote r then suc n else n

-- The encoded requests, numbered from the one after `n` on.
unfoldable pub texts :
    Json → (Bytes → Option Bytes) → Int64 → List (Delivery × CompressRequest) → List (Option Bytes)
texts j compact n [] = []
texts j compact n ((d, req) ∷ cs) =
    request_text j compact (add n 1) req ∷ texts j compact (add n 1) cs

-- What a call appends to stdin.
abbrev Appends : Option Bytes → Bytes → DoResult → Type 0
Appends text w r =
    ((t : Bytes) × (text ≡ some t) × (w ≡ framed t) × (wrote r ≡ true))
    ⊎ (IsLine w × (wrote r ≡ false))

-- What calls append to stdin: the encoded requests in order, as many as were written whole.
abbrev pub AppendsAll :
    Json
    → (Bytes → Option Bytes)
    → List (Delivery × CompressRequest)
    → Link
    → Link × List DoResult
    → Type 0
AppendsAll j compact cs l (l', rs) =
    (w : Bytes) × (l'.stdin ≡ l.stdin ++ w)
    × (map some (lines w) ≡ take (written rs) (texts j compact l.next_id cs))

read_response-wrote :
    (j : Json) (id : Int64) (line : Option Bytes) → wrote (read_response j id line) ≡ true
unfolding read_response check_envelope wrote
read_response-wrote j id line = ground arith

module _ (j : Json) (compact : Bytes → Option Bytes) (law : IsCompact j compact) where
  exchange-Appends :
      (d : Delivery) (id : Int64) (req : CompressRequest) (l : Link) (text : Option Bytes)
      → request_text j compact id req ≡ text
      → (w : Bytes) × ((exchange j d id l text).0.stdin ≡ l.stdin ++ w)
        × ((exchange j d id l text).0.next_id ≡ id)
        × Appends text w (exchange j d id l text).1
  unfolding exchange wrote
  exchange-Appends d id req l none h = ([], sym (append-nil l.stdin), refl, inr (tt, refl))
  exchange-Appends d id req l (some t) h = elim (Bool-cases d.writes) [
    | inl q ↦ rw q (framed t, refl, refl, inl (t, refl, refl, read_response-wrote j id _))
    | inr q ↦ rw q (
      take d.arrived t,
      refl,
      refl,
      inr (take-IsLine d.arrived t (request_text-IsLine j compact law id req t h), refl),
    )
  ]

  do_sent-Appends :
      (d : Delivery) (req : CompressRequest) (l : Link)
      → (w : Bytes) × ((do_sent j compact d req l).0.stdin ≡ l.stdin ++ w)
        × ((do_sent j compact d req l).0.next_id ≡ add l.next_id 1)
        × Appends (request_text j compact (add l.next_id 1) req) w (do_sent j compact d req l).1
  unfolding do_sent
  do_sent-Appends d req l =
      exchange-Appends d (add l.next_id 1) req l (request_text j compact (add l.next_id 1) req) refl

  then_sent-AppendsAll :
      (d : Delivery) (req : CompressRequest) (cs : List (Delivery × CompressRequest)) (l l' : Link)
      (r : DoResult) (w : Bytes) (later : Link × List DoResult)
      → l'.stdin ≡ l.stdin ++ w
      → l'.next_id ≡ add l.next_id 1
      → Appends (request_text j compact (add l.next_id 1) req) w r
      → AppendsAll j compact cs l' later
      → AppendsAll j compact ((d, req) ∷ cs) l (then_sent later l' r)
  unfolding then_sent written texts wrote lines
  then_sent-AppendsAll d req cs l l' (returns res) w (l'', rs) s n (inl (t, e, f, g)) (w', s', v) =
      let line = request_text-IsLine j compact law (add l.next_id 1) req t e in
      let first : lines (w ++ w') ≡ t ∷ lines w' =
        ap (λ w. lines (w ++ w')) f ∙ lines-framed t w' line in
      (w ++ w', s' ∙ ap (λ b. b ++ w') s ∙ append_assoc l.stdin w w', rw (first, e, v, n) refl)
  then_sent-AppendsAll d req cs l l' (returns res) w (l'', rs) s n (inr (clean, g)) (w', s', v) =
      cc g
  then_sent-AppendsAll d req cs l l' (fails x) w later s n (inl (t, e, f, g)) v =
      let line = request_text-IsLine j compact law (add l.next_id 1) req t e in
      let only : lines w ≡ t ∷ [] =
        ap lines (f ∙ sym (append-nil (framed t))) ∙ lines-framed t [] line in
      (w, s, rw (g, only, e) refl)
  then_sent-AppendsAll d req cs l l' (fails x) w later s n (inr (clean, g)) v =
      (w, s, rw (g, lines-unfinished w clean) refl)

  -- If encoded JSON has no line feed, what the calls of one worker append to its stdin reads, line by
  -- line, as their encoded requests, in the order of the calls and numbered on from the last one: as
  -- many as were written whole, so that a request whose write fails never leaves a line that another
  -- could be taken for.
  pub calls_sent-lines :
      (cs : List (Delivery × CompressRequest)) (l : Link)
      → AppendsAll j compact cs l (calls_sent j compact cs l)
  unfolding calls_sent written texts lines
  calls_sent-lines [] l = ([], sym (append-nil l.stdin), refl)
  calls_sent-lines ((d, req) ∷ cs) l =
      let (w, s, n, a) = do_sent-Appends d req l in
      then_sent-AppendsAll d req cs l (do_sent j compact d req l).0 (do_sent j compact d req l).1 w
        (calls_sent j compact cs (do_sent j compact d req l).0) s n a
        (calls_sent-lines cs (do_sent j compact d req l).0)

module _ (j : Json) (compact : Bytes → Option Bytes) where
  abbrev pub session : Link → Session
  session l = record { next_id = l.next_id; stdout = l.stdout }

  abbrev pub encodes : Option Bytes → Bool
  encodes none = false
  encodes (some t) = true

  abbrev pub trial : Delivery → Option Bytes → Trial
  trial d text = record { encodes = encodes text; writes = d.writes; expired = d.expired }

  unfoldable pub trials : Int64 → List (Delivery × CompressRequest) → List Trial
  trials n [] = []
  trials n ((d, req) ∷ cs) = trial d (request_text j compact (add n 1) req) ∷ trials (add n 1) cs

  -- A call on both pipes, projected to the output.
  exchange-do_call :
      (d : Delivery) (l : Link) (text : Option Bytes)
      → (session (exchange j d (add l.next_id 1) l text).0
          ≡ (do_call j (trial d text) (session l)).0)
        × ((exchange j d (add l.next_id 1) l text).1 ≡ (do_call j (trial d text) (session l)).1)
  unfolding exchange do_call do_request
  exchange-do_call d l none = (refl, refl)
  exchange-do_call d l (some t) = elim (Bool-cases d.writes) [
    | inl q ↦ rw q (refl, refl)
    | inr q ↦ rw q (refl, refl)
  ]

  then_sent-continue :
      (later : Link × List DoResult) (l : Link) (r : DoResult)
      → (then_sent later l r).1 ≡ continue later.1 r
  unfolding then_sent continue
  then_sent-continue later l (returns res) = refl
  then_sent-continue later l (fails e) = refl

  -- The calls return what they return on the worker's output alone, whatever their requests are: these
  -- decide only which can be encoded.
  pub calls_sent-calls :
      (cs : List (Delivery × CompressRequest)) (l : Link)
      → (calls_sent j compact cs l).1 ≡ calls j (trials l.next_id cs) (session l)
  unfolding calls_sent calls trials do_sent do_call do_request
  calls_sent-calls [] l = refl
  calls_sent-calls ((d, req) ∷ cs) l =
      let text = request_text j compact (add l.next_id 1) req in
      let (s, r) = exchange-do_call d l text in
      let (l', x) = exchange j d (add l.next_id 1) l text in
      then_sent-continue (calls_sent j compact cs l') l' x
      ∙ ap (λ later. continue later x) (calls_sent-calls cs l')
      ∙ cc (s, r)
