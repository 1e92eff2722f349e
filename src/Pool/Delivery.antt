-- ===== src/Pool/Delivery.antt =====
-- The places of a job: queues, slots and answers.
use tsheadroom.Prelude.{
  ==_iff, ℕ, ◌+◌, ◌==◌, ◌++◌, List, [], Option, some, ◌≡◌, ap, ◌∙◌, inl, inr, arith, if◌then◌else◌,
  Bool-cases,
}
use tsheadroom.Config.{update}
use tsheadroom.Pool.{
  Job, Slot, Client, accepted, Pool, quiet, call, Effect, take_job, enqueue, at_slot,
}
use tsheadroom.Pool.Events.{set_client}
use tsheadroom.Pool.Weights.{sum, at_slot-IsStepped}
use tsheadroom.Pool.Conservation.{
  Balances, one, in_replies, in_slot, in_replies-append, sum-Balances,
}
use tsheadroom.Pool.Moves.{taken}

-- A number is in the slots and among the answers as often as its job was taken: once or never.
abbrev pub IsConserved : Pool → Type 0
IsConserved p = (k : ℕ) → in_replies k p.replies + sum (in_slot k) p.slots ≡ taken (p.clients k)

-- A call of `Compress` moves on, and takes up `m` jobs more.
taken-update :
    (f : ℕ → Client) (n : ℕ) (c : Client) (m k : ℕ)
    → taken c ≡ taken (f n) + m
    → taken (update f n c k) ≡ taken (f k) + (if n == k then m else 0)
taken-update f n c m k e = elim (Bool-cases (n == k)) [
  | inl q ↦ rw q (e ∙ ap (λ x. taken (f x) + m) ((==_iff n k).0 q))
  | inr q ↦ rw q (omega arith)
]

pub client-IsConserved :
    (n : ℕ) (c : Client) (p : Pool)
    → IsConserved p
    → taken c ≡ taken (p.clients n)
    → IsConserved (set_client n c p)
client-IsConserved n c p v e k =
    let q = v k in let r = taken-update p.clients n c 0 k (omega arith) in ground arith

-- A step that answers nobody.
abbrev pub Silent : (Slot → Option Effect) → Type 0
Silent f = (s : Slot) (e : Effect) → f s ≡ some e → e.sent ≡ []

pub enqueue-Silent : (j : Job) → Silent (λ s. enqueue j s s.queue)
unfolding enqueue quiet
enqueue-Silent j s e h = ground arith

pub take_job-Silent : (j : Job) → Silent (λ s. take_job j s s.phase)
unfolding take_job call quiet
take_job-Silent j s e h = ground arith

-- A slot takes a job from a call of `Compress`.
pub given-IsConserved :
    (n i : ℕ) (f : Slot → Option Effect) (p : Pool) (ss : List Slot) (e : Effect)
    → IsConserved p
    → taken (p.clients n) ≡ 0
    → ((k : ℕ) → Balances k (one k n) f)
    → Silent f
    → at_slot i f p.slots ≡ some (ss, e)
    → (k : ℕ) → in_replies k p.replies + sum (in_slot k) ss ≡ taken (update p.clients n accepted k)
unfolding taken in_replies one
given-IsConserved n i f p ss e v z b silent h k =
    let q = v k in
    let r = taken-update p.clients n accepted 1 k (omega arith) in
    let st = at_slot-IsStepped f i p.slots ss e h in
    let t = sum-Balances k (one k n) i f p.slots ss e (b k) h in
    let t' = rw (silent st.old e st.made) at t in omega arith

-- A step of a slot, whose answer is sent.
pub sent-IsConserved :
    (i : ℕ) (f : Slot → Option Effect) (p : Pool) (ss : List Slot) (e : Effect)
    → IsConserved p
    → ((k : ℕ) → Balances k 0 f)
    → at_slot i f p.slots ≡ some (ss, e)
    → (k : ℕ) → in_replies k (e.sent ++ p.replies) + sum (in_slot k) ss ≡ taken (p.clients k)
sent-IsConserved i f p ss e v b h k =
    omega
      (arith, v k, sum-Balances k 0 i f p.slots ss e (b k) h, in_replies-append k e.sent p.replies)
