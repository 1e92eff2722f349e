-- ===== src/Pool/Steps.antt =====
-- Each event that is possible is a move; and the induction over a run.
use tsheadroom.Prelude.{
  ap, ℕ, suc, ◌==◌, Bool, true, false, List, [], ◌∷◌, Option, none, some, ◌≡◌, refl, sym, subst,
  ◌≢◌, inl, inr, length, if◌then◌else◌, Bool-cases, Option-cases,
}
use tsheadroom.Protocol.{CompressRequest}
use tsheadroom.Pool.{
  Slot, Client, absent, accepted, collected, abandoned, refused, checked, spilling, Main, serving,
  stopping, stopped, draining, Pool, canceled, Effect, take_job, SlotEvent, slot_step, enqueue,
  drain, at_slot,
}
use tsheadroom.Pool.Events.{
  Event, begins, tries_affinity, gives_up, sees_shutdown, collects, handed_to, slot_moves,
  shutdown_moves, job, begin, queued, affined, offer, handed, hand_over, give_up, see_shutdown,
  collect, moved, drained, shut, step, run_from, answered, all_exited,
}
use tsheadroom.Pool.Moves.{
  taken, asks, slot_steps, offers, cancels, waited, next_channel, Moves, client_moves, is_queued,
  is_handed, slot_moved, is_drained, main_moves,
}

some-inj {ℓ} : {A : Type ℓ} {a b : A} → some a ≡ some b → b ≡ a
some-inj h = cc h

module _ (p p' : Pool) where
  begin-Moves :
      (k : ℕ) (req : CompressRequest) (c : Client)
      → p.clients k ≡ c
      → begin k req p c ≡ some p'
      → Moves (begins k req) p p'
  unfolding begin slot_steps asks
  begin-Moves k req absent e h =
      client_moves k (if canceled p.main then refused else checked req) refl
        (rw e (elim (Bool-cases (canceled p.main)) [
          | inl q ↦ rw q (unfold taken in refl)
          | inr q ↦ rw q (unfold taken in refl)
        ]))
        (some-inj h)
        (λ r x. elim (Bool-cases (canceled p.main)) [
          | inl q ↦ cc (rw (q, asks) at x)
          | inr q ↦ inl (let y : req ≡ r = cc (rw (q, asks) at x) in ap (begins k) y)
        ])
  begin-Moves k req accepted e h = cc h
  begin-Moves k req collected e h = cc h
  begin-Moves k req abandoned e h = cc h
  begin-Moves k req refused e h = cc h
  begin-Moves k req (checked r) e h = cc h
  begin-Moves k req (spilling r) e h = cc h

  queued-Moves :
      (k i : ℕ) (req : CompressRequest) (r : Option (List Slot × Effect))
      → p.clients k ≡ checked req
      → at_slot i (λ s. enqueue (job k req) s s.queue) p.slots ≡ r
      → queued k req p r ≡ p'
      → Moves (tries_affinity k) p p'
  unfolding queued slot_steps offers asks
  queued-Moves k i req none e a h =
      client_moves k (spilling req) refl (rw e (unfold taken in refl)) (sym h) (λ r x. inr (rw e x))
  queued-Moves k i req (some (ss, x)) e a h = is_queued k i req ss x refl refl e a (sym h)

  offer-Moves :
      (k : ℕ) (c : Client) → p.clients k ≡ c → offer k p c ≡ some p' → Moves (tries_affinity k) p p'
  unfolding offer slot_steps asks
  offer-Moves k (checked req) e h = elim (Bool-cases (affined p req)) [
    | inl q ↦ queued-Moves k _ req _ e refl (sym (some-inj (rw q at h)))
    | inr q ↦
        client_moves k (spilling req) refl (rw e (unfold taken in refl)) (some-inj (rw q at h))
          (λ r x. inr (rw e x))
  ]
  offer-Moves k absent e h = cc h
  offer-Moves k accepted e h = cc h
  offer-Moves k collected e h = cc h
  offer-Moves k abandoned e h = cc h
  offer-Moves k refused e h = cc h
  offer-Moves k (spilling r) e h = cc h

  handed-Moves :
      (k i : ℕ) (req : CompressRequest) (r : Option (List Slot × Effect))
      → p.clients k ≡ spilling req
      → at_slot i (λ s. take_job (job k req) s s.phase) p.slots ≡ r
      → handed k req p r ≡ some p'
      → Moves (handed_to k i) p p'
  unfolding handed slot_steps offers
  handed-Moves k i req none e a h = cc h
  handed-Moves k i req (some (ss, x)) e a h = is_handed k i req ss x _ refl refl e a (some-inj h)

  hand_over-Moves :
      (k i : ℕ) (c : Client)
      → p.clients k ≡ c
      → hand_over k i p c ≡ some p'
      → Moves (handed_to k i) p p'
  unfolding hand_over
  hand_over-Moves k i (spilling req) e h = handed-Moves k i req _ e refl h
  hand_over-Moves k i absent e h = cc h
  hand_over-Moves k i accepted e h = cc h
  hand_over-Moves k i collected e h = cc h
  hand_over-Moves k i abandoned e h = cc h
  hand_over-Moves k i refused e h = cc h
  hand_over-Moves k i (checked r) e h = cc h

  give_up-Moves :
      (k : ℕ) (c : Client) → p.clients k ≡ c → give_up k p c ≡ some p' → Moves (gives_up k) p p'
  unfolding give_up slot_steps taken asks
  give_up-Moves k (spilling req) e h =
      client_moves k refused refl (rw e refl) (some-inj h) (λ r x. cc x)
  give_up-Moves k accepted e h =
      client_moves k abandoned refl (rw e refl) (some-inj h) (λ r x. cc x)
  give_up-Moves k absent e h = cc h
  give_up-Moves k collected e h = cc h
  give_up-Moves k abandoned e h = cc h
  give_up-Moves k refused e h = cc h
  give_up-Moves k (checked r) e h = cc h

  guard-inj : (c : Bool) (q : Pool) → (if c then some q else none) ≡ some p' → p' ≡ q
  guard-inj true q h = some-inj h
  guard-inj false q h = cc h

  see_shutdown-Moves :
      (k : ℕ) (c : Client)
      → p.clients k ≡ c
      → see_shutdown k p c ≡ some p'
      → Moves (sees_shutdown k) p p'
  unfolding see_shutdown slot_steps taken asks
  see_shutdown-Moves k (spilling req) e h =
      client_moves k refused refl (rw e refl) (guard-inj (canceled p.main) _ h) (λ r x. cc x)
  see_shutdown-Moves k accepted e h = cc h
  see_shutdown-Moves k absent e h = cc h
  see_shutdown-Moves k collected e h = cc h
  see_shutdown-Moves k abandoned e h = cc h
  see_shutdown-Moves k refused e h = cc h
  see_shutdown-Moves k (checked r) e h = cc h

  collect-Moves :
      (k : ℕ) (c : Client) → p.clients k ≡ c → collect k p c ≡ some p' → Moves (collects k) p p'
  unfolding collect slot_steps taken asks
  collect-Moves k accepted e h =
      client_moves k collected refl (rw e refl) (guard-inj (answered k p.replies) _ h) (λ r x. cc x)
  collect-Moves k (spilling r) e h = cc h
  collect-Moves k absent e h = cc h
  collect-Moves k collected e h = cc h
  collect-Moves k abandoned e h = cc h
  collect-Moves k refused e h = cc h
  collect-Moves k (checked r) e h = cc h

  moved-Moves :
      (i : ℕ) (ev : SlotEvent) (r : Option (List Slot × Effect))
      → at_slot i (slot_step (canceled p.main) i ev) p.slots ≡ r
      → moved p r ≡ some p'
      → Moves (slot_moves i ev) p p'
  unfolding moved slot_steps
  moved-Moves i ev none e h = cc h
  moved-Moves i ev (some (ss, x)) e h = slot_moved i ev ss x refl e (some-inj h)

  drained-Moves :
      (i : ℕ) (r : Option (List Slot × Effect))
      → p.main ≡ draining i
      → at_slot i (λ s. drain s s.queue) p.slots ≡ r
      → p' ≡ drained i p (moved p r)
      → Moves shutdown_moves p p'
  unfolding drained moved slot_steps
  drained-Moves i none m e h = elim (Bool-cases (suc i == length p.slots)) [
    | inl q ↦ main_moves stopped refl (next_channel i m (inl refl)) (rw q at h)
    | inr q ↦ main_moves (draining (suc i)) refl (next_channel i m (inr refl)) (rw q at h)
  ]
  drained-Moves i (some (ss, x)) m e h = is_drained i ss x refl m e h

  shut-Moves : (m : Main) → p.main ≡ m → shut p m ≡ some p' → Moves shutdown_moves p p'
  unfolding shut slot_steps
  shut-Moves serving e h = main_moves stopping refl (cancels e refl) (some-inj h)
  shut-Moves stopping e h = elim (Bool-cases (all_exited p.slots)) [
    | inr a ↦ cc (rw a at h)
    | inl a ↦ elim (Bool-cases (length p.slots == 0)) [
      | inl z ↦ main_moves stopped refl (waited e a (inl refl)) (some-inj (rw (a, z) at h))
      | inr z ↦ main_moves (draining 0) refl (waited e a (inr refl)) (some-inj (rw (a, z) at h))
    ]
  ]
  shut-Moves (draining i) e h = drained-Moves i _ e refl (some-inj h)
  shut-Moves stopped e h = cc h

  pub step-Moves : (e : Event) → step e p ≡ some p' → Moves e p p'
  unfolding step
  step-Moves (begins k req) h = begin-Moves k req _ refl h
  step-Moves (tries_affinity k) h = offer-Moves k _ refl h
  step-Moves (handed_to k i) h = hand_over-Moves k i _ refl h
  step-Moves (gives_up k) h = give_up-Moves k _ refl h
  step-Moves (sees_shutdown k) h = see_shutdown-Moves k _ refl h
  step-Moves (collects k) h = collect-Moves k _ refl h
  step-Moves (slot_moves i ev) h = moved-Moves i ev _ refl h
  step-Moves shutdown_moves h = shut-Moves _ refl h

pub run_from-none : (es : List Event) (p : Pool) → run_from es none ≢ some p
unfolding run_from
run_from-none [] p h = cc h
run_from-none (e ∷ es) p h = cc h

pub run_from-nil : (p p' : Pool) → run_from [] (some p) ≡ some p' → p' ≡ p
unfolding run_from
run_from-nil p p' h = some-inj h

-- The first event of a run, and the others.
pub run_from-cons :
    (e : Event) (es : List Event) (p p' : Pool)
    → run_from (e ∷ es) (some p) ≡ some p'
    → (q : Pool) × Moves e p q × (run_from es (some q) ≡ some p')
unfolding run_from
run_from-cons e es p p' h = elim (Option-cases (step e p)) [
  | inl n ↦ absurd (run_from-none es p' (rw (n, run_from) at h))
  | inr (q, n) ↦ (q, step-Moves p q e n, rw (n, run_from) at h)
]

-- What every move keeps, every run keeps.
pub run_from-keeps {ℓ} :
    (P : Pool → Type ℓ)
    → ((e : Event) (p p' : Pool) → Moves e p p' → P p → P p')
    → (es : List Event) (p p' : Pool) → run_from es (some p) ≡ some p'
    → P p
    → P p'
unfolding run_from
run_from-keeps P keep [] p p' h v = subst P (sym (some-inj h)) v
run_from-keeps P keep (e ∷ es) p p' h v =
    let (q, m, r) = run_from-cons e es p p' h in run_from-keeps P keep es q p' r (keep e p q m v)
