-- ===== src/Pool/Weights.antt =====
-- Sums over the slots of a pool, and how one step at a slot changes them.
use tsheadroom.Prelude.{
  ℕ, zero, suc, ◌+◌, List, [], ◌∷◌, Option, none, some, ◌≡◌, ap, sym, ◌∙◌, arith, length, All,
  subst,
}
use tsheadroom.Pool.{Slot, Effect, head_effect, tail_effect, at_slot}

unfoldable pub sum : (Slot → ℕ) → List Slot → ℕ
sum w [] = 0
sum w (s ∷ ss) = w s + sum w ss

module _ (f : Slot → Option Effect) where
  -- One slot made a step, and the others are as they were.
  pub record IsStepped (ss ss' : List Slot) (e : Effect) : Type 1 where
    pub old : Slot
    pub made : f old ≡ some e
    pub lengths : length ss' ≡ length ss
    pub sums : (w : Slot → ℕ) → sum w ss' + w old ≡ sum w ss + w e.slot
    pub kept : (P : Slot → Type 0) → All P ss → P old × (P e.slot → All P ss')

  head_inverse :
      (ss ss' : List Slot) (e : Effect) (o : Option Effect)
      → head_effect ss o ≡ some (ss', e)
      → (o ≡ some e) × (ss' ≡ e.slot ∷ ss)
  unfolding head_effect
  head_inverse ss ss' e none h = cc h
  head_inverse ss ss' e (some e') h = (cc h, cc h)

  tail_inverse :
      (s : Slot) (ss' : List Slot) (e : Effect) (o : Option (List Slot × Effect))
      → tail_effect s o ≡ some (ss', e)
      → (r : List Slot) × (o ≡ some (r, e)) × (ss' ≡ s ∷ r)
  unfolding tail_effect
  tail_inverse s ss' e none h = cc h
  tail_inverse s ss' e (some (r, e')) h = (r, cc h, cc h)

  pub at_slot-IsStepped :
      (i : ℕ) (ss ss' : List Slot) (e : Effect)
      → at_slot i f ss ≡ some (ss', e)
      → IsStepped ss ss' e
  unfolding at_slot sum
  at_slot-IsStepped i [] ss' e h = cc h
  at_slot-IsStepped zero (s ∷ ss) ss' e h =
      let (a, b) = head_inverse ss ss' e (f s) h in
      record {
        old = s;
        made = a;
        lengths = ap length b;
        sums = λ w. rw (b, sum) (omega arith);
        kept = λ P a'. (a'.0, λ x. subst (All P) (sym b) (x, a'.1));
      }
  at_slot-IsStepped (suc i) (s ∷ ss) ss' e h =
      let (r, a, b) = tail_inverse s ss' e (at_slot i f ss) h in
      let ih = at_slot-IsStepped i ss r e a in
      record {
        old = ih.old;
        made = ih.made;
        lengths = ap length b ∙ ap suc ih.lengths;
        sums = λ w. rw (b, sum) (let q = ih.sums w in omega arith);
        kept =
            λ P a'. ((ih.kept P a'.1).0, λ x. subst (All P) (sym b) (a'.0, (ih.kept P a'.1).1 x));
      }
