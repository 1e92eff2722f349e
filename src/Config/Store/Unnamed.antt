-- ===== src/Config/Store/Unnamed.antt =====
-- The pointers that a decoding leaves alone, and an update as a whole.
use tsheadroom.Prelude.{
  Bytes, codes, Bool, true, false, ◌||◌, [], ◌∷◌, some, ◌≡◌, refl, ap, ◌∙◌, sym, inl, inr, subst,
  arith, Option-cases,
}
use tsheadroom.Prelude.Dict.{Dict}
use tsheadroom.Go.Strings.{equal_fold}
use tsheadroom.Go.Json.{Json, assign, assign_all, unmarshal, plain}
use tsheadroom.Config.{view, deref}
use tsheadroom.Config.Json.{
  Target, pointer, setters, put_ratio, put_model, put_profile, unmarshal_settings,
}
use tsheadroom.Config.Store.{Store, current, merge, merge_decoded}
use tsheadroom.Config.Store.Decoding.{IsWellFormed, seen, unmarshal_settings-view}
use tsheadroom.Config.Store.Setting.{store_target}
use tsheadroom.Config.Store.Persistence.{Kept, merge_decoded-Kept}
use tsheadroom.Config.Store.Partial.{
  any_names, names, names-some, Leaves, or_left, updated_view-Leaves,
}

record LeavesPointers (named : Bytes → Bool) (t t' : Target) : Type 0 where
  target_ratio :
      named (codes "target_ratio") ≡ false → t'.settings.target_ratio ≡ t.settings.target_ratio
  kompress_model :
      named (codes "kompress_model") ≡ false
      → t'.settings.kompress_model ≡ t.settings.kompress_model
  savings_profile :
      named (codes "savings_profile") ≡ false
      → t'.settings.savings_profile ≡ t.settings.savings_profile

LeavesPointers-trans :
    (p q : Bytes → Bool) (t t' t'' : Target)
    → LeavesPointers p t t'
    → LeavesPointers q t' t''
    → LeavesPointers (λ name. p name || q name) t t''
LeavesPointers-trans p q t t' t'' a b = record {
  target_ratio = λ h.
      let (x, y) = or_left (p (codes "target_ratio")) (q (codes "target_ratio")) h in
      b.target_ratio y ∙ a.target_ratio x;
  kompress_model = λ h.
      let (x, y) = or_left (p (codes "kompress_model")) (q (codes "kompress_model")) h in
      b.kompress_model y ∙ a.kompress_model x;
  savings_profile = λ h.
      let (x, y) = or_left (p (codes "savings_profile")) (q (codes "savings_profile")) h in
      b.savings_profile y ∙ a.savings_profile x;
}

LeavesPointers-refl : (named : Bytes → Bool) (t : Target) → LeavesPointers named t t
LeavesPointers-refl named t = record {
  target_ratio = λ _. refl;
  kompress_model = λ _. refl;
  savings_profile = λ _. refl;
}

module _ (j : Json) where
  pointer-target_ratio :
      (key raw : Bytes) (t t' : Target)
      → assign (setters j) key raw t ≡ some t'
      → equal_fold key (codes "target_ratio") ≡ false
      → t'.settings.target_ratio ≡ t.settings.target_ratio
  unfolding assign setters plain pointer put_ratio put_model put_profile
  pointer-target_ratio key raw t t' h n = ground arith

  pointer-kompress_model :
      (key raw : Bytes) (t t' : Target)
      → assign (setters j) key raw t ≡ some t'
      → equal_fold key (codes "kompress_model") ≡ false
      → t'.settings.kompress_model ≡ t.settings.kompress_model
  unfolding assign setters plain pointer put_ratio put_model put_profile
  pointer-kompress_model key raw t t' h n = ground arith

  pointer-savings_profile :
      (key raw : Bytes) (t t' : Target)
      → assign (setters j) key raw t ≡ some t'
      → equal_fold key (codes "savings_profile") ≡ false
      → t'.settings.savings_profile ≡ t.settings.savings_profile
  unfolding assign setters plain pointer put_ratio put_model put_profile
  pointer-savings_profile key raw t t' h n = ground arith

  assign_all-LeavesPointers :
      (raws : Dict Bytes) (t : Target) (good : Bool)
      → LeavesPointers (λ name. any_names name raws) t (assign_all (setters j) raws t good).0
  unfolding assign_all any_names
  assign_all-LeavesPointers [] t good = LeavesPointers-refl _ t
  assign_all-LeavesPointers ((key, raw) ∷ rest) t good =
      elim (Option-cases (assign (setters j) key raw t)) [
        | inl n ↦
            rw (n, assign_all)
              (LeavesPointers-trans (λ name. equal_fold key name) (λ name. any_names name rest) t t
                _ (LeavesPointers-refl _ t) (assign_all-LeavesPointers rest t false))
        | inr (t', n) ↦
            let step : LeavesPointers (λ name. equal_fold key name) t t' = record {
              target_ratio = pointer-target_ratio key raw t t' n;
              kompress_model = pointer-kompress_model key raw t t' n;
              savings_profile = pointer-savings_profile key raw t t' n;
            } in
            rw (n, assign_all)
              (LeavesPointers-trans (λ name. equal_fold key name) (λ name. any_names name rest) t t'
                _ step (assign_all-LeavesPointers rest t' good))
      ]

  unmarshal_settings-LeavesPointers :
      (body : Bytes) (t : Target) → LeavesPointers (names j body) t (unmarshal_settings j body t).0
  unfolding unmarshal_settings unmarshal
  unmarshal_settings-LeavesPointers body t = elim (Option-cases (j.fields body)) [
    | inl n ↦ rw (n, unmarshal) (LeavesPointers-refl _ t)
    | inr (raws, n) ↦
        rw (n, unmarshal)
          (subst (λ p. LeavesPointers p t (assign_all (setters j) raws t true).0)
            (names-some j body raws n) (assign_all-LeavesPointers raws t true))
  ]

  -- The settings from before a decoding, over the cells that it leaves.
  under-Leaves :
      (named : Bytes → Bool) (t t' : Target)
      → LeavesPointers named t t'
      → Leaves named (seen t) (seen t')
      → Leaves named (seen t) (view t'.heap t.settings)
  unfolding view
  under-Leaves named t t' p v = record {
    compress_user_messages = λ _. refl;
    compress_system_messages = λ _. refl;
    protect_recent = λ _. refl;
    protect_analysis_context = λ _. refl;
    target_ratio = λ h. ap (deref t'.heap.ratio) (sym (p.target_ratio h)) ∙ v.target_ratio h;
    min_tokens_to_compress = λ _. refl;
    kompress_model = λ h. ap (deref t'.heap.text) (sym (p.kompress_model h)) ∙ v.kompress_model h;
    savings_profile =
        λ h. ap (deref t'.heap.text) (sym (p.savings_profile h)) ∙ v.savings_profile h;
  }

  Kept-Leaves :
      (named : Bytes → Bool) (st st' : Store) (t : Target)
      → LeavesPointers named (store_target st) t
      → Leaves named (current st) (seen t)
      → Kept t st st'
      → Leaves named (current st) (current st')
  unfolding current
  Kept-Leaves named st st' t p v (inl q, _) =
      subst (λ x. Leaves named (seen (store_target st)) (seen x)) (sym q) v
  Kept-Leaves named st st' t p v (inr q, _) =
      subst (λ x. Leaves named (seen (store_target st)) (seen x)) (sym q)
        (under-Leaves named (store_target st) t p v)

  -- An update, accepted or refused, leaves every field alone that no key of its body names, up to case:
  -- so updates one after the other do not lose each other's changes, and the fields that a refused one
  -- can spoil are among those that it names.
  pub merge-Leaves :
      (writable : Bool) (body : Bytes) (st : Store)
      → IsWellFormed (store_target st)
      → Leaves (names j body) (current st) (current (merge j writable body st).0)
  unfolding merge current
  merge-Leaves writable body st w =
      let d = unmarshal_settings j body (store_target st) in
      let (_, reads, _) = unmarshal_settings-view j body (store_target st) w in
      Kept-Leaves (names j body) st (merge_decoded j writable st d).0 d.0
        (unmarshal_settings-LeavesPointers body (store_target st))
        (rw reads (updated_view-Leaves j body (current st)))
        (merge_decoded-Kept j writable st d.0 d.1)
