-- ===== src/Config/Store/Partial.antt =====
-- The fields that an update leaves out.
use tsheadroom.Prelude.{
  Bytes, codes, Bool, true, false, ◌||◌, [], ◌∷◌, Option, none, some, ◌≡◌, refl, ap, ◌∙◌, sym, inl,
  inr, subst, arith, Option-cases,
}
use tsheadroom.Prelude.Dict.{Dict}
use tsheadroom.Go.Strings.{equal_fold}
use tsheadroom.Go.Json.{Json, assign, assign_all, unmarshal, plain}
use tsheadroom.Config.{View}
use tsheadroom.Config.Json.{pointer}
use tsheadroom.Config.Store.Decoding.{view_setters, updated_view}

-- Whether an object has a key that the decoder takes for the field `name`.
unfoldable pub any_names : Bytes → Dict Bytes → Bool
any_names name [] = false
any_names name ((key, raw) ∷ rest) = equal_fold key name || any_names name rest

unfoldable pub names_in : Option (Dict Bytes) → Bytes → Bool
unfolding any_names
names_in none name = false
names_in (some raws) name = any_names name raws

unfoldable pub names : Json → Bytes → Bytes → Bool
unfolding names_in
names j body name = names_in (j.fields body) name

pub names-some :
    (j : Json) (body : Bytes) (raws : Dict Bytes)
    → j.fields body ≡ some raws
    → (λ name. any_names name raws) ≡ names j body
unfolding names names_in
names-some j body raws h = sym (ap names_in h)

-- A field that is not named keeps its value.
pub record Leaves (named : Bytes → Bool) (v v' : View) : Type 0 where
  pub compress_user_messages :
      named (codes "compress_user_messages") ≡ false
      → v'.compress_user_messages ≡ v.compress_user_messages
  pub compress_system_messages :
      named (codes "compress_system_messages") ≡ false
      → v'.compress_system_messages ≡ v.compress_system_messages
  pub protect_recent : named (codes "protect_recent") ≡ false → v'.protect_recent ≡ v.protect_recent
  pub protect_analysis_context :
      named (codes "protect_analysis_context") ≡ false
      → v'.protect_analysis_context ≡ v.protect_analysis_context
  pub target_ratio : named (codes "target_ratio") ≡ false → v'.target_ratio ≡ v.target_ratio
  pub min_tokens_to_compress :
      named (codes "min_tokens_to_compress") ≡ false
      → v'.min_tokens_to_compress ≡ v.min_tokens_to_compress
  pub kompress_model : named (codes "kompress_model") ≡ false → v'.kompress_model ≡ v.kompress_model
  pub savings_profile :
      named (codes "savings_profile") ≡ false → v'.savings_profile ≡ v.savings_profile

pub Leaves-refl : (named : Bytes → Bool) (v : View) → Leaves named v v
Leaves-refl named v = record {
  compress_user_messages = λ _. refl;
  compress_system_messages = λ _. refl;
  protect_recent = λ _. refl;
  protect_analysis_context = λ _. refl;
  target_ratio = λ _. refl;
  min_tokens_to_compress = λ _. refl;
  kompress_model = λ _. refl;
  savings_profile = λ _. refl;
}

pub or_left : (a b : Bool) → a || b ≡ false → (a ≡ false) × (b ≡ false)
or_left a b h = ground arith

Leaves-trans :
    (p q : Bytes → Bool) (v v' v'' : View)
    → Leaves p v v'
    → Leaves q v' v''
    → Leaves (λ name. p name || q name) v v''
Leaves-trans p q v v' v'' a b = record {
  compress_user_messages = λ h.
      let (x, y) =
        or_left (p (codes "compress_user_messages")) (q (codes "compress_user_messages")) h in
      b.compress_user_messages y ∙ a.compress_user_messages x;
  compress_system_messages = λ h.
      let (x, y) =
        or_left (p (codes "compress_system_messages")) (q (codes "compress_system_messages")) h in
      b.compress_system_messages y ∙ a.compress_system_messages x;
  protect_recent = λ h.
      let (x, y) = or_left (p (codes "protect_recent")) (q (codes "protect_recent")) h in
      b.protect_recent y ∙ a.protect_recent x;
  protect_analysis_context = λ h.
      let (x, y) =
        or_left (p (codes "protect_analysis_context")) (q (codes "protect_analysis_context")) h in
      b.protect_analysis_context y ∙ a.protect_analysis_context x;
  target_ratio = λ h.
      let (x, y) = or_left (p (codes "target_ratio")) (q (codes "target_ratio")) h in
      b.target_ratio y ∙ a.target_ratio x;
  min_tokens_to_compress = λ h.
      let (x, y) =
        or_left (p (codes "min_tokens_to_compress")) (q (codes "min_tokens_to_compress")) h in
      b.min_tokens_to_compress y ∙ a.min_tokens_to_compress x;
  kompress_model = λ h.
      let (x, y) = or_left (p (codes "kompress_model")) (q (codes "kompress_model")) h in
      b.kompress_model y ∙ a.kompress_model x;
  savings_profile = λ h.
      let (x, y) = or_left (p (codes "savings_profile")) (q (codes "savings_profile")) h in
      b.savings_profile y ∙ a.savings_profile x;
}

module _ (j : Json) where
  assign-compress_user_messages :
      (key raw : Bytes) (v v' : View)
      → assign (view_setters j) key raw v ≡ some v'
      → equal_fold key (codes "compress_user_messages") ≡ false
      → v'.compress_user_messages ≡ v.compress_user_messages
  unfolding assign view_setters plain pointer
  assign-compress_user_messages key raw v v' h n = ground arith

  assign-compress_system_messages :
      (key raw : Bytes) (v v' : View)
      → assign (view_setters j) key raw v ≡ some v'
      → equal_fold key (codes "compress_system_messages") ≡ false
      → v'.compress_system_messages ≡ v.compress_system_messages
  unfolding assign view_setters plain pointer
  assign-compress_system_messages key raw v v' h n = ground arith

  assign-protect_recent :
      (key raw : Bytes) (v v' : View)
      → assign (view_setters j) key raw v ≡ some v'
      → equal_fold key (codes "protect_recent") ≡ false
      → v'.protect_recent ≡ v.protect_recent
  unfolding assign view_setters plain pointer
  assign-protect_recent key raw v v' h n = ground arith

  assign-protect_analysis_context :
      (key raw : Bytes) (v v' : View)
      → assign (view_setters j) key raw v ≡ some v'
      → equal_fold key (codes "protect_analysis_context") ≡ false
      → v'.protect_analysis_context ≡ v.protect_analysis_context
  unfolding assign view_setters plain pointer
  assign-protect_analysis_context key raw v v' h n = ground arith

  assign-target_ratio :
      (key raw : Bytes) (v v' : View)
      → assign (view_setters j) key raw v ≡ some v'
      → equal_fold key (codes "target_ratio") ≡ false
      → v'.target_ratio ≡ v.target_ratio
  unfolding assign view_setters plain pointer
  assign-target_ratio key raw v v' h n = ground arith

  assign-min_tokens_to_compress :
      (key raw : Bytes) (v v' : View)
      → assign (view_setters j) key raw v ≡ some v'
      → equal_fold key (codes "min_tokens_to_compress") ≡ false
      → v'.min_tokens_to_compress ≡ v.min_tokens_to_compress
  unfolding assign view_setters plain pointer
  assign-min_tokens_to_compress key raw v v' h n = ground arith

  assign-kompress_model :
      (key raw : Bytes) (v v' : View)
      → assign (view_setters j) key raw v ≡ some v'
      → equal_fold key (codes "kompress_model") ≡ false
      → v'.kompress_model ≡ v.kompress_model
  unfolding assign view_setters plain pointer
  assign-kompress_model key raw v v' h n = ground arith

  assign-savings_profile :
      (key raw : Bytes) (v v' : View)
      → assign (view_setters j) key raw v ≡ some v'
      → equal_fold key (codes "savings_profile") ≡ false
      → v'.savings_profile ≡ v.savings_profile
  unfolding assign view_setters plain pointer
  assign-savings_profile key raw v v' h n = ground arith

  assign-Leaves :
      (key raw : Bytes) (v v' : View)
      → assign (view_setters j) key raw v ≡ some v'
      → Leaves (λ name. equal_fold key name) v v'
  assign-Leaves key raw v v' h = record {
    compress_user_messages = assign-compress_user_messages key raw v v' h;
    compress_system_messages = assign-compress_system_messages key raw v v' h;
    protect_recent = assign-protect_recent key raw v v' h;
    protect_analysis_context = assign-protect_analysis_context key raw v v' h;
    target_ratio = assign-target_ratio key raw v v' h;
    min_tokens_to_compress = assign-min_tokens_to_compress key raw v v' h;
    kompress_model = assign-kompress_model key raw v v' h;
    savings_profile = assign-savings_profile key raw v v' h;
  }

  assign_all-Leaves :
      (raws : Dict Bytes) (v : View) (good : Bool)
      → Leaves (λ name. any_names name raws) v (assign_all (view_setters j) raws v good).0
  unfolding assign_all any_names
  assign_all-Leaves [] v good = Leaves-refl _ v
  assign_all-Leaves ((key, raw) ∷ rest) v good =
      elim (Option-cases (assign (view_setters j) key raw v)) [
        | inl n ↦
            rw (n, assign_all)
              (Leaves-trans (λ name. equal_fold key name) (λ name. any_names name rest) v v _
                (Leaves-refl _ v) (assign_all-Leaves rest v false))
        | inr (v', n) ↦
            rw (n, assign_all)
              (Leaves-trans (λ name. equal_fold key name) (λ name. any_names name rest) v v' _
                (assign-Leaves key raw v v' n) (assign_all-Leaves rest v' good))
      ]

  pub updated_view-Leaves :
      (body : Bytes) (v : View) → Leaves (names j body) v (updated_view j body v).0
  unfolding updated_view unmarshal
  updated_view-Leaves body v = elim (Option-cases (j.fields body)) [
    | inl n ↦ rw (n, unmarshal) (Leaves-refl _ v)
    | inr (raws, n) ↦
        rw (n, unmarshal)
          (subst (λ p. Leaves p v (assign_all (view_setters j) raws v true).0)
            (names-some j body raws n) (assign_all-Leaves raws v true))
  ]
