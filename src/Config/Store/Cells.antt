-- ===== src/Config/Store/Cells.antt =====
-- What a decoding does to the cells behind the pointers, whether it succeeds or not.
use tsheadroom.Prelude.{
  ℕ, ◌<◌, ◌≤◌, Bytes, Bool, true, false, List, [], ◌∷◌, Option, some, ◌≡◌, arith, inl, inr,
  Option-cases, Bool-cases, All,
}
use tsheadroom.Prelude.Dict.{Dict}
use tsheadroom.Go.Int64.{Int64, word}
use tsheadroom.Go.Strings.{equal_fold}
use tsheadroom.Go.Float64.{Float64}
use tsheadroom.Go.Json.{Json, Setter, assign, assign_all, unmarshal, plain}
use tsheadroom.Config.Json.{
  Target, put_ratio, put_model, put_profile, pointer, setters, unmarshal_settings,
}

-- A property of the values that are decoded.
module _ (j : Json) (IsRatio : Float64 → Type 0) (IsText : Bytes → Type 0) where
  -- The values that `j` decodes have it.
  pub record Decodes : Type 0 where
    pub ints : (raw : Bytes) (n : Int64) → j.int raw ≡ some n → n < word
    pub ratios : (raw : Bytes) (x : Float64) → j.float raw ≡ some x → IsRatio x
    pub texts : (raw s : Bytes) → j.string raw ≡ some s → IsText s

  -- All cells have it, and the integers are words.
  pub record IsSound (t : Target) : Type 0 where
    pub recent : t.settings.protect_recent < word
    pub least : t.settings.min_tokens_to_compress < word
    pub ratio : (p : ℕ) → IsRatio (t.heap.ratio p)
    pub text : (p : ℕ) → IsText (t.heap.text p)

  -- What a step of a decoder keeps: soundness, and the cells in use.
  abbrev pub Keeps : Target → Target → Type 0
  Keeps t t' = (IsSound t → IsSound t') × (t.heap.next ≤ t'.heap.next)

  abbrev Safe : (Bytes → Target → Option Target) → Type 0
  Safe f = (raw : Bytes) (t t' : Target) → f raw t ≡ some t' → Keeps t t'

  plain-Safe :
      {A : Type 0} (read : Bytes → Option A) (f : A → Target → Target)
      → ((raw : Bytes) (a : A) (t : Target) → read raw ≡ some a → Keeps t (f a t))
      → Safe (plain j read f)
  unfolding plain
  plain-Safe read f keeps raw t t' h = elim (Bool-cases (j.is_null raw)) [
    | inl e ↦ let q : t ≡ t' = cc (rw e at h) in rw⁻¹ q (λ v. v, omega arith)
    | inr e ↦ elim (Option-cases (read raw)) [
      | inl n ↦ cc (rw (e, n) at h)
      | inr (a, n) ↦ let q : f a t ≡ t' = cc (rw (e, n) at h) in rw⁻¹ q (keeps raw a t n)
    ]
  ]

  pointer-Safe :
      {A : Type 0} (read : Bytes → Option A) (c : Target → Target) (f : A → Target → Target)
      → ((t : Target) → Keeps t (c t))
      → ((raw : Bytes) (a : A) (t : Target) → read raw ≡ some a → Keeps t (f a t))
      → Safe (pointer j read c f)
  unfolding pointer
  pointer-Safe read c f clears keeps raw t t' h = elim (Bool-cases (j.is_null raw)) [
    | inl e ↦ let q : c t ≡ t' = cc (rw e at h) in rw⁻¹ q (clears t)
    | inr e ↦ elim (Option-cases (read raw)) [
      | inl n ↦ cc (rw (e, n) at h)
      | inr (a, n) ↦ let q : f a t ≡ t' = cc (rw (e, n) at h) in rw⁻¹ q (keeps raw a t n)
    ]
  ]

  put_ratio-Keeps : (x : Float64) (t : Target) → IsRatio x → Keeps t (put_ratio x t)
  unfolding put_ratio
  put_ratio-Keeps x t h = ground arith

  put_model-Keeps : (s : Bytes) (t : Target) → IsText s → Keeps t (put_model s t)
  unfolding put_model
  put_model-Keeps s t h = ground arith

  put_profile-Keeps : (s : Bytes) (t : Target) → IsText s → Keeps t (put_profile s t)
  unfolding put_profile
  put_profile-Keeps s t h = ground arith

  abbrev AllSafe : List (Setter Target) → Type 0
  AllSafe fs = All (λ (f : Setter Target). Safe f.1) fs

  assign-Safe : (fs : List (Setter Target)) → AllSafe fs → (key : Bytes) → Safe (assign fs key)
  unfolding assign
  assign-Safe [] v key raw t t' h = let q : t ≡ t' = cc h in rw⁻¹ q (λ v. v, omega arith)
  assign-Safe ((name, f) ∷ fs) (v, vs) key raw t t' h = elim (Bool-cases (equal_fold key name)) [
    | inl e ↦ v raw t t' (rw e at h)
    | inr e ↦ assign-Safe fs vs key raw t t' (rw e at h)
  ]

  Keeps-trans : (t t' t'' : Target) → Keeps t t' → Keeps t' t'' → Keeps t t''
  Keeps-trans t t' t'' (f, m) (g, n) = (λ v. g (f v), omega arith)

  assign_all-Keeps :
      (fs : List (Setter Target))
      → AllSafe fs
      → (raws : Dict Bytes) (t : Target) (good : Bool) → Keeps t (assign_all fs raws t good).0
  unfolding assign_all
  assign_all-Keeps fs v [] t good = (λ v. v, omega arith)
  assign_all-Keeps fs v ((key, raw) ∷ rest) t good = elim (Option-cases (assign fs key raw t)) [
    | inl n ↦ rw (n, assign_all) (assign_all-Keeps fs v rest t false)
    | inr (t', n) ↦
        rw (n, assign_all)
          (Keeps-trans t t' (assign_all fs rest t' good).0 (assign-Safe fs v key raw t t' n)
            (assign_all-Keeps fs v rest t' good))
  ]

  module _ (law : Decodes) where
    setters-Safe : AllSafe (setters j)
    unfolding setters
    setters-Safe = (
      plain-Safe j.bool _ (λ raw a t n. ground arith),
      (
        plain-Safe j.bool _ (λ raw a t n. ground arith),
        (
          plain-Safe j.int _ (λ raw a t n. ground (arith, law.ints raw a n)),
          (
            plain-Safe j.bool _ (λ raw a t n. ground arith),
            (
              pointer-Safe j.float _ _ (λ t. ground arith)
                  (λ raw a t n. put_ratio-Keeps a t (law.ratios raw a n)),
              (
                plain-Safe j.int _ (λ raw a t n. ground (arith, law.ints raw a n)),
                (
                  pointer-Safe j.string _ _ (λ t. ground arith)
                      (λ raw a t n. put_model-Keeps a t (law.texts raw a n)),
                  (
                    pointer-Safe j.string _ _ (λ t. ground arith)
                        (λ raw a t n. put_profile-Keeps a t (law.texts raw a n)),
                    tt,
                  ),
                ),
              ),
            ),
          ),
        ),
      ),
    )

    -- Whatever a body asks for, and whether it decodes or not: the cells still have the property
    -- afterwards, and none is freed.
    pub unmarshal_settings-Keeps :
        (body : Bytes) (t : Target) → Keeps t (unmarshal_settings j body t).0
    unfolding unmarshal_settings unmarshal
    unmarshal_settings-Keeps body t = elim (Option-cases (j.fields body)) [
      | inl n ↦ rw (n, unmarshal) (λ v. v, omega arith)
      | inr (raws, n) ↦ rw (n, unmarshal) (assign_all-Keeps (setters j) setters-Safe raws t true)
    ]
