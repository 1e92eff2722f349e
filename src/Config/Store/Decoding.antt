-- ===== src/Config/Store/Decoding.antt =====
-- Decoding onto shared cells against decoding onto plain values.
use tsheadroom.Prelude.{
  ℕ, ◌<◌, Bytes, codes, Bool, true, false, List, [], ◌∷◌, Option, none, some, ◌≡◌, ◌≢◌, refl, subst,
  arith, inl, inr, Option-cases, Bool-cases,
}
use tsheadroom.Prelude.Dict.{Dict}
use tsheadroom.Go.Strings.{equal_fold}
use tsheadroom.Go.Float64.{Float64}
use tsheadroom.Go.Json.{Json, Setter, assign, assign_all, unmarshal, plain}
use tsheadroom.Config.{Pointer, View, view}
use tsheadroom.Config.Json.{
  Target, settings_with, put_ratio, put_model, put_profile, pointer, setters, unmarshal_settings,
}

-- The fields without cells: a pointer field is a value that may be absent.
unfoldable pub view_setters : Json → List (Setter View)
view_setters j =
    (
      codes "compress_user_messages",
      plain j j.bool (λ b v. record v { compress_user_messages = b }),
    )
    ∷ (
      codes "compress_system_messages",
      plain j j.bool (λ b v. record v { compress_system_messages = b }),
    )
    ∷ (codes "protect_recent", plain j j.int (λ n v. record v { protect_recent = n }))
    ∷ (
      codes "protect_analysis_context",
      plain j j.bool (λ b v. record v { protect_analysis_context = b }),
    )
    ∷ (
      codes "target_ratio",
      pointer j j.float (λ v. record v { target_ratio = none })
          (λ r v. record v { target_ratio = some r }),
    )
    ∷ (
      codes "min_tokens_to_compress",
      plain j j.int (λ n v. record v { min_tokens_to_compress = n }),
    )
    ∷ (
      codes "kompress_model",
      pointer j j.string (λ v. record v { kompress_model = none })
          (λ s v. record v { kompress_model = some s }),
    )
    ∷ (
      codes "savings_profile",
      pointer j j.string (λ v. record v { savings_profile = none })
          (λ s v. record v { savings_profile = some s }),
    )
    ∷ []

-- The update that a body asks for, on plain values: the specification of a merge.
unfoldable pub updated_view : Json → Bytes → View → View × Bool
updated_view j body v = unmarshal j (view_setters j) body v

abbrev pub Below : ℕ → Pointer → Type 0
Below n none = Unit
Below n (some p) = p < n

abbrev pub Apart : Pointer → Pointer → Type 0
Apart none q = Unit
Apart (some p) none = Unit
Apart (some p) (some q) = p ≢ q

-- The pointers name cells in use, and the two strings do not share one.
pub record IsWellFormed (t : Target) : Type 0 where
  pub ratio : Below t.heap.next t.settings.target_ratio
  pub model : Below t.heap.next t.settings.kompress_model
  pub profile : Below t.heap.next t.settings.savings_profile
  pub apart : Apart t.settings.kompress_model t.settings.savings_profile

abbrev pub seen : Target → View
seen t = view t.heap t.settings

abbrev Keeps : (Target → Target) → (View → View) → Type 0
Keeps f g = (t : Target) → IsWellFormed t → IsWellFormed (f t) × (seen (f t) ≡ g (seen t))

put_ratio-Keeps : (r : Float64) → Keeps (put_ratio r) (λ v. record v { target_ratio = some r })
unfolding put_ratio view
put_ratio-Keeps r t w = ground arith

put_model-Keeps : (s : Bytes) → Keeps (put_model s) (λ v. record v { kompress_model = some s })
unfolding put_model view
put_model-Keeps s t w = ground arith

put_profile-Keeps : (s : Bytes) → Keeps (put_profile s) (λ v. record v { savings_profile = some s })
unfolding put_profile view
put_profile-Keeps s t w = ground arith

-- Two results agree: both are errors, or the target is well-formed and reads as the view.
abbrev Agree : Option Target → Option View → Type 0
Agree none none = Unit
Agree none (some v) = ⊥
Agree (some t) none = ⊥
Agree (some t) (some v) = IsWellFormed t × (seen t ≡ v)

abbrev Simulates : (Bytes → Target → Option Target) → (Bytes → View → Option View) → Type 0
Simulates f g = (raw : Bytes) (t : Target) → IsWellFormed t → Agree (f raw t) (g raw (seen t))

plain-Simulates :
    {A : Type 0} (j : Json) (read : Bytes → Option A) (f : A → Target → Target)
    (g : A → View → View)
    → ((a : A) → Keeps (f a) (g a))
    → Simulates (plain j read f) (plain j read g)
unfolding plain
plain-Simulates j read f g keeps raw t w = elim (Bool-cases (j.is_null raw)) [
  | inl e ↦ rw e (w, refl)
  | inr e ↦
      rw e (elim (Option-cases (read raw)) [ inl n ↦ rw n tt | inr (a, s) ↦ rw s (keeps a t w) ])
]

pointer-Simulates :
    {A : Type 0} (j : Json) (read : Bytes → Option A) (c : Target → Target) (d : View → View)
    (f : A → Target → Target) (g : A → View → View)
    → Keeps c d
    → ((a : A) → Keeps (f a) (g a))
    → Simulates (pointer j read c f) (pointer j read d g)
unfolding pointer
pointer-Simulates j read c d f g clears keeps raw t w = elim (Bool-cases (j.is_null raw)) [
  | inl e ↦ rw e (clears t w)
  | inr e ↦
      rw e (elim (Option-cases (read raw)) [ inl n ↦ rw n tt | inr (a, s) ↦ rw s (keeps a t w) ])
]

abbrev AllSimulate : List (Setter Target) → List (Setter View) → Type 0
AllSimulate [] [] = Unit
AllSimulate [] (g ∷ gs) = ⊥
AllSimulate (f ∷ fs) [] = ⊥
AllSimulate ((n, f) ∷ fs) ((m, g) ∷ gs) = (n ≡ m) × Simulates f g × AllSimulate fs gs

assign-Simulates :
    (fs : List (Setter Target)) (gs : List (Setter View))
    → AllSimulate fs gs
    → (k : Bytes) → Simulates (assign fs k) (assign gs k)
unfolding assign
assign-Simulates [] [] s k raw t w = (w, refl)
assign-Simulates [] (g ∷ gs) s k raw t w = absurd s
assign-Simulates (f ∷ fs) [] s k raw t w = absurd s
assign-Simulates ((n, f) ∷ fs) ((m, g) ∷ gs) (e, here, there) k raw t w =
    rw e (elim (Bool-cases (equal_fold k m)) [
      | inl q ↦ rw q (here raw t w)
      | inr q ↦ rw q (assign-Simulates fs gs there k raw t w)
    ])

-- A whole decoding agrees with one on plain values.
abbrev AgreeAll : Target × Bool → View × Bool → Type 0
AgreeAll a b = IsWellFormed a.0 × (seen a.0 ≡ b.0) × (a.1 ≡ b.1)

assign_all-Agree :
    (fs : List (Setter Target)) (gs : List (Setter View))
    → AllSimulate fs gs
    → (raws : Dict Bytes) (t : Target) (good : Bool) → IsWellFormed t
    → AgreeAll (assign_all fs raws t good) (assign_all gs raws (seen t) good)
unfolding assign_all
assign_all-Agree fs gs s [] t good w = (w, refl, refl)
assign_all-Agree fs gs s ((k, raw) ∷ rest) t good w =
    let both = assign-Simulates fs gs s k raw t w in
    elim (Option-cases (assign fs k raw t)) [
      | inl e ↦ elim (Option-cases (assign gs k raw (seen t))) [
        | inl e' ↦ rw (e, e', assign_all) (assign_all-Agree fs gs s rest t false w)
        | inr (v, e') ↦ absurd (rw (e, e') at both)
      ]
      | inr (t', e) ↦ elim (Option-cases (assign gs k raw (seen t))) [
        | inl e' ↦ absurd (rw (e, e') at both)
        | inr (v, e') ↦
            let (w', q) = rw (e, e') at both in
            rw (e, e', assign_all)
              (subst (λ x. AgreeAll (assign_all fs rest t' good) (assign_all gs rest x good)) q
                (assign_all-Agree fs gs s rest t' good w'))
      ]
    ]

setters-Simulate : (j : Json) → AllSimulate (setters j) (view_setters j)
unfolding setters view_setters
setters-Simulate j = (
  refl,
  plain-Simulates j j.bool (λ a. settings_with (λ s. record s { compress_user_messages = a }))
      (λ a v. record v { compress_user_messages = a }) (λ a t w. unfold view in ground arith),
  (
    refl,
    plain-Simulates j j.bool (λ a. settings_with (λ s. record s { compress_system_messages = a }))
        (λ a v. record v { compress_system_messages = a }) (λ a t w. unfold view in ground arith),
    (
      refl,
      plain-Simulates j j.int (λ a. settings_with (λ s. record s { protect_recent = a }))
          (λ a v. record v { protect_recent = a }) (λ a t w. unfold view in ground arith),
      (
        refl,
        plain-Simulates j j.bool
            (λ a. settings_with (λ s. record s { protect_analysis_context = a }))
            (λ a v. record v { protect_analysis_context = a })
            (λ a t w. unfold view in ground arith),
        (
          refl,
          pointer-Simulates j j.float (settings_with (λ s. record s { target_ratio = none }))
              (λ v. record v { target_ratio = none }) put_ratio
              (λ a v. record v { target_ratio = some a }) (λ t w. unfold view in ground arith)
              put_ratio-Keeps,
          (
            refl,
            plain-Simulates j j.int
                (λ a. settings_with (λ s. record s { min_tokens_to_compress = a }))
                (λ a v. record v { min_tokens_to_compress = a })
                (λ a t w. unfold view in ground arith),
            (
              refl,
              pointer-Simulates j j.string (settings_with (λ s. record s { kompress_model = none }))
                  (λ v. record v { kompress_model = none }) put_model
                  (λ a v. record v { kompress_model = some a }) (λ t w. unfold view in ground arith)
                  put_model-Keeps,
              (
                refl,
                pointer-Simulates j j.string
                    (settings_with (λ s. record s { savings_profile = none }))
                    (λ v. record v { savings_profile = none }) put_profile
                    (λ a v. record v { savings_profile = some a })
                    (λ t w. unfold view in ground arith) put_profile-Keeps,
                tt,
              ),
            ),
          ),
        ),
      ),
    ),
  ),
)

-- Decoding a body onto settings with shared cells, and reading them afterwards, is decoding it onto
-- what was read before; the error is the same, and the pointers stay well-formed.
pub unmarshal_settings-view :
    (j : Json) (body : Bytes) (t : Target)
    → IsWellFormed t
    → IsWellFormed (unmarshal_settings j body t).0
      × (seen (unmarshal_settings j body t).0 ≡ (updated_view j body (seen t)).0)
      × ((unmarshal_settings j body t).1 ≡ (updated_view j body (seen t)).1)
unfolding unmarshal_settings updated_view unmarshal
unmarshal_settings-view j body t w = elim (Option-cases (j.fields body)) [
  | inl e ↦ rw (e, unmarshal) (w, refl, refl)
  | inr (raws, e) ↦
      rw (e, unmarshal)
        (assign_all-Agree (setters j) (view_setters j) (setters-Simulate j) raws t true w)
]
