-- ===== src/Config/Store/Leak.antt =====
-- What an update does to the cells that other copies of the settings share.
use tsheadroom.Prelude.{
  ℕ, Bytes, codes, Bool, true, false, [], ◌∷◌, none, some, ◌≡◌, ◌≢◌, refl, arith, inl, inr, ap, ◌∙◌,
  sym,
}
use tsheadroom.Go.Strings.{equal_fold}
use tsheadroom.Go.Float64.{Float64}
use tsheadroom.Go.Json.{Json, assign, assign_all, unmarshal}
use tsheadroom.Config.{CompressSettings, View, view, validate, bad_ratio, bad_profile}
use tsheadroom.Config.Json.{Target, unmarshal_settings, setters, pointer, put_ratio, put_profile}
use tsheadroom.Config.Store.{
  Store, current, get_settings, apply_locked, save, swap, merge_decoded, merge,
}
use tsheadroom.Config.Store.Setting.{apply_locked-cases, store_target}

-- A body with one key, spelled exactly.
unmarshal_ratio :
    (j : Json) (body raw : Bytes) (r : Float64) (t : Target)
    → j.fields body ≡ some ((codes "target_ratio", raw) ∷ [])
    → j.is_null raw ≡ false
    → j.float raw ≡ some r
    → unmarshal_settings j body t ≡ (put_ratio r t, true)
unfolding unmarshal_settings unmarshal setters assign assign_all equal_fold pointer
unmarshal_ratio j body raw r t f n v = rw (f, unmarshal, assign_all, n, v) refl

validate-ratio : (v : View) → bad_ratio v.target_ratio ≡ true → validate v ≢ none
unfolding validate
validate-ratio v b h = ground arith

unmarshal_profile :
    (j : Json) (body raw name : Bytes) (t : Target)
    → j.fields body ≡ some ((codes "savings_profile", raw) ∷ [])
    → j.is_null raw ≡ false
    → j.string raw ≡ some name
    → unmarshal_settings j body t ≡ (put_profile name t, true)
unfolding unmarshal_settings unmarshal setters assign assign_all equal_fold pointer
unmarshal_profile j body raw name t f n v = rw (f, unmarshal, assign_all, n, v) refl

validate-profile : (v : View) → bad_profile v.savings_profile ≡ true → validate v ≢ none
unfolding validate
validate-profile v b h = ground arith

some-ne-none {ℓ} : {A : Type ℓ} {a : A} → some a ≢ none
some-ne-none e = cc

merged :
    (j : Json) (writable : Bool) (body : Bytes) (st : Store) (t : Target)
    → unmarshal_settings j body (store_target st) ≡ (t, true)
    → merge j writable body st ≡ apply_locked j writable t.settings (record st { heap = t.heap })
unfolding merge merge_decoded
merged j writable body st t d = ap (merge_decoded j writable st) d

-- A merge whose decoded settings are invalid keeps the cells that the decoder wrote.
invalid_merge :
    (j : Json) (writable : Bool) (body : Bytes) (st : Store) (t : Target)
    → unmarshal_settings j body (store_target st) ≡ (t, true)
    → validate (view t.heap t.settings) ≢ none
    → ((merge j writable body st).1 ≢ none)
      × (current (merge j writable body st).0 ≡ view t.heap st.cur)
invalid_merge j writable body st t d bad =
    elim (apply_locked-cases j writable t.settings (record st { heap = t.heap })) [
      | inl (r, a) ↦ absurd (bad a.valid)
      | inr (e, r, q) ↦ (
        (λ z. some-ne-none (sym r ∙ sym (ap (λ x. x.1) (merged j writable body st t d)) ∙ z)),
        ap (λ x. current x.0) (merged j writable body st t d)
            ∙ (unfold current in ap (λ (x : Store). view x.heap x.cur) q),
      )
    ]

-- The written cell, as the decoded settings and as the old ones read it.
put_ratio-reads :
    (r : Float64) (t : Target)
    → (view (put_ratio r t).heap (put_ratio r t).settings).target_ratio ≡ some r
unfolding put_ratio view
put_ratio-reads r t = ground arith

put_ratio-shared :
    (r : Float64) (t : Target) (p : ℕ)
    → t.settings.target_ratio ≡ some p
    → (view (put_ratio r t).heap t.settings).target_ratio ≡ some r
unfolding put_ratio view
put_ratio-shared r t p held = ground arith

put_profile-reads :
    (name : Bytes) (t : Target)
    → (view (put_profile name t).heap (put_profile name t).settings).savings_profile ≡ some name
unfolding put_profile view
put_profile-reads name t = ground arith

put_profile-shared :
    (name : Bytes) (t : Target) (p : ℕ)
    → t.settings.savings_profile ≡ some p
    → (view (put_profile name t).heap t.settings).savings_profile ≡ some name
unfolding put_profile view
put_profile-shared name t p held = ground arith

apply_locked-heap :
    (j : Json) (writable : Bool) (s : CompressSettings) (st : Store)
    → (apply_locked j writable s st).0.heap ≡ st.heap
unfolding apply_locked save swap
apply_locked-heap j writable s st = ground arith

module _ (j : Json) (writable : Bool) (body raw : Bytes) (st : Store) (p : ℕ) where
  -- While a target ratio is set, a PUT of a ratio, be it accepted or refused, changes what a copy of
  -- the settings reads that was made before. (A hook call follows the pointers of its copy only when
  -- its request to the worker is encoded.)
  pub get_settings-merge :
      (r : Float64)
      → st.cur.target_ratio ≡ some p
      → j.fields body ≡ some ((codes "target_ratio", raw) ∷ [])
      → j.is_null raw ≡ false
      → j.float raw ≡ some r
      → (view (merge j writable body st).0.heap (get_settings st)).target_ratio ≡ some r
  unfolding get_settings
  get_settings-merge r held f n v =
      let t = store_target st in
      let new = record st { heap = (put_ratio r t).heap } in
      let same : (merge j writable body st).0.heap ≡ (put_ratio r t).heap =
        ap (λ x. x.0.heap)
          (merged j writable body st (put_ratio r t) (unmarshal_ratio j body raw r t f n v))
        ∙ apply_locked-heap j writable (put_ratio r t).settings new in
      ap (λ h. (view h st.cur).target_ratio) same ∙ put_ratio-shared r t p held

  -- While a target ratio is set, a PUT of one that is out of range is refused, and the service goes on
  -- with the ratio that it refused.
  pub refused_ratio-current :
      (r : Float64)
      → st.cur.target_ratio ≡ some p
      → j.fields body ≡ some ((codes "target_ratio", raw) ∷ [])
      → j.is_null raw ≡ false
      → j.float raw ≡ some r
      → bad_ratio (some r) ≡ true
      → ((merge j writable body st).1 ≢ none)
        × ((current (merge j writable body st).0).target_ratio ≡ some r)
        × (validate (current (merge j writable body st).0) ≢ none)
  refused_ratio-current r held f n v bad =
      let t = store_target st in
      let (refused, reads) =
        invalid_merge j writable body st (put_ratio r t) (unmarshal_ratio j body raw r t f n v)
          (validate-ratio _ (ap bad_ratio (put_ratio-reads r t) ∙ bad)) in
      let live : (current (merge j writable body st).0).target_ratio ≡ some r =
        ap (λ (y : View). y.target_ratio) reads ∙ put_ratio-shared r t p held in
      (refused, live, validate-ratio _ (ap bad_ratio live ∙ bad))

  -- While a savings profile is set, a PUT of an unknown one is refused, and the service goes on with
  -- the profile that it refused.
  pub refused_profile-current :
      (name : Bytes)
      → st.cur.savings_profile ≡ some p
      → j.fields body ≡ some ((codes "savings_profile", raw) ∷ [])
      → j.is_null raw ≡ false
      → j.string raw ≡ some name
      → bad_profile (some name) ≡ true
      → ((merge j writable body st).1 ≢ none)
        × ((current (merge j writable body st).0).savings_profile ≡ some name)
        × (validate (current (merge j writable body st).0) ≢ none)
  refused_profile-current name held f n v bad =
      let t = store_target st in
      let (refused, reads) =
        invalid_merge j writable body st (put_profile name t)
          (unmarshal_profile j body raw name t f n v)
          (validate-profile _ (ap bad_profile (put_profile-reads name t) ∙ bad)) in
      let live : (current (merge j writable body st).0).savings_profile ≡ some name =
        ap (λ (y : View). y.savings_profile) reads ∙ put_profile-shared name t p held in
      (refused, live, validate-profile _ (ap bad_profile live ∙ bad))
