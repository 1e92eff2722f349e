-- ===== src/Config/Store/Merging.antt =====
-- `merge`, when it succeeds and when it is refused.
use tsheadroom.Prelude.{
  Bytes, Bool, true, false, [], Option, none, some, ◌≡◌, ◌≢◌, ◌⊎◌, refl, arith, inl, inr, ap, ◌∙◌,
  sym, subst, subst,
}
use tsheadroom.Go.Json.{Json}
use tsheadroom.Config.{Heap, CompressSettings, view, validate}
use tsheadroom.Config.Json.{Target, unmarshal_settings, saved_text}
use tsheadroom.Config.Store.{
  Store, Error, bad_json, current, merge_decoded, merge, merge_returns, apply_locked, swap, save,
}
use tsheadroom.Config.Store.Decoding.{IsWellFormed, seen, unmarshal_settings-view, updated_view}
use tsheadroom.Config.Store.Setting.{IsAccepted, apply_locked-cases, store_target}

-- What a successful merge leaves: the update of the old view, valid, and on disk if there is a path.
pub record IsMerged (j : Json) (body : Bytes) (st st' : Store) : Type 0 where
  pub decodes : (updated_view j body (current st)).1 ≡ true
  pub updates : current st' ≡ (updated_view j body (current st)).0
  pub valid : validate (current st') ≡ none
  pub saved : st.path ≢ [] → st'.file ≡ some (saved_text j (current st'))
  pub stays : IsWellFormed (store_target st')

-- What a refused one leaves alone.
pub record IsRefused (st st' : Store) : Type 0 where
  pub same_settings : st'.cur ≡ st.cur
  pub same_file : st'.file ≡ st.file
  pub same_path : st'.path ≡ st.path

module _ (j : Json) (writable : Bool) (st : Store) where
  -- The store after the decoder has written its cells.
  abbrev written : Target → Store
  written t = record st { heap = t.heap }

  record IsSwapped (t : Target) (st' : Store) : Type 0 where
    reads : current st' ≡ seen t
    passes : validate (seen t) ≡ none
    saves : st.path ≢ [] → st'.file ≡ some (saved_text j (seen t))
    keeps : IsWellFormed (store_target st')

  accepted-IsSwapped :
      (t : Target) (st' : Store)
      → IsWellFormed t
      → IsAccepted j t.settings (written t) st'
      → IsSwapped t st'
  unfolding current
  accepted-IsSwapped t st' w a =
      let same : store_target st' ≡ t = λ i. record { heap = a.cells i; settings = a.swapped i } in
      record {
        reads = ap seen same;
        passes = a.valid;
        saves = a.saved;
        keeps = subst IsWellFormed (sym same) w;
      }

  refused : (t : Target) (st' : Store) → st' ≡ written t → IsRefused st st'
  refused t st' e = record {
    same_settings = ap (λ (x : Store). x.cur) e;
    same_file = ap (λ (x : Store). x.file) e;
    same_path = ap (λ (x : Store). x.path) e;
  }

  abbrev Outcome : Target → Bool → Store × Option Error → Type 0
  Outcome t good r =
      ((r.1 ≡ none) × (good ≡ true) × IsSwapped t r.0)
      ⊎ ((e : Error) × (r.1 ≡ some e) × IsRefused st r.0)

  merge_decoded-cases :
      (t : Target) (good : Bool)
      → IsWellFormed t
      → Outcome t good (merge_decoded j writable st (t, good))
  unfolding merge_decoded
  merge_decoded-cases t false w = inr (bad_json, refl, refused t (written t) refl)
  merge_decoded-cases t true w = elim (apply_locked-cases j writable t.settings (written t)) [
    | inl (r, a) ↦ inl (r, refl, accepted-IsSwapped t _ w a)
    | inr (e, r, q) ↦ inr (e, r, refused t _ q)
  ]

-- A merge that reports no error has updated the settings as its body asks, field by field on plain
-- values; the result is valid, and on disk where there is a path. A merge that reports an error has
-- left the settings value, the file and the path alone.
pub merge-cases :
    (j : Json) (writable : Bool) (body : Bytes) (st : Store)
    → IsWellFormed (store_target st)
    → (((merge j writable body st).1 ≡ none) × IsMerged j body st (merge j writable body st).0)
      ⊎ ((e : Error) × ((merge j writable body st).1 ≡ some e)
          × IsRefused st (merge j writable body st).0)
unfolding merge current
merge-cases j writable body st w =
    let d = unmarshal_settings j body (store_target st) in
    let (w', reads, same) = unmarshal_settings-view j body (store_target st) w in
    elim (merge_decoded-cases j writable st d.0 d.1 w') [
      | inl (r, good, s) ↦ inl (
        r,
        record {
          decodes = sym same ∙ good;
          updates = s.reads ∙ reads;
          valid = ap validate s.reads ∙ s.passes;
          saved = λ n. s.saves n ∙ ap (λ v. some (saved_text j v)) (sym s.reads);
          stays = s.keeps;
        },
      )
      | inr x ↦ inr x
    ]

-- Settings without pointers read alike in every heap.
view_no_pointers :
    (h h' : Heap) (s s' : CompressSettings)
    → s' ≡ s
    → s.target_ratio ≡ none
    → s.kompress_model ≡ none
    → s.savings_profile ≡ none
    → view h' s' ≡ view h s
unfolding view
view_no_pointers h h' s s' e a b c = ground arith

no_pointers-IsWellFormed :
    (t : Target)
    → t.settings.target_ratio ≡ none
    → t.settings.kompress_model ≡ none
    → t.settings.savings_profile ≡ none
    → IsWellFormed t
no_pointers-IsWellFormed t a b c = ground arith

-- A refused merge leaves the settings as they read, if none of the three pointers was set before.
pub merge_refused-current :
    (j : Json) (writable : Bool) (body : Bytes) (st : Store)
    → st.cur.target_ratio ≡ none
    → st.cur.kompress_model ≡ none
    → st.cur.savings_profile ≡ none
    → (merge j writable body st).1 ≢ none
    → current (merge j writable body st).0 ≡ current st
unfolding current
merge_refused-current j writable body st a b c h =
    elim (merge-cases j writable body st (no_pointers-IsWellFormed (store_target st) a b c)) [
      | inl (r, m) ↦ absurd (h r)
      | inr (e, r, q) ↦
          view_no_pointers st.heap (merge j writable body st).0.heap st.cur
            (merge j writable body st).0.cur q.same_settings a b c
    ]

merge_decoded-cur :
    (j : Json) (writable : Bool) (st : Store) (t : Target) (good : Bool)
    → (merge_decoded j writable st (t, good)).1 ≡ none
    → (merge_decoded j writable st (t, good)).0.cur ≡ t.settings
unfolding merge_decoded apply_locked swap save
merge_decoded-cur j writable st t good h = ground arith

-- A merge without an error returns the struct that it has put in.
pub merge-merge_returns :
    (j : Json) (writable : Bool) (body : Bytes) (st : Store)
    → (merge j writable body st).1 ≡ none
    → (merge j writable body st).0.cur ≡ merge_returns j body st
unfolding merge merge_returns
merge-merge_returns j writable body st h =
    let d = unmarshal_settings j body (store_target st) in merge_decoded-cur j writable st d.0 d.1 h
