-- ===== src/Config/Store/Persistence.antt =====
-- Settings across a restart, after any updates.
use tsheadroom.Prelude.{
  ℕ, ◌≤◌, Bytes, bytes_eq, Bool, true, false, List, [], ◌∷◌, none, some, ◌≡◌, ◌≢◌, ◌⊎◌, refl, sym,
  ◌∙◌, subst, arith, inl, inr, Option-cases, Bool-cases,
}
use tsheadroom.Go.Json.{Json}
use tsheadroom.Config.{Heap, deref, Pointer, CompressSettings, view, validate}
use tsheadroom.Config.Json.{Target, unmarshal_settings, saved_text}
use tsheadroom.Config.Store.{
  Store, ReadResult, contents, not_exist, unreadable, current, load_settings, read_config,
  accept_loaded, or_default, defaults, save, swap, apply_locked, merge, merge_decoded,
}
use tsheadroom.Config.Store.Decoding.{Below, IsWellFormed, seen, unmarshal_settings-view}
use tsheadroom.Config.Store.Setting.{store_target, blank_target, load_settings-valid}
use tsheadroom.Config.Store.Merging.{merge-cases}
use tsheadroom.Config.Store.Cells.{Decodes, IsSound, unmarshal_settings-Keeps}
use tsheadroom.Config.Store.Restart.{
  Reads, IsCodec, SplitsSaved, AllOf, IsReadable, restarted-current,
}

-- The PUT bodies of a while, and whether the disk took each.
unfoldable pub merge_all : Json → List (Bytes × Bool) → Store → Store
unfolding merge
merge_all j [] st = st
merge_all j ((body, writable) ∷ puts) st = merge_all j puts (merge j writable body st).0

-- What a merge leaves of the decoded target.
abbrev pub Kept : Target → Store → Store → Type 0
Kept t st st' =
    ((store_target st' ≡ t) ⊎ (store_target st' ≡ record { heap = t.heap; settings = st.cur }))
    × (st'.path ≡ st.path)

pub merge_decoded-Kept :
    (j : Json) (writable : Bool) (st : Store) (t : Target) (good : Bool)
    → Kept t st (merge_decoded j writable st (t, good)).0
unfolding merge_decoded apply_locked swap save
merge_decoded-Kept j writable st t good = ground arith

module _ (j : Json) (law : IsCodec j) where
  abbrev pub Sound : Target → Type 0
  Sound = IsSound j (Reads j j.float j.float_text) (Reads j j.string j.quote)

  pub decodes : Decodes j (Reads j j.float j.float_text) (Reads j j.string j.quote)
  decodes = record { ints = law.words; ratios = law.floats; texts = law.strings }

  abbrev pub IsKept : Bytes → Store → Type 0
  IsKept path st = Sound (store_target st) × IsWellFormed (store_target st) × (st.path ≡ path)

  deref-AllOf :
      {A : Type 0} (P : A → Type 0) (cells : ℕ → A) (p : Pointer)
      → ((p : ℕ) → P (cells p))
      → AllOf P (deref cells p)
  deref-AllOf P cells none h = tt
  deref-AllOf P cells (some p) h = h p

  pub Sound-IsReadable : (t : Target) → Sound t → IsReadable j (seen t)
  unfolding view
  Sound-IsReadable t v = record {
    recent_turns = v.recent;
    least = v.least;
    ratio = deref-AllOf (Reads j j.float j.float_text) t.heap.ratio t.settings.target_ratio v.ratio;
    model = deref-AllOf (Reads j j.string j.quote) t.heap.text t.settings.kompress_model v.text;
    profile = deref-AllOf (Reads j j.string j.quote) t.heap.text t.settings.savings_profile v.text;
  }

  defaults-Sound : Sound defaults × Sound blank_target
  unfolding defaults
  defaults-Sound = (
    record {
      recent = omega arith;
      least = omega arith;
      ratio = λ p. law.zero_reads;
      text = λ p. law.empty_reads;
    },
    record {
      recent = omega arith;
      least = omega arith;
      ratio = λ p. law.zero_reads;
      text = λ p. law.empty_reads;
    },
  )

  accept_loaded-Sound : (d : Target × Bool) → Sound d.0 → Sound (or_default (accept_loaded d))
  unfolding accept_loaded or_default
  accept_loaded-Sound (t, false) v = defaults-Sound.0
  accept_loaded-Sound (t, true) v = elim (Option-cases (validate (seen t))) [
    | inl n ↦ rw (n, accept_loaded, or_default) v
    | inr (e, n) ↦ rw (n, accept_loaded, or_default) defaults-Sound.0
  ]

  read_config-Sound : (r : ReadResult) → Sound (or_default (read_config j r))
  unfolding read_config
  read_config-Sound (contents b) =
      accept_loaded-Sound (unmarshal_settings j b blank_target)
        ((unmarshal_settings-Keeps j _ _ decodes b blank_target).0 defaults-Sound.1)
  read_config-Sound not_exist = unfold or_default in defaults-Sound.0
  read_config-Sound unreadable = unfold or_default in defaults-Sound.0

  load_settings-Sound :
      (path : Bytes) (r : ReadResult)
      → Sound (store_target (load_settings j path r)) × ((load_settings j path r).path ≡ path)
  unfolding load_settings
  load_settings-Sound path r = elim (Bool-cases (bytes_eq path [])) [
    | inl e ↦ rw e (unfold or_default in defaults-Sound.0, refl)
    | inr e ↦ rw e (read_config-Sound r, refl)
  ]

  pub load_settings-IsKept : (path : Bytes) (r : ReadResult) → IsKept path (load_settings j path r)
  load_settings-IsKept path r =
      let (v, e) = load_settings-Sound path r in (v, (load_settings-valid j path r).1, e)

  Below-later : (n m : ℕ) (p : Pointer) → n ≤ m → Below n p → Below m p
  Below-later n m none h b = tt
  Below-later n m (some p) h b = omega arith

  -- The cells of a decoding under the settings from before it.
  refused-IsKept :
      (t : Target) (s : CompressSettings) (h : Heap)
      → Sound (record { heap = h; settings = s })
      → IsWellFormed (record { heap = h; settings = s })
      → Sound t
      → h.next ≤ t.heap.next
      → Sound (record { heap = t.heap; settings = s })
        × IsWellFormed (record { heap = t.heap; settings = s })
  refused-IsKept t s h v w v' m =
      let below = λ (p : Pointer) (b : Below h.next p). Below-later h.next t.heap.next p m b in
      (
        record { recent = v.recent; least = v.least; ratio = v'.ratio; text = v'.text },
        record {
          ratio = below s.target_ratio w.ratio;
          model = below s.kompress_model w.model;
          profile = below s.savings_profile w.profile;
          apart = w.apart;
        },
      )

  Kept-IsKept :
      (path : Bytes) (t : Target) (st st' : Store)
      → IsKept path st
      → Sound t
      → IsWellFormed t
      → st.heap.next ≤ t.heap.next
      → Kept t st st'
      → IsKept path st'
  Kept-IsKept path t st st' (v, w, e) v' w' m (inl q, p) =
      (subst Sound (sym q) v', subst IsWellFormed (sym q) w', p ∙ e)
  Kept-IsKept path t st st' (v, w, e) v' w' m (inr q, p) =
      let (a, b) = refused-IsKept t st.cur st.heap v w v' m in
      (subst Sound (sym q) a, subst IsWellFormed (sym q) b, p ∙ e)

  merge-IsKept :
      (path body : Bytes) (writable : Bool) (st : Store)
      → IsKept path st
      → IsKept path (merge j writable body st).0
  unfolding merge
  merge-IsKept path body writable st k =
      let d = unmarshal_settings j body (store_target st) in
      let (keeps, m) = unmarshal_settings-Keeps j _ _ decodes body (store_target st) in
      Kept-IsKept path d.0 st (merge_decoded j writable st d).0 k (keeps k.0)
        (unmarshal_settings-view j body (store_target st) k.1).0 m
        (merge_decoded-Kept j writable st d.0 d.1)

  pub merge_all-IsKept :
      (path : Bytes) (puts : List (Bytes × Bool)) (st : Store)
      → IsKept path st
      → IsKept path (merge_all j puts st)
  unfolding merge_all
  merge_all-IsKept path [] st k = k
  merge_all-IsKept path ((body, writable) ∷ puts) st k =
      merge_all-IsKept path puts (merge j writable body st).0 (merge-IsKept path body writable st k)

  merged-restarted :
      SplitsSaved j
      → (path body : Bytes) (writable : Bool) (st : Store) → path ≢ []
      → IsKept path st
      → (merge j writable body st).1 ≡ none
      → (f : Bytes) × ((merge j writable body st).0.file ≡ some f)
        × (current (load_settings j path (contents f)) ≡ current (merge j writable body st).0)
  merged-restarted members path body writable st some_path k h =
      elim (merge-cases j writable body st k.1) [
        | inl (r, m) ↦
            let st' = (merge j writable body st).0 in
            let (v, w, e) = merge-IsKept path body writable st k in
            (
              saved_text j (current st'),
              m.saved (λ q. some_path (sym k.2 ∙ q)),
              restarted-current j law (current st')
                  (unfold current in Sound-IsReadable (store_target st') v) members path some_path
                  m.valid,
            )
        | inr (e, r, q) ↦ cc (r, h)
      ]

  -- After any start and any updates, some of them perhaps refused: what an accepted update leaves in
  -- force is what the next start reads from the file that it wrote, to the last field. There is a path,
  -- and encoding/json reads back what it prints and splits a saved text into its members.
  pub merge-restarted :
      SplitsSaved j
      → (path : Bytes) (r : ReadResult) (puts : List (Bytes × Bool)) (body : Bytes)
        (writable : Bool)
      → path ≢ []
      → (merge j writable body (merge_all j puts (load_settings j path r))).1 ≡ none
      → (f : Bytes) × ((merge j writable body (merge_all j puts (load_settings j path r))).0.file
          ≡ some f)
        × (current (load_settings j path (contents f))
            ≡ current (merge j writable body (merge_all j puts (load_settings j path r))).0)
  merge-restarted members path r puts body writable some_path h =
      merged-restarted members path body writable (merge_all j puts (load_settings j path r))
        some_path
        (merge_all-IsKept path puts (load_settings j path r) (load_settings-IsKept path r)) h
