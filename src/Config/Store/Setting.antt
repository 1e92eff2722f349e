-- ===== src/Config/Store/Setting.antt =====
-- `set` and `loadSettings`.
use tsheadroom.Prelude.{
  Bytes, bytes_eq, bytes_eq_iff, Bool, true, false, [], none, some, ◌≡◌, ◌≢◌, ◌⊎◌, refl,
  Option-cases, inl, inr, Bool-cases,
}
use tsheadroom.Go.Json.{Json}
use tsheadroom.Config.{CompressSettings, empty_heap, zero_settings, view, validate}
use tsheadroom.Config.Json.{Target, unmarshal_settings, saved_text}
use tsheadroom.Config.Store.{
  Store, Error, invalid, persist, ReadResult, contents, not_exist, unreadable, current, save, swap,
  apply_locked, set, load_settings, read_config, accept_loaded, or_default, defaults,
}
use tsheadroom.Config.Store.Decoding.{IsWellFormed, seen, unmarshal_settings-view}

-- The settings `s` went in: valid, current, and on disk where there is a path.
pub record IsAccepted (j : Json) (s : CompressSettings) (st st' : Store) : Type 0 where
  pub valid : validate (view st.heap s) ≡ none
  pub swapped : st'.cur ≡ s
  pub cells : st'.heap ≡ st.heap
  pub saved : st.path ≢ [] → st'.file ≡ some (saved_text j (view st.heap s))
  pub unsaved : st.path ≡ [] → st'.file ≡ st.file

empty_path : (path : Bytes) → bytes_eq path [] ≡ true → path ≡ []
empty_path path h = (bytes_eq_iff path []).0 h

some_path : (path : Bytes) → bytes_eq path [] ≡ false → path ≢ []
some_path path h e = cc ((bytes_eq_iff path []).1 e)

pub apply_locked-cases :
    (j : Json) (writable : Bool) (s : CompressSettings) (st : Store)
    → (((apply_locked j writable s st).1 ≡ none)
        × IsAccepted j s st (apply_locked j writable s st).0)
      ⊎ ((e : Error) × ((apply_locked j writable s st).1 ≡ some e)
          × ((apply_locked j writable s st).0 ≡ st))
unfolding apply_locked swap save
apply_locked-cases j writable s st = elim (Option-cases (validate (view st.heap s))) [
  | inr (e, v) ↦ rw (v, apply_locked) (inr (invalid e, refl, refl))
  | inl v ↦ elim (Bool-cases (bytes_eq st.path [])) [
    | inl p ↦
        rw (v, p, apply_locked)
          (inl (
            refl,
            record {
              valid = v;
              swapped = refl;
              cells = refl;
              saved = λ n. absurd (n (empty_path st.path p));
              unsaved = λ _. refl;
            },
          ))
    | inr p ↦ elim (Bool-cases writable) [
      | inl w ↦
          rw (v, p, w, apply_locked)
            (inl (
              refl,
              record {
                valid = v;
                swapped = refl;
                cells = refl;
                saved = λ _. refl;
                unsaved = λ q. absurd (some_path st.path p q);
              },
            ))
      | inr w ↦ rw (v, p, w, apply_locked) (inr (persist, refl, refl))
    ]
  ]
]

-- `set` either puts the settings in, valid and on disk where there is a path, or reports an error and
-- leaves the whole store as it was.
pub set-atomic :
    (j : Json) (writable : Bool) (s : CompressSettings) (st : Store)
    → (((set j writable s st).1 ≡ none) × IsAccepted j s st (set j writable s st).0)
      ⊎ ((e : Error) × ((set j writable s st).1 ≡ some e) × ((set j writable s st).0 ≡ st))
set-atomic j writable s st = unfold set in apply_locked-cases j writable s st

abbrev pub store_target : Store → Target
store_target st = record { heap = st.heap; settings = st.cur }

abbrev IsGood : Target → Type 0
IsGood t = (validate (seen t) ≡ none) × IsWellFormed t

defaults-IsGood : IsGood defaults
unfolding defaults validate view
defaults-IsGood = (refl, record { ratio = tt; model = tt; profile = tt; apart = tt })

accept_loaded-IsGood :
    (t : Target) (good : Bool) → IsWellFormed t → IsGood (or_default (accept_loaded (t, good)))
unfolding or_default accept_loaded
accept_loaded-IsGood t false w = defaults-IsGood
accept_loaded-IsGood t true w = elim (Option-cases (validate (seen t))) [
  | inl v ↦ rw (v, or_default, accept_loaded) (v, w)
  | inr (e, v) ↦ rw (v, or_default, accept_loaded) defaults-IsGood
]

abbrev pub blank_target : Target
blank_target = record { heap = empty_heap; settings = zero_settings }

pub blank-IsWellFormed : IsWellFormed blank_target
blank-IsWellFormed = record { ratio = tt; model = tt; profile = tt; apart = tt }

read_config-IsGood : (j : Json) (r : ReadResult) → IsGood (or_default (read_config j r))
unfolding read_config
read_config-IsGood j (contents b) =
    let t = unmarshal_settings j b blank_target in
    accept_loaded-IsGood t.0 t.1 (unmarshal_settings-view j b blank_target blank-IsWellFormed).0
read_config-IsGood j not_exist = unfold or_default in defaults-IsGood
read_config-IsGood j unreadable = unfold or_default in defaults-IsGood

-- Whatever stands in the configuration file, the service starts with valid settings.
pub load_settings-valid :
    (j : Json) (path : Bytes) (r : ReadResult)
    → (validate (current (load_settings j path r)) ≡ none)
      × IsWellFormed (store_target (load_settings j path r))
unfolding load_settings current
load_settings-valid j path r = elim (Bool-cases (bytes_eq path [])) [
  | inl e ↦ rw e (unfold or_default in defaults-IsGood)
  | inr e ↦ rw e (read_config-IsGood j r)
]
