-- ===== src/Config/Store/Restart.antt =====
-- The settings on disk, as the next start of the service reads them.
use mathlib.Core.List.{append-nil}
use tsheadroom.Prelude.{
  ◌++◌, ◌<◌, Bytes, codes, bytes_eq, bytes_eq_iff, Bool, true, false, List, [], ◌∷◌, Option, none,
  some, ◌≡◌, ◌≢◌, refl, sym, ap, ◌∙◌, inl, inr, Bool-cases,
}
use tsheadroom.Prelude.Dict.{Dict}
use tsheadroom.Go.Int64.{Int64, word}
use tsheadroom.Go.Strings.{equal_fold}
use tsheadroom.Go.Float64.{Float64, zero_float}
use tsheadroom.Go.Json.{Json, Setter, assign, assign_all, unmarshal, plain}
use tsheadroom.Config.{View, validate}
use tsheadroom.Config.Json.{
  Target, pointer, unmarshal_settings, bool_text, int_text, or_null, settings_fields, saved_text,
}
use tsheadroom.Config.Store.{
  contents, current, load_settings, read_config, accept_loaded, or_default,
}
use tsheadroom.Config.Store.Decoding.{seen, view_setters, updated_view, unmarshal_settings-view}
use tsheadroom.Config.Store.Setting.{blank_target, blank-IsWellFormed}

-- The text of a value reads as the value.
abbrev pub Reads : {A : Type 0} → Json → (Bytes → Option A) → (A → Bytes) → A → Type 0
Reads j read text a = (j.is_null (text a) ≡ false) × (read (text a) ≡ some a)

-- What encoding/json says of a value that it prints and reads again: booleans, integers and the float
-- and string zero values read back, and so does every float and string that it has decoded (a decoded
-- string is UTF-8).
pub record IsCodec (j : Json) : Type 0 where
  pub null_reads : j.is_null (codes "null") ≡ true
  pub bools : (b : Bool) → Reads j j.bool bool_text b
  pub ints : (n : Int64) → n < word → Reads j j.int int_text n
  pub zero_reads : Reads j j.float j.float_text zero_float
  pub empty_reads : Reads j j.string j.quote []
  pub words : (raw : Bytes) (n : Int64) → j.int raw ≡ some n → n < word
  pub floats : (raw : Bytes) (x : Float64) → j.float raw ≡ some x → Reads j j.float j.float_text x
  pub strings : (raw s : Bytes) → j.string raw ≡ some s → Reads j j.string j.quote s

-- The saved text of settings splits into its members.
abbrev pub SplitsSaved : Json → Type 0
SplitsSaved j = (v : View) → j.fields (saved_text j v) ≡ some (settings_fields j v)

abbrev pub AllOf : {A : Type 0} → (A → Type 0) → Option A → Type 0
AllOf P none = Unit
AllOf P (some a) = P a

-- Settings whose values are such that they read back.
pub record IsReadable (j : Json) (v : View) : Type 0 where
  pub recent_turns : v.protect_recent < word
  pub least : v.min_tokens_to_compress < word
  pub ratio : AllOf (Reads j j.float j.float_text) v.target_ratio
  pub model : AllOf (Reads j j.string j.quote) v.kompress_model
  pub profile : AllOf (Reads j j.string j.quote) v.savings_profile

module _ (j : Json) (law : IsCodec j) where
  plain-Reads :
      {A : Type 0} (read : Bytes → Option A) (text : A → Bytes) (f : A → View → View) (a : A)
      (v : View)
      → Reads j read text a
      → plain j read f (text a) v ≡ some (f a v)
  unfolding plain
  plain-Reads read text f a v (e, h) = rw (e, h) refl

  pointer-Reads :
      {A : Type 0} (read : Bytes → Option A) (text : A → Bytes) (g : Option A → View → View)
      (a : Option A) (v : View)
      → AllOf (Reads j read text) a
      → pointer j read (g none) (λ a. g (some a)) (or_null text a) v ≡ some (g a v)
  unfolding pointer or_null
  pointer-Reads read text g none v w = rw law.null_reads refl
  pointer-Reads read text g (some a) v (e, h) = rw (e, h) refl

  -- A member that is read.
  assigned :
      (fs : List (Setter View)) (key raw : Bytes) (rest : Dict Bytes) (v v' : View) (good : Bool)
      → assign fs key raw v ≡ some v'
      → assign_all fs ((key, raw) ∷ rest) v good ≡ assign_all fs rest v' good
  unfolding assign_all
  assigned fs key raw rest v v' good h = rw (h, assign_all) refl

  pub none_left :
      (fs : List (Setter View)) (v : View) (good : Bool) → assign_all fs [] v good ≡ (v, good)
  unfolding assign_all
  none_left fs v good = refl

  module _ (v : View) (r : IsReadable j v) where
    -- The members of settings give the settings, whatever was there before.
    pub fields_read :
        (rest : Dict Bytes) (w : View)
        → assign_all (view_setters j) (settings_fields j v ++ rest) w true
          ≡ assign_all (view_setters j) rest v true
    unfolding settings_fields
    fields_read rest w =
        let fs = view_setters j in
        let w1 = record w { compress_user_messages = v.compress_user_messages } in
        let w2 = record w1 { compress_system_messages = v.compress_system_messages } in
        let w3 = record w2 { protect_recent = v.protect_recent } in
        let w4 = record w3 { protect_analysis_context = v.protect_analysis_context } in
        let w5 = record w4 { target_ratio = v.target_ratio } in
        let w6 = record w5 { min_tokens_to_compress = v.min_tokens_to_compress } in
        let w7 = record w6 { kompress_model = v.kompress_model } in
        let w8 = record w7 { savings_profile = v.savings_profile } in
        assigned fs (codes "compress_user_messages") (bool_text v.compress_user_messages) _ w w1
          true
          (unfold assign view_setters equal_fold in
            plain-Reads j.bool bool_text (λ x v. record v { compress_user_messages = x })
              v.compress_user_messages w (law.bools v.compress_user_messages))
        ∙ assigned fs (codes "compress_system_messages") (bool_text v.compress_system_messages) _ w1
            w2 true
            (unfold assign view_setters equal_fold in
              plain-Reads j.bool bool_text (λ x v. record v { compress_system_messages = x })
                v.compress_system_messages w1 (law.bools v.compress_system_messages))
        ∙ assigned fs (codes "protect_recent") (int_text v.protect_recent) _ w2 w3 true (
            unfold assign view_setters equal_fold in
            plain-Reads j.int int_text (λ x v. record v { protect_recent = x }) v.protect_recent w2
              (law.ints v.protect_recent r.recent_turns))
        ∙ assigned fs (codes "protect_analysis_context") (bool_text v.protect_analysis_context) _ w3
            w4 true
            (unfold assign view_setters equal_fold in
              plain-Reads j.bool bool_text (λ x v. record v { protect_analysis_context = x })
                v.protect_analysis_context w3 (law.bools v.protect_analysis_context))
        ∙ assigned fs (codes "target_ratio") (or_null j.float_text v.target_ratio) _ w4 w5 true (
            unfold assign view_setters equal_fold in
            pointer-Reads j.float j.float_text (λ x v. record v { target_ratio = x }) v.target_ratio
              w4 r.ratio)
        ∙ assigned fs (codes "min_tokens_to_compress") (int_text v.min_tokens_to_compress) _ w5 w6
            true
            (unfold assign view_setters equal_fold in
              plain-Reads j.int int_text (λ x v. record v { min_tokens_to_compress = x })
                v.min_tokens_to_compress w5 (law.ints v.min_tokens_to_compress r.least))
        ∙ assigned fs (codes "kompress_model") (or_null j.quote v.kompress_model) _ w6 w7 true (
            unfold assign view_setters equal_fold in
            pointer-Reads j.string j.quote (λ x v. record v { kompress_model = x }) v.kompress_model
              w6 r.model)
        ∙ assigned fs (codes "savings_profile") (or_null j.quote v.savings_profile) _ w7 w8 true (
            unfold assign view_setters equal_fold in
            pointer-Reads j.string j.quote (λ x v. record v { savings_profile = x })
              v.savings_profile w7 r.profile)

    saved_text-updated_view :
        SplitsSaved j → (w : View) → updated_view j (saved_text j v) w ≡ (v, true)
    unfolding updated_view unmarshal
    saved_text-updated_view members w =
        rw (members v, unmarshal)
          (ap (λ fs. assign_all (view_setters j) fs w true) (sym (append-nil (settings_fields j v)))
            ∙ fields_read [] w
            ∙ none_left (view_setters j) v true)

    accept_loaded-current :
        (d : Target × Bool)
        → seen d.0 ≡ v
        → d.1 ≡ true
        → validate v ≡ none
        → seen (or_default (accept_loaded d)) ≡ v
    unfolding accept_loaded or_default
    accept_loaded-current (t, false) e g h = cc g
    accept_loaded-current (t, true) e g h = rw (ap validate e ∙ h, accept_loaded, or_default) e

    -- Valid settings that were saved are those of the next start.
    pub restarted-current :
        SplitsSaved j
        → (path : Bytes) → path ≢ []
        → validate v ≡ none
        → current (load_settings j path (contents (saved_text j v))) ≡ v
    unfolding current load_settings read_config
    restarted-current members path some_path h =
        let (w, reads, same) =
          unmarshal_settings-view j (saved_text j v) blank_target blank-IsWellFormed in
        let e = saved_text-updated_view members (seen blank_target) in
        elim (Bool-cases (bytes_eq path [])) [
          | inl q ↦ absurd (some_path ((bytes_eq_iff path []).0 q))
          | inr q ↦ rw q (
              accept_loaded-current (unmarshal_settings j (saved_text j v) blank_target)
                (reads ∙ ap (λ x. x.0) e) (same ∙ ap (λ x. x.1) e) h)
        ]
