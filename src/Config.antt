-- ===== src/Config.antt =====
-- config.go: the tunable settings, with the pointers that they share. `CompressSettings` is copied by
-- value, and the copies share the cells that its three pointer fields name.
pub mod Json
pub mod Texts
pub mod Store
pub mod Api
use tsheadroom.Prelude.{
  ℕ, ◌+◌, Bytes, codes, bytes_eq, Bool, true, false, not, ◌||◌, ◌&&◌, [], Option, none, some, ◌==◌,
  if◌then◌else◌,
}
use tsheadroom.Go.Int64.{Int64, is_negative}
use tsheadroom.Go.Float64.{Float64, zero_float, non_positive, exceeds_one}

-- The cells behind `*float64` and `*string`; those from `next` on are free.
pub record Heap : Type 0 where
  pub next : ℕ
  pub ratio : ℕ → Float64
  pub text : ℕ → Bytes

abbrev pub empty_heap : Heap
empty_heap = record { next = 0; ratio = λ _. zero_float; text = λ _. [] }

abbrev pub update {ℓ} : {A : Type ℓ} → (ℕ → A) → ℕ → A → ℕ → A
update f p v q = if p == q then v else f q

abbrev pub Pointer : Type 0
Pointer = Option ℕ

pub record CompressSettings : Type 0 where
  pub compress_user_messages : Bool
  pub compress_system_messages : Bool
  pub protect_recent : Int64
  pub protect_analysis_context : Bool
  pub target_ratio : Pointer
  pub min_tokens_to_compress : Int64
  pub kompress_model : Pointer
  pub savings_profile : Pointer

-- The zero value, and the defaults.
abbrev pub zero_settings : CompressSettings
zero_settings = record {
  compress_user_messages = false;
  compress_system_messages = false;
  protect_recent = 0;
  protect_analysis_context = false;
  target_ratio = none;
  min_tokens_to_compress = 0;
  kompress_model = none;
  savings_profile = none;
}

abbrev pub default_settings : CompressSettings
default_settings = record {
  compress_user_messages = false;
  compress_system_messages = true;
  protect_recent = 4;
  protect_analysis_context = true;
  target_ratio = none;
  min_tokens_to_compress = 250;
  kompress_model = none;
  savings_profile = none;
}

-- The settings as a reader sees them, with the cells read.
pub record View : Type 0 where
  pub compress_user_messages : Bool
  pub compress_system_messages : Bool
  pub protect_recent : Int64
  pub protect_analysis_context : Bool
  pub target_ratio : Option Float64
  pub min_tokens_to_compress : Int64
  pub kompress_model : Option Bytes
  pub savings_profile : Option Bytes

-- `*p`
abbrev pub deref {ℓ} : {A : Type ℓ} → (ℕ → A) → Pointer → Option A
deref cells none = none
deref cells (some p) = some (cells p)

unfoldable pub view : Heap → CompressSettings → View
view h s = record {
  compress_user_messages = s.compress_user_messages;
  compress_system_messages = s.compress_system_messages;
  protect_recent = s.protect_recent;
  protect_analysis_context = s.protect_analysis_context;
  target_ratio = deref h.ratio s.target_ratio;
  min_tokens_to_compress = s.min_tokens_to_compress;
  kompress_model = deref h.text s.kompress_model;
  savings_profile = deref h.text s.savings_profile;
}

pub data Invalid : Type 0 where
  protect_recent_negative min_tokens_negative target_ratio_range kompress_model_empty
        savings_profile_unknown :
      Invalid

-- `savingsProfiles[name]`
unfoldable pub savings_profiles : Bytes → Bool
unfolding bytes_eq
savings_profiles name = bytes_eq name (codes "agent-90") || bytes_eq name (codes "balanced")

unfoldable pub bad_ratio : Option Float64 → Bool
unfolding non_positive exceeds_one
bad_ratio none = false
bad_ratio (some r) = non_positive r || exceeds_one r

unfoldable pub bad_model : Option Bytes → Bool
unfolding bytes_eq
bad_model none = false
bad_model (some name) = bytes_eq name []

unfoldable pub bad_profile : Option Bytes → Bool
unfolding savings_profiles
bad_profile none = false
bad_profile (some name) = not (savings_profiles name)

-- The first complaint, or none.
unfoldable pub validate : View → Option Invalid
unfolding bad_ratio bad_model bad_profile is_negative
validate v =
    if is_negative v.protect_recent
    then some protect_recent_negative
    else if is_negative v.min_tokens_to_compress
    then some min_tokens_negative
    else if bad_ratio v.target_ratio
    then some target_ratio_range
    else if bad_model v.kompress_model
    then some kompress_model_empty
    else if bad_profile v.savings_profile
    then some savings_profile_unknown
    else none

unfoldable pub is_set : Pointer → Bool
is_set none = false
is_set (some p) = true

unfoldable pub text_enabled : CompressSettings → Bool
unfolding is_set
text_enabled s = s.compress_user_messages || s.compress_system_messages || is_set s.target_ratio
