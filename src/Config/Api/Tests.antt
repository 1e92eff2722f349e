-- ===== src/Config/Api/Tests.antt =====
-- The configuration handler on small inputs.
use tsheadroom.Prelude.{
  arith, if◌then◌else◌, ◌||◌, ltb, leb, bytes_eq, bytes_ne, Bytes, codes, true, false, [], ◌∷◌,
  none, some, ◌≡◌, refl,
}
use tsheadroom.Go.Strings.{trim_space, equal_fold, split_n}
use tsheadroom.Go.Strconv.{atoi}
use tsheadroom.Go.Float64.{five_float}
use tsheadroom.Go.Json.{Json}
use tsheadroom.Version.{supports_savings_profile}
use tsheadroom.Config.{default_settings, empty_heap, validate, view, savings_profiles}
use tsheadroom.Config.Store.{Store, current, merge, merge_returns}
use tsheadroom.Config.Store.Decoding.{IsWellFormed}
use tsheadroom.Config.Store.Setting.{store_target}
use tsheadroom.Config.Api.{
  ConfigRequest, settings, reply_merged, failure, profile_needs_version, put_body, serve_config,
}
use tsheadroom.Config.Api.Gate.{version_text, put_body_gated}
use tsheadroom.Config.Api.Bypass.{put_body_bypassed}
use tsheadroom.Config.Api.Replies.{IsHonest, serve_config-IsHonest}

abbrev one_key : Bytes → Json
one_key key = record {
  is_null = λ raw. false;
  bool = λ raw. none;
  int = λ raw. none;
  float = λ raw. some five_float;
  string = λ raw. some raw;
  fields = λ body. some ((key, body) ∷ []);
  array = λ raw. none;
  normalize = λ raw. none;
  quote = λ s. s;
  float_text = λ f. [];
}

abbrev pub fresh : Store
fresh = record { cur = default_settings; heap = empty_heap; path = []; file = none }

old_version : supports_savings_profile (codes "0.25.1") ≡ false
unfolding supports_savings_profile atoi split_n
old_version = refl

abbrev exact : Json
exact = one_key (codes "savings_profile")

abbrev shouted : Json
shouted = one_key (codes "Savings_Profile")

fresh-IsWellFormed : IsWellFormed (store_target fresh)
fresh-IsWellFormed = record { ratio = tt; model = tt; profile = tt; apart = tt }

put_body_gated_example :
    put_body exact
      (some (some (version_text 0 25 (codes "1"))))
      true
      (some (codes "agent-90"))
      fresh
    ≡ (if bytes_eq (trim_space (codes "agent-90")) (codes "null") || (ltb 0 0 || leb 26 25)
        then reply_merged
            (merge_returns exact (codes "agent-90") fresh)
            (merge exact true (codes "agent-90") fresh)
        else (fresh, failure (profile_needs_version (version_text 0 25 (codes "1")))))
put_body_gated_example =
    put_body_gated exact true (codes "agent-90") (codes "agent-90") [] 0 25 (codes "1") fresh refl
      (omega arith) (omega arith)

fresh-valid : validate (current fresh) ≡ none
unfolding validate current view
fresh-valid = refl

put_body_bypassed_example :
    ((put_body shouted (some (some (codes "0.25.1"))) true (some (codes "agent-90")) fresh).1
      ≡ settings (record (current fresh) { savings_profile = some (codes "agent-90") }) [])
    × (current
          (put_body shouted (some (some (codes "0.25.1"))) true (some (codes "agent-90")) fresh).0
        ≡ record (current fresh) { savings_profile = some (codes "agent-90") })
unfolding equal_fold bytes_eq savings_profiles
put_body_bypassed_example =
    put_body_bypassed shouted (some (some (codes "0.25.1"))) (codes "agent-90")
      (codes "Savings_Profile") (codes "agent-90") (codes "agent-90") fresh fresh-IsWellFormed
      fresh-valid refl refl refl (bytes_ne (codes "Savings_Profile") (codes "savings_profile") refl)
      refl refl

abbrev put_agent : ConfigRequest
put_agent = record {
  method = codes "PUT";
  body = record { bytes = codes "agent-90"; failed = false };
}

serve_config-IsHonest_example :
    IsHonest fresh
      (serve_config exact none true put_agent fresh).0
      (serve_config exact none true put_agent fresh).1
serve_config-IsHonest_example =
    serve_config-IsHonest exact none true put_agent fresh fresh-IsWellFormed
