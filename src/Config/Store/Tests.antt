-- ===== src/Config/Store/Tests.antt =====
-- The store on small inputs, with decoders that read one key each.
use tsheadroom.Prelude.{Bytes, codes, true, false, [], ◌∷◌, none, some, ◌≡◌, ◌≢◌, ◌⊎◌, refl, arith}
use tsheadroom.Go.Float64.{half_float, five_float}
use tsheadroom.Go.Strings.{equal_fold}
use tsheadroom.Go.Json.{Json, unmarshal, assign, assign_all}
use tsheadroom.Config.{default_settings, validate, bad_ratio, bad_profile, view}
use tsheadroom.Config.Json.{unmarshal_settings, setters, pointer, put_ratio}
use tsheadroom.Config.Store.{
  Store, Error, contents, current, get_settings, load_settings, merge, merge_decoded, apply_locked,
}
use tsheadroom.Config.Store.Decoding.{IsWellFormed}
use tsheadroom.Config.Store.Setting.{load_settings-valid, store_target}
use tsheadroom.Config.Store.Merging.{IsMerged, IsRefused, merge-cases}
use tsheadroom.Config.Store.Partial.{names, Leaves}
use tsheadroom.Config.Store.Unnamed.{merge-Leaves}
use tsheadroom.Config.Store.Leak.{refused_ratio-current, get_settings-merge}

-- A body is the raw value of the one key.
abbrev one_key : Bytes → Json
one_key key = record {
  is_null = λ raw. false;
  bool = λ raw. none;
  int = λ raw. none;
  float = λ raw. some five_float;
  string = λ raw. some raw;
  fields = λ body. some ((key, body) ∷ []);
  array = λ raw. none;
  normalize = λ raw. none;
  quote = λ s. s;
  float_text = λ f. [];
}

abbrev ratio_json : Json
ratio_json = one_key (codes "target_ratio")

abbrev profile_json : Json
profile_json = one_key (codes "savings_profile")

-- The defaults with a ratio of one half in cell 0 and the profile "balanced" in cell 1.
abbrev tuned : Store
tuned = record {
  cur = record default_settings { target_ratio = some 0; savings_profile = some 1 };
  heap = record { next = 2; ratio = λ p. half_float; text = λ p. codes "balanced" };
  path = codes "/etc/tsheadroom.json";
  file = none;
}

abbrev plain_store : Store
plain_store = record tuned {
  cur = record tuned.cur { target_ratio = none; savings_profile = none };
}

tuned-IsWellFormed : IsWellFormed (store_target tuned)
tuned-IsWellFormed = omega arith

five_is_bad : bad_ratio (some five_float) ≡ true
unfolding bad_ratio
five_is_bad = refl

fast_is_bad : bad_profile (some (codes "fast")) ≡ true
unfolding bad_profile
fast_is_bad = refl

load_settings-valid_example :
    validate (current (load_settings ratio_json (codes "/x") (contents (codes "5")))) ≡ none
load_settings-valid_example = (load_settings-valid ratio_json (codes "/x") (contents (codes "5"))).0

merge-cases_example :
    (((merge profile_json true (codes "agent-90") tuned).1 ≡ none)
      × IsMerged profile_json
          (codes "agent-90")
          tuned
          (merge profile_json true (codes "agent-90") tuned).0)
    ⊎ ((e : Error) × ((merge profile_json true (codes "agent-90") tuned).1 ≡ some e)
        × IsRefused tuned (merge profile_json true (codes "agent-90") tuned).0)
merge-cases_example = merge-cases profile_json true (codes "agent-90") tuned tuned-IsWellFormed

plain_refused : (merge ratio_json true (codes "5") plain_store).1 ≢ none
unfolding merge merge_decoded unmarshal_settings setters unmarshal assign assign_all equal_fold
    pointer put_ratio apply_locked validate view
plain_refused e = cc e

refused_ratio-current_example :
    ((merge ratio_json true (codes "5") tuned).1 ≢ none)
    × ((current (merge ratio_json true (codes "5") tuned).0).target_ratio ≡ some five_float)
    × (validate (current (merge ratio_json true (codes "5") tuned).0) ≢ none)
refused_ratio-current_example =
    refused_ratio-current ratio_json true (codes "5") (codes "5") tuned 0 five_float refl refl refl
      refl five_is_bad

get_settings-merge_example :
    (view (merge ratio_json true (codes "5") tuned).0.heap (get_settings tuned)).target_ratio
    ≡ some five_float
get_settings-merge_example =
    get_settings-merge ratio_json true (codes "5") (codes "5") tuned 0 five_float refl refl refl
      refl

merge-Leaves_example :
    Leaves
      (names profile_json (codes "agent-90"))
      (current tuned)
      (current (merge profile_json true (codes "agent-90") tuned).0)
merge-Leaves_example = merge-Leaves profile_json true (codes "agent-90") tuned tuned-IsWellFormed
