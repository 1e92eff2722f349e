-- ===== src/Config/Api/Bypass.antt =====
-- A savings profile in another spelling of its key, under a version that is too old for it.
use tsheadroom.Prelude.{
  Bytes, codes, true, false, [], ◌∷◌, Option, none, some, ◌≡◌, ◌≢◌, ap, ◌∙◌, arith,
}
use tsheadroom.Go.Strings.{equal_fold}
use tsheadroom.Go.Json.{Json}
use tsheadroom.Config.{View, validate, savings_profiles, bad_profile}
use tsheadroom.Config.Json.{unmarshal_settings}
use tsheadroom.Config.Store.{Store, current, merge, merge_returns}
use tsheadroom.Config.Store.Decoding.{IsWellFormed, updated_view, unmarshal_settings-view}
use tsheadroom.Config.Store.Setting.{store_target}
use tsheadroom.Config.Store.Merging.{merge-merge_returns}
use tsheadroom.Config.Api.{settings, put_body}
use tsheadroom.Config.Api.Gate.{gate_bypassed}
use tsheadroom.Config.Api.Echo.{merge_decoded-accepts, replied}

abbrev with_profile : Bytes → View → View
with_profile name v = record v { savings_profile = some name }

validate-profile :
    (v : View) (name : Bytes)
    → savings_profiles name ≡ true
    → validate v ≡ none
    → validate (with_profile name v) ≡ none
unfolding validate bad_profile
validate-profile v name p h = ground arith

merge-profile :
    (j : Json) (body name : Bytes) (st : Store)
    → IsWellFormed (store_target st)
    → updated_view j body (current st) ≡ (with_profile name (current st), true)
    → validate (with_profile name (current st)) ≡ none
    → ((merge j true body st).1 ≡ none)
      × (current (merge j true body st).0 ≡ with_profile name (current st))
unfolding merge current
merge-profile j body name st w e h =
    let (_, reads, same) = unmarshal_settings-view j body (store_target st) w in
    merge_decoded-accepts j (unmarshal_settings j body (store_target st)) st
      (with_profile name (current st)) (reads ∙ ap (λ x. x.0) e) (same ∙ ap (λ x. x.1) e) h

-- A PUT whose only key is savings_profile in another case, with a profile that there is, is accepted
-- whatever version the workers report: it answers with that profile, which is then in force. (The
-- settings before are valid, and the disk takes the file.)
pub put_body_bypassed :
    (j : Json) (version : Option (Option Bytes)) (body key raw name : Bytes) (st : Store)
    → IsWellFormed (store_target st)
    → validate (current st) ≡ none
    → savings_profiles name ≡ true
    → j.fields body ≡ some ((key, raw) ∷ [])
    → equal_fold key (codes "savings_profile") ≡ true
    → key ≢ codes "savings_profile"
    → j.is_null raw ≡ false
    → j.string raw ≡ some name
    → ((put_body j version true (some body) st).1 ≡ settings (with_profile name (current st)) [])
      × (current (put_body j version true (some body) st).0 ≡ with_profile name (current st))
unfolding put_body
put_body_bypassed j version body key raw name st w good known f e n z s =
    let (passes, sets) = gate_bypassed j version body key raw name (current st) f e n z s in
    let (a, b) =
      merge-profile j body name st w sets (validate-profile (current st) name known good) in
    rw (passes, put_body)
      (replied j (merge_returns j body st) (merge j true body st) (with_profile name (current st))
        (merge-merge_returns j true body st) a b)
