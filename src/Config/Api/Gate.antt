-- ===== src/Config/Api/Gate.antt =====
-- The version gate in front of savings_profile, and the spelling that passes it.
use tsheadroom.Prelude.{
  ℕ, ◌<◌, ◌^◌, ◌++◌, ltb, leb, not, ◌||◌, if◌then◌else◌, ap, ◌∙◌, Bytes, codes, bytes_eq,
  bytes_eq_refl, bytes_eq_iff, Bool, true, false, List, [], ◌∷◌, Option, none, some, ◌≡◌, ◌≢◌, refl,
  arith,
}
use tsheadroom.Prelude.Dict.{Dict, get, set, get-set}
use tsheadroom.Go.Strings.{trim_space, equal_fold, to_lower}
use tsheadroom.Go.Json.{Json, Setter, object, to_map, assign, assign_all, unmarshal}
use tsheadroom.Go.Strconv.{itoa}
use tsheadroom.Version.{supports_savings_profile}
use tsheadroom.Version.Threshold.{supports_savings_profile-eq}
use tsheadroom.Config.{View}
use tsheadroom.Config.Json.{pointer}
use tsheadroom.Config.Store.{Store, merge, merge_returns}
use tsheadroom.Config.Store.Decoding.{updated_view, view_setters}
use tsheadroom.Config.Api.{
  failure, profile_needs_version, detected_version, setting_non_null_savings_profile, probe_profile,
  not_null, too_old, gate, put_body, reply_merged,
}

not-not : (b : Bool) → not (not b) ≡ b
not-not true = refl
not-not false = refl

to_map-last :
    (before m : Dict Bytes) (k raw : Bytes)
    → to_map m (before ++ (k, raw) ∷ []) ≡ set k raw (to_map m before)
unfolding to_map
to_map-last [] m k raw = refl
to_map-last ((i, r) ∷ before) m k raw = to_map-last before (set i r m) k raw

-- What the probe of the gate finds of a body that ends with the key.
probed :
    (j : Json) (body raw : Bytes) (before : Dict Bytes)
    → j.fields body ≡ some (before ++ (codes "savings_profile", raw) ∷ [])
    → setting_non_null_savings_profile j body ≡ not (bytes_eq (trim_space raw) (codes "null"))
probed j body raw before f =
    unfold setting_non_null_savings_profile in rw split (unfold probe_profile in rw found named)
  where
    probe : Dict Bytes
    probe = set (codes "savings_profile") raw (to_map [] before)

    split : object j body ≡ some probe
    split =
        unfold object in
        rw (f, object) (ap some (to_map-last before [] (codes "savings_profile") raw))

    found : get (codes "savings_profile") probe ≡ some raw
    found =
        get-set (codes "savings_profile") (codes "savings_profile") raw (to_map [] before)
        ∙ (rw (bytes_eq_refl (codes "savings_profile")) refl)

    named : not_null (some raw) ≡ not (bytes_eq (trim_space raw) (codes "null"))
    named = unfold not_null in refl

abbrev pub version_text : ℕ → ℕ → Bytes → Bytes
version_text major minor patch = itoa major ++ b'.' ∷ (itoa minor ++ b'.' ∷ patch)

gate-decided :
    (j : Json) (body ver : Bytes) (sets supported : Bool)
    → setting_non_null_savings_profile j body ≡ sets
    → supports_savings_profile ver ≡ supported
    → gate j (some (some ver)) body ≡ (if not sets || supported then none else some ver)
unfolding gate too_old detected_version
gate-decided j body ver true true s v = rw (s, v) refl
gate-decided j body ver true false s v = rw (s, v) refl
gate-decided j body ver false true s v = rw s refl
gate-decided j body ver false false s v = rw s refl

put_body-decided :
    (j : Json) (version : Option (Option Bytes)) (writable : Bool) (body ver : Bytes) (st : Store)
    (pass : Bool)
    → gate j version body ≡ (if pass then none else some ver)
    → put_body j version writable (some body) st ≡ (
        if pass
        then reply_merged (merge_returns j body st) (merge j writable body st)
        else (st, failure (profile_needs_version ver)))
unfolding put_body
put_body-decided j version writable body ver st true g = rw (g, put_body) refl
put_body-decided j version writable body ver st false g = rw (g, put_body) refl

-- While the workers report a version "major.minor.patch", a body that ends with a value of
-- savings_profile is merged if that value is null or the version is 0.26 or later, and else refused,
-- with nothing changed.
pub put_body_gated :
    (j : Json) (writable : Bool) (body raw : Bytes) (before : Dict Bytes) (major minor : ℕ)
    (patch : Bytes) (st : Store)
    → j.fields body ≡ some (before ++ (codes "savings_profile", raw) ∷ [])
    → major < 2 ^ 63
    → minor < 2 ^ 63
    → put_body j (some (some (version_text major minor patch))) writable (some body) st ≡ (
        if bytes_eq (trim_space raw) (codes "null") || (ltb 0 major || leb 26 minor)
        then reply_merged (merge_returns j body st) (merge j writable body st)
        else (st, failure (profile_needs_version (version_text major minor patch))))
put_body_gated j writable body raw before major minor patch st f a b =
    put_body-decided j _ writable body (version_text major minor patch) st _ (
      gate-decided j body (version_text major minor patch) _ _ (probed j body raw before f)
        (supports_savings_profile-eq major minor patch a b)
      ∙ ap
          (λ n.
            if n || (ltb 0 major || leb 26 minor)
            then none
            else some (version_text major minor patch))
          (not-not (bytes_eq (trim_space raw) (codes "null"))))

module _ {ℓ} {S : Type ℓ} where
  -- The decoder reads a key only up to case.
  assign-to_lower :
      (fs : List (Setter S)) (k l raw : Bytes) (s : S)
      → to_lower k ≡ to_lower l
      → assign fs k raw s ≡ assign fs l raw s
  unfolding assign equal_fold
  assign-to_lower [] k l raw s e = refl
  assign-to_lower ((n, f) ∷ fs) k l raw s e = rw e (ground (arith, assign-to_lower fs k l raw s e))

assign_profile :
    (j : Json) (raw name : Bytes) (v : View)
    → j.is_null raw ≡ false
    → j.string raw ≡ some name
    → assign (view_setters j) (codes "savings_profile") raw v
      ≡ some (record v { savings_profile = some name })
unfolding assign view_setters equal_fold pointer
assign_profile j raw name v n s = rw (n, s) refl

-- A body whose only key is savings_profile in another case passes the gate, whatever the version,
-- and asks to set the profile.
pub gate_bypassed :
    (j : Json) (version : Option (Option Bytes)) (body k raw name : Bytes) (v : View)
    → j.fields body ≡ some ((k, raw) ∷ [])
    → equal_fold k (codes "savings_profile") ≡ true
    → k ≢ codes "savings_profile"
    → j.is_null raw ≡ false
    → j.string raw ≡ some name
    → (gate j version body ≡ none)
      × (updated_view j body v ≡ (record v { savings_profile = some name }, true))
gate_bypassed j version body k raw name v f e n z s = (unseen, set_anyway)
  where
    folded : to_lower k ≡ to_lower (codes "savings_profile")
    folded =
        unfold equal_fold in (bytes_eq_iff (to_lower k) (to_lower (codes "savings_profile"))).0 e

    absent : object j body ≡ some ((k, raw) ∷ [])
    absent = unfold object to_map set in rw (f, object) refl

    unseen : gate j version body ≡ none
    unseen =
        unfold gate setting_non_null_savings_profile in
        rw absent (
          unfold probe_profile get not_null in
          ground (arith, bytes_eq_iff k (codes "savings_profile")))

    set_anyway : updated_view j body v ≡ (record v { savings_profile = some name }, true)
    set_anyway =
        unfold updated_view unmarshal assign_all in
        rw
          (
            f,
            unmarshal,
            assign_all,
            assign-to_lower (view_setters j) k (codes "savings_profile") raw v folded,
            assign_profile j raw name v z s,
          )
          refl
