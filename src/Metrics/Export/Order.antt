-- ===== src/Metrics/Export/Order.antt =====
-- The exposition and the order in which Go iterates over a map.
use mathlib.Core.List.{Perm}
use mathlib.Core.List.Perm
use mathlib.Core.List.{foldr}
use tsheadroom.Prelude.{
  codes, ◌≡◌, refl, sym, ap, ◌∙◌, Bytes, List, [], ◌∷◌, ◌++◌, Option, some, arith,
}
use tsheadroom.Prelude.Dict.{Dict}
use tsheadroom.Go.Int64.{Int64}
use tsheadroom.Go.Strings.Laws.{str_le_total, str_le_antisym, str_le_trans}
use tsheadroom.Metrics.{Metrics, count}
use tsheadroom.Metrics.Export.{
  keys, insert_sorted, sort_strings, samples, labeled, headroom_families, tsheadroom_families,
  overhead_min_out, pool_families, affinity_families, concat, export,
}

-- Two keys can be inserted in either order.
insert_sorted_comm :
    (a b : Bytes) (ks : List Bytes)
    → insert_sorted a (insert_sorted b ks) ≡ insert_sorted b (insert_sorted a ks)
unfolding insert_sorted
insert_sorted_comm a b [] = ground (arith, str_le_total a b, str_le_antisym a b)
insert_sorted_comm a b (k ∷ ks) = ground (
  arith,
  str_le_total a b,
  str_le_antisym a b,
  str_le_total a k,
  str_le_total b k,
  str_le_trans a b k,
  str_le_trans b a k,
  insert_sorted_comm a b ks,
)

sort_strings-foldr : (ks : List Bytes) → sort_strings ks ≡ foldr insert_sorted [] ks
unfolding sort_strings
sort_strings-foldr [] = refl
sort_strings-foldr (k ∷ ks) = ap (insert_sorted k) (sort_strings-foldr ks)

bytes_list-IsSet : IsSet (List Bytes)
bytes_list-IsSet = hlevel

-- Sorting forgets the order.
sort_strings-perm : (ks js : List Bytes) → Perm ks js → sort_strings ks ≡ sort_strings js
sort_strings-perm ks js p =
    sort_strings-foldr ks
    ∙ Perm.foldr-eq bytes_list-IsSet insert_sorted insert_sorted_comm p []
    ∙ sym (sort_strings-foldr js)

-- Two maps as Go compares them: the same keys, in whatever order, with the same values.
abbrev pub IsSameMap : Dict Int64 → Dict Int64 → Type 0
IsSameMap a b = Perm (keys a) (keys b) × ((k : Bytes) → count k a ≡ count k b)

samples_congr :
    (name label : Bytes) (a b : Dict Int64) (ks : List Bytes)
    → ((k : Bytes) → count k a ≡ count k b)
    → samples name label a ks ≡ samples name label b ks
unfolding samples
samples_congr name label a b [] h = refl
samples_congr name label a b (k ∷ ks) h = rw (h k, samples_congr name label a b ks h) refl

labeled-IsSameMap :
    (name typ help label : Bytes) (a b : Dict Int64)
    → IsSameMap a b
    → labeled name typ help label a ≡ labeled name typ help label b
unfolding labeled
labeled-IsSameMap name typ help label a b (p, h) =
    rw
      (
        sort_strings-perm (keys a) (keys b) p,
        samples_congr name label a b (sort_strings (keys b)) h,
      )
      refl

headroom_families-IsSameMap :
    (m : Metrics) (providers models outcomes : Dict Int64)
    → IsSameMap m.by_provider providers
    → IsSameMap m.by_model models
    → headroom_families m
      ≡ headroom_families
          (record m { by_provider = providers; by_model = models; by_outcome = outcomes })
unfolding headroom_families overhead_min_out
headroom_families-IsSameMap m providers models outcomes p q =
    let a =
      labeled-IsSameMap (codes "headroom_requests_by_provider") (codes "counter")
        (codes "Requests by provider") (codes "provider") m.by_provider providers p in
    let b =
      labeled-IsSameMap (codes "headroom_requests_by_model") (codes "counter")
        (codes "Requests by model") (codes "model") m.by_model models q in
    cc (a, b)

tsheadroom_families-IsSameMap :
    (m : Metrics) (providers models outcomes : Dict Int64)
    → IsSameMap m.by_outcome outcomes
    → tsheadroom_families m
      ≡ tsheadroom_families
          (record m { by_provider = providers; by_model = models; by_outcome = outcomes })
unfolding tsheadroom_families
tsheadroom_families-IsSameMap m providers models outcomes p =
    let a =
      labeled-IsSameMap (codes "tsheadroom_requests_by_outcome") (codes "counter")
        (codes "Requests by outcome") (codes "outcome") m.by_outcome outcomes p in
    cc a

-- The exposition does not depend on the order in which Go iterates over the three maps of counts: with
-- the same keys in another order, and the same count for each, it is the same text.
pub export-ordered :
    (m : Metrics) (providers models outcomes : Dict Int64) (pool affinity : Option (Int64 × Int64))
    → IsSameMap m.by_provider providers
    → IsSameMap m.by_model models
    → IsSameMap m.by_outcome outcomes
    → export (some m) pool affinity
      ≡ export
          (some (record m { by_provider = providers; by_model = models; by_outcome = outcomes }))
          pool
          affinity
unfolding export
export-ordered m providers models outcomes pool affinity p q r =
    let a = headroom_families-IsSameMap m providers models outcomes p q in
    let b = tsheadroom_families-IsSameMap m providers models outcomes r in
    ap
      (λ t.
        concat (t ++ (tsheadroom_families m ++ (pool_families pool ++ affinity_families affinity))))
      a
    ∙ ap
        (λ t. concat (
          headroom_families
            (record m { by_provider = providers; by_model = models; by_outcome = outcomes })
          ++ (t ++ (pool_families pool ++ affinity_families affinity))))
        b
