-- ===== src/Metrics/Export/OrderTests.antt =====
-- A family with two label values, met in either order.
use mathlib.Core.List.{Perm}
use mathlib.Core.List.Perm
use tsheadroom.Prelude.{Bytes, codes, true, bytes_eq, [], ◌∷◌, none, some, ◌≡◌, arith}
use tsheadroom.Prelude.Dict.{Dict, get}
use tsheadroom.Go.Int64.{Int64}
use tsheadroom.Metrics.{Metrics, new_metrics, count}
use tsheadroom.Metrics.Export.{keys, export}
use tsheadroom.Metrics.Export.Order.{IsSameMap, export-ordered}

abbrev one_way : Dict Int64
one_way = (codes "openai", 1) ∷ (codes "anthropic", 2) ∷ []

abbrev other_way : Dict Int64
other_way = (codes "anthropic", 2) ∷ (codes "openai", 1) ∷ []

abbrev counted : Metrics
counted = record new_metrics { by_provider = one_way; by_model = one_way; by_outcome = one_way }

two_names :
    (k : Bytes) → bytes_eq (codes "openai") k ≡ true → bytes_eq (codes "anthropic") k ≡ true → ⊥
unfolding bytes_eq
two_names [] h i = cc h
two_names (c ∷ k) h i = ground arith

same_counts : (k : Bytes) → count k one_way ≡ count k other_way
unfolding count get
same_counts k = ground (arith, two_names k)

keys_swapped : Perm (keys one_way) (keys other_way)
unfolding keys
keys_swapped = Perm.swap (codes "anthropic") (codes "openai") []

same_map : IsSameMap one_way other_way
same_map = (keys_swapped, same_counts)

export-ordered_example :
    export (some counted) none none
    ≡ export
        (some (record counted {
          by_provider = other_way;
          by_model = other_way;
          by_outcome = other_way;
        }))
        none
        none
export-ordered_example =
    export-ordered counted other_way other_way other_way none none same_map same_map same_map
