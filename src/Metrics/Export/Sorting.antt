-- ===== src/Metrics/Export/Sorting.antt =====
-- The order of the label values in an exported family.
use mathlib.Core.List.{Perm}
use mathlib.Core.List.Perm
use tsheadroom.Prelude.{◌≡◌, true, Bool-cases, inl, inr, Bytes, List, [], ◌∷◌, arith}
use tsheadroom.Go.Strings.{str_le}
use tsheadroom.Go.Strings.Laws.{str_le_total}
use tsheadroom.Metrics.Export.{insert_sorted, sort_strings}

abbrev pub Above : Bytes → List Bytes → Type 0
Above k [] = Unit
Above k (j ∷ ks) = str_le k j ≡ true

abbrev pub IsSorted : List Bytes → Type 0
IsSorted [] = Unit
IsSorted (k ∷ ks) = Above k ks × IsSorted ks

insert_sorted-Above :
    (b k : Bytes) (ks : List Bytes) → str_le b k ≡ true → Above b ks → Above b (insert_sorted k ks)
unfolding insert_sorted
insert_sorted-Above b k [] h v = h
insert_sorted-Above b k (j ∷ ks) h v = ground arith

insert_sorted-IsSorted : (k : Bytes) (ks : List Bytes) → IsSorted ks → IsSorted (insert_sorted k ks)
unfolding insert_sorted
insert_sorted-IsSorted k [] v = (tt, tt)
insert_sorted-IsSorted k (j ∷ ks) v = elim (Bool-cases (str_le k j)) [
  | inl e ↦ rw e (e, v)
  | inr e ↦
      rw e (insert_sorted-Above j k ks (str_le_total k j e) v.0, insert_sorted-IsSorted k ks v.1)
]

insert_sorted-perm : (k : Bytes) (ks : List Bytes) → Perm (insert_sorted k ks) (k ∷ ks)
unfolding insert_sorted
insert_sorted-perm k [] = Perm.refl (k ∷ [])
insert_sorted-perm k (j ∷ ks) = elim (Bool-cases (str_le k j)) [
  | inl e ↦ rw e (Perm.refl (k ∷ j ∷ ks))
  | inr e ↦ rw e (Perm.trans (Perm.cons j (insert_sorted-perm k ks)) (Perm.swap k j ks))
]

-- The label values of a family come in ascending byte order, and each as often as in the snapshot.
pub sort_strings-IsSorted :
    (ks : List Bytes) → IsSorted (sort_strings ks) × Perm (sort_strings ks) ks
unfolding sort_strings
sort_strings-IsSorted [] = (tt, Perm.refl [])
sort_strings-IsSorted (k ∷ ks) =
    let (sorted, perm) = sort_strings-IsSorted ks in
    (
      insert_sorted-IsSorted k (sort_strings ks) sorted,
      Perm.trans (insert_sorted-perm k (sort_strings ks)) (Perm.cons k perm),
    )
