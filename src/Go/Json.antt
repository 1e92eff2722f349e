-- ===== src/Go/Json.antt =====
-- Package encoding/json by destination type: the decoders of single values are the interface
-- `Json`; the decoding of a struct, field by field in document order, is written out.
use tsheadroom.Prelude.{
  Bytes, ◌++◌, map, Bool, true, false, List, [], ◌∷◌, Option, none, some, if◌then◌else◌,
}
use tsheadroom.Prelude.Dict.{Dict, set}
use tsheadroom.Go.Int64.{Int64}
use tsheadroom.Go.Float64.{Float64}
use tsheadroom.Go.Strings.{equal_fold, join}

-- `json.Unmarshal` into one type of Go; `none` is an error. `fields` splits an object into its keys
-- and raw values in document order (JSON null has none), `array` an array into raw elements.
-- `normalize` is Unmarshal into `any` followed by Marshal. `quote` and `float_text` encode a
-- string and a float.
pub record Json : Type 0 where
  pub is_null : Bytes → Bool
  pub bool : Bytes → Option Bool
  pub int : Bytes → Option Int64
  pub float : Bytes → Option Float64
  pub string : Bytes → Option Bytes
  pub fields : Bytes → Option (Dict Bytes)
  pub array : Bytes → Option (List Bytes)
  pub normalize : Bytes → Option Bytes
  pub quote : Bytes → Bytes
  pub float_text : Float64 → Bytes

-- One member of an object, and `json.Marshal` of a struct from its members' texts.
unfoldable pub member_text : Json → Bytes × Bytes → Bytes
member_text j (name, raw) = j.quote name ++ b':' ∷ raw

unfoldable pub object_text : Json → Dict Bytes → Bytes
unfolding member_text join
object_text j fields = b'{' ∷ join (map (member_text j) fields) (b',' ∷ []) ++ b'}' ∷ []

-- What a destination map holds: of two equal keys the later one counts.
unfoldable pub to_map : Dict Bytes → Dict Bytes → Dict Bytes
unfolding set
to_map m [] = m
to_map m ((k, raw) ∷ rest) = to_map (set k raw m) rest

-- `json.Unmarshal(raw, &m)` for a `map[string]json.RawMessage`.
unfoldable pub object : Json → Bytes → Option (Dict Bytes)
unfolding to_map
object j raw = elim (j.fields raw) [ none ↦ none | some fs ↦ some (to_map [] fs) ]

-- A field of a struct `S`: its JSON name and its assignment, `none` for a value of the wrong type.
abbrev pub Setter {ℓ} : Type ℓ → Type ℓ
Setter S = Bytes × (Bytes → S → Option S)

module _ {ℓ} {S : Type ℓ} where
  -- A key names a field up to the case of its ASCII letters; a key that names none is ignored.
  unfoldable pub assign : List (Setter S) → Bytes → Bytes → S → Option S
  assign [] key raw s = some s
  assign ((name, f) ∷ fs) key raw s = if equal_fold key name then f raw s else assign fs key raw s

  -- A value of the wrong type is skipped, and makes the whole decoding an error in the end.
  unfoldable pub assign_all : List (Setter S) → Dict Bytes → S → Bool → S × Bool
  assign_all fs [] s good = (s, good)
  assign_all fs ((k, raw) ∷ rest) s good = elim (assign fs k raw s) [
    | none ↦ assign_all fs rest s false
    | some s' ↦ assign_all fs rest s' good
  ]

  -- `json.Unmarshal(body, &s)`: the struct afterwards, and whether there was no error.
  unfoldable pub unmarshal : Json → List (Setter S) → Bytes → S → S × Bool
  unmarshal j fs body s = elim (j.fields body) [
    | none ↦ (s, false)
    | some raws ↦ assign_all fs raws s true
  ]

  -- A field that is no pointer: null leaves it alone.
  unfoldable pub plain {κ} :
      {A : Type κ} → Json → (Bytes → Option A) → (A → S → S) → Bytes → S → Option S
  plain j read write raw s =
      if j.is_null raw then some s else elim (read raw) [ none ↦ none | some a ↦ some (write a s) ]

  -- A `json.RawMessage` takes any value, null too.
  unfoldable pub raw_message : (Bytes → S → S) → Bytes → S → Option S
  raw_message write raw s = some (write raw s)

  unfoldable pub write_back {κ} : {T : Type κ} → (T → S → S) → S → T × Bool → Option S
  write_back write s (t, true) = some (write t s)
  write_back write s (t, false) = none

module _ {ℓ κ} {S : Type ℓ} {T : Type κ} where
  -- A nested struct is decoded onto its own old value; null leaves it alone.
  unfoldable pub nested : Json → List (Setter T) → (S → T) → (T → S → S) → Bytes → S → Option S
  unfolding unmarshal write_back
  nested j fs read write raw s =
      if j.is_null raw then some s else write_back write s (unmarshal j fs raw (read s))
