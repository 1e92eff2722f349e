-- ===== src/Config/Json.antt =====
-- config.go through encoding/json: decoding a body onto settings, cell by cell, and the indented text
-- that is saved.
use tsheadroom.Prelude.{
  ◌+◌, ◌-◌, Bytes, codes, Bool, true, false, List, [], ◌∷◌, ◌++◌, map, Option, none, some,
  if◌then◌else◌,
}
use tsheadroom.Prelude.Dict.{Dict}
use tsheadroom.Go.Int64.{Int64}
use tsheadroom.Go.Float64.{Float64}
use tsheadroom.Go.Strings.{join}
use tsheadroom.Go.Strconv.{itoa}
use tsheadroom.Go.Int64.{is_negative, word}
use tsheadroom.Go.Json.{Json, Setter, plain, unmarshal}
use tsheadroom.Config.{Heap, Pointer, CompressSettings, View, update}

-- What a decoder works on: the destination, and the cells.
pub record Target : Type 0 where
  pub heap : Heap
  pub settings : CompressSettings

-- Decoding into a pointer: a nil one gets a fresh cell, any other keeps its cell, which is written.
unfoldable pub write_ratio : Float64 → Heap → Pointer → Heap × Pointer
write_ratio r h none =
    (record h { next = h.next + 1; ratio = update h.ratio h.next r }, some h.next)
write_ratio r h (some p) = (record h { ratio = update h.ratio p r }, some p)

unfoldable pub write_text : Bytes → Heap → Pointer → Heap × Pointer
write_text s h none = (record h { next = h.next + 1; text = update h.text h.next s }, some h.next)
write_text s h (some p) = (record h { text = update h.text p s }, some p)

abbrev pub settings_with : (CompressSettings → CompressSettings) → Target → Target
settings_with f t = record t { settings = f t.settings }

unfoldable pub put_ratio : Float64 → Target → Target
unfolding write_ratio
put_ratio r t =
    let (h, p) = write_ratio r t.heap t.settings.target_ratio in
    record { heap = h; settings = record t.settings { target_ratio = p } }

unfoldable pub put_model : Bytes → Target → Target
unfolding write_text
put_model s t =
    let (h, p) = write_text s t.heap t.settings.kompress_model in
    record { heap = h; settings = record t.settings { kompress_model = p } }

unfoldable pub put_profile : Bytes → Target → Target
unfolding write_text
put_profile s t =
    let (h, p) = write_text s t.heap t.settings.savings_profile in
    record { heap = h; settings = record t.settings { savings_profile = p } }

-- A pointer field: null makes it nil. For a value of the wrong type encoding/json gives a nil pointer
-- a fresh cell before it finds the error; that is left out, since the callers drop the struct of a
-- failed decoding, and nothing else names the cell.
unfoldable pub pointer {ℓ κ} :
    {S : Type ℓ} {A : Type κ}
    → Json
    → (Bytes → Option A)
    → (S → S)
    → (A → S → S)
    → Bytes
    → S
    → Option S
pointer j read clear write raw s =
    if j.is_null raw
    then some (clear s)
    else elim (read raw) [ none ↦ none | some a ↦ some (write a s) ]

unfoldable pub setters : Json → List (Setter Target)
setters j =
    (
      codes "compress_user_messages",
      plain j j.bool (λ b. settings_with (λ s. record s { compress_user_messages = b })),
    )
    ∷ (
      codes "compress_system_messages",
      plain j j.bool (λ b. settings_with (λ s. record s { compress_system_messages = b })),
    )
    ∷ (
      codes "protect_recent",
      plain j j.int (λ n. settings_with (λ s. record s { protect_recent = n })),
    )
    ∷ (
      codes "protect_analysis_context",
      plain j j.bool (λ b. settings_with (λ s. record s { protect_analysis_context = b })),
    )
    ∷ (
      codes "target_ratio",
      pointer j j.float (settings_with (λ s. record s { target_ratio = none })) put_ratio,
    )
    ∷ (
      codes "min_tokens_to_compress",
      plain j j.int (λ n. settings_with (λ s. record s { min_tokens_to_compress = n })),
    )
    ∷ (
      codes "kompress_model",
      pointer j j.string (settings_with (λ s. record s { kompress_model = none })) put_model,
    )
    ∷ (
      codes "savings_profile",
      pointer j j.string (settings_with (λ s. record s { savings_profile = none })) put_profile,
    )
    ∷ []

-- `json.Unmarshal(body, &settings)`. After an error only the cells that were there before count.
unfoldable pub unmarshal_settings : Json → Bytes → Target → Target × Bool
unfolding unmarshal setters
unmarshal_settings j body t = unmarshal j (setters j) body t

-- The encodings of single values.
unfoldable pub bool_text : Bool → Bytes
bool_text true = codes "true"
bool_text false = codes "false"

unfoldable pub int_text : Int64 → Bytes
unfolding is_negative itoa
int_text n = if is_negative n then b'-' ∷ itoa (word - n) else itoa n

unfoldable pub or_null {ℓ} : {A : Type ℓ} → (A → Bytes) → Option A → Bytes
or_null text none = codes "null"
or_null text (some a) = text a

unfoldable pub settings_fields : Json → View → Dict Bytes
unfolding bool_text int_text or_null
settings_fields j v =
    (codes "compress_user_messages", bool_text v.compress_user_messages)
    ∷ (codes "compress_system_messages", bool_text v.compress_system_messages)
    ∷ (codes "protect_recent", int_text v.protect_recent)
    ∷ (codes "protect_analysis_context", bool_text v.protect_analysis_context)
    ∷ (codes "target_ratio", or_null j.float_text v.target_ratio)
    ∷ (codes "min_tokens_to_compress", int_text v.min_tokens_to_compress)
    ∷ (codes "kompress_model", or_null j.quote v.kompress_model)
    ∷ (codes "savings_profile", or_null j.quote v.savings_profile)
    ∷ []

unfoldable pub indented_field : Json → Bytes × Bytes → Bytes
indented_field j (name, raw) = codes "  " ++ (j.quote name ++ (codes ": " ++ raw))

-- `json.MarshalIndent(s, "", "  ")` and the final line feed.
unfoldable pub saved_text : Json → View → Bytes
unfolding settings_fields indented_field join
saved_text j v =
    codes "{"
    ++ (10
        ∷ (join (map (indented_field j) (settings_fields j v)) (b',' ∷ 10 ∷ [])
            ++ (10 ∷ (b'}' ∷ (10 ∷ [])))))
