-- ===== src/Config/Store/SampleCodec.antt =====
-- A codec for settings texts, in which every string is written alike.
use mathlib.Core.List.{append_assoc}
use tsheadroom.Prelude.{
  ℕ, ◌==◌, ◌++◌, Bytes, codes, bytes_eq, Bool, false, List, [], ◌∷◌, map, Option, none, some, ◌≡◌,
  refl, sym, ap, ◌∙◌, if◌then◌else◌, All, All-append,
}
use tsheadroom.Prelude.Dict.{Dict}
use tsheadroom.Prelude.Lines.{IsLine, lines, with_char, lines-framed}
use tsheadroom.Go.Strings.{join}
use tsheadroom.Go.Strconv.{atoi}
use tsheadroom.Go.Float64.{zero_float}
use tsheadroom.Go.Json.{Json}
use tsheadroom.Config.{View}
use tsheadroom.Config.Json.{settings_fields, indented_field, saved_text}
use tsheadroom.Config.Texts.{int_text-IsLine, bool_text-IsLine, or_null-IsLine}
use tsheadroom.Config.Store.Restart.{SplitsSaved}

abbrev pub starts_null : Bytes → Bool
starts_null [] = false
starts_null (c ∷ cs) = c == b'n'

abbrev sample_bool : Bytes → Option Bool
sample_bool [] = none
sample_bool (c ∷ cs) = some (c == b't')

-- The lines of the members but the last end with a comma.
unfoldable pub init : Bytes → Bytes
init [] = []
init (c ∷ []) = []
init (c ∷ d ∷ cs) = c ∷ init (d ∷ cs)

abbrev pub raw_of : Bytes → Bytes
raw_of (a ∷ b ∷ c ∷ d ∷ e ∷ raw) = raw
raw_of raw = []

unfoldable pub members_of : List Bytes → List Bytes → Dict Bytes
unfolding init
members_of (name ∷ []) (l ∷ ls) = (name, raw_of l) ∷ []
members_of (name ∷ m ∷ names) (l ∷ ls) = (name, init (raw_of l)) ∷ members_of (m ∷ names) ls
members_of names ls = []

abbrev tail : List Bytes → List Bytes
tail [] = []
tail (l ∷ ls) = ls

abbrev field_names : List Bytes
field_names =
    codes "compress_user_messages"
    ∷ codes "compress_system_messages"
    ∷ codes "protect_recent"
    ∷ codes "protect_analysis_context"
    ∷ codes "target_ratio"
    ∷ codes "min_tokens_to_compress"
    ∷ codes "kompress_model"
    ∷ codes "savings_profile"
    ∷ []

abbrev pub sample_json : Json
sample_json = record {
  is_null = starts_null;
  bool = sample_bool;
  int = atoi;
  float = λ raw. if bytes_eq raw (codes "0") then some zero_float else none;
  string = λ raw. if bytes_eq raw (codes "-") then some [] else none;
  fields = λ body. some (members_of field_names (tail (lines body)));
  array = λ raw. none;
  normalize = λ raw. none;
  quote = λ s. codes "-";
  float_text = λ x. codes "0";
}

init-append : (b : Bytes) (c : ℕ) → init (b ++ c ∷ []) ≡ b
unfolding init
init-append [] c = refl
init-append (a ∷ []) c = refl
init-append (a ∷ d ∷ b) c = ap (λ b. a ∷ b) (init-append (d ∷ b) c)

lines_line : (x rest : Bytes) → IsLine x → lines (x ++ 10 ∷ rest) ≡ x ∷ lines rest
lines_line x rest v = ap lines (sym (append_assoc x (10 ∷ []) rest)) ∙ lines-framed x rest v

comma-IsLine : (x : Bytes) → IsLine x → IsLine (x ++ b',' ∷ [])
comma-IsLine x v = All-append _ x (b',' ∷ []) v (refl, tt)

lines_comma :
    (x later rest : Bytes)
    → IsLine x
    → lines ((x ++ (b',' ∷ 10 ∷ later)) ++ rest) ≡ (x ++ b',' ∷ []) ∷ lines (later ++ rest)
lines_comma x later rest v =
    ap lines (
      append_assoc x (b',' ∷ 10 ∷ later) rest
      ∙ sym (append_assoc x (b',' ∷ []) (10 ∷ (later ++ rest))))
    ∙ lines_line (x ++ b',' ∷ []) (later ++ rest) (comma-IsLine x v)

-- The members of an indented object are read back.
members_of-join :
    (fields : Dict Bytes) (rest : Bytes)
    → All (λ (e : Bytes × Bytes). IsLine e.1) fields
    → members_of
        (map (λ e. e.0) fields)
        (lines (join (map (indented_field sample_json) fields) (b',' ∷ 10 ∷ []) ++ 10 ∷ rest))
      ≡ fields
unfolding members_of join indented_field
members_of-join [] rest v = refl
members_of-join ((name, raw) ∷ []) rest (v, vs) =
    rw (lines_line (codes "  -: " ++ raw) rest (refl, (refl, (refl, (refl, (refl, v)))))) refl
members_of-join ((name, raw) ∷ e ∷ fields) rest (v, vs) =
    let x = codes "  -: " ++ raw in
    let later = join (map (indented_field sample_json) (e ∷ fields)) (b',' ∷ 10 ∷ []) in
    let named = members_of (map (λ e. e.0) ((name, raw) ∷ e ∷ fields)) in
    ap named (lines_comma x later (10 ∷ rest) (refl, (refl, (refl, (refl, (refl, v))))))
    ∙ ap
        (λ raw. (name, raw) ∷ members_of (map (λ e. e.0) (e ∷ fields)) (lines (later ++ 10 ∷ rest)))
        (init-append raw b',')
    ∙ ap (λ ms. (name, raw) ∷ ms) (members_of-join (e ∷ fields) rest vs)

sample_fields-AreLines :
    (v : View) → All (λ (e : Bytes × Bytes). IsLine e.1) (settings_fields sample_json v)
unfolding settings_fields
sample_fields-AreLines v = (
  bool_text-IsLine v.compress_user_messages,
  (
    bool_text-IsLine v.compress_system_messages,
    (
      int_text-IsLine v.protect_recent,
      (
        bool_text-IsLine v.protect_analysis_context,
        (
          or_null-IsLine (λ x. codes "0") v.target_ratio (λ x. (refl, tt)),
          (
            int_text-IsLine v.min_tokens_to_compress,
            (
              or_null-IsLine (λ s. codes "-") v.kompress_model (λ x. (refl, tt)),
              (or_null-IsLine (λ s. codes "-") v.savings_profile (λ x. (refl, tt)), tt),
            ),
          ),
        ),
      ),
    ),
  ),
)

members_of-object :
    (fields : Dict Bytes)
    → All (λ (e : Bytes × Bytes). IsLine e.1) fields
    → members_of (map (λ e. e.0) fields) (
        tail (
          lines (
            codes "{"
            ++ (10
                ∷ (join (map (indented_field sample_json) fields) (b',' ∷ 10 ∷ [])
                    ++ (10 ∷ (b'}' ∷ (10 ∷ []))))))))
      ≡ fields
unfolding lines with_char
members_of-object fields v = members_of-join fields (b'}' ∷ 10 ∷ []) v

sample_names : (v : View) → map (λ e. e.0) (settings_fields sample_json v) ≡ field_names
unfolding settings_fields
sample_names v = refl

sample_members :
    (v : View)
    → sample_json.fields (saved_text sample_json v) ≡ some (settings_fields sample_json v)
sample_members v =
    ap (λ names. some (members_of names (tail (lines (saved_text sample_json v)))))
      (sym (sample_names v))
    ∙ ap some (
        unfold saved_text in
        members_of-object (settings_fields sample_json v) (sample_fields-AreLines v))

pub sample_splits : SplitsSaved sample_json
sample_splits = sample_members
