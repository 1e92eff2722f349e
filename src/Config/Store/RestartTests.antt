-- ===== src/Config/Store/RestartTests.antt =====
-- A restart after two PUTs, the first of which is refused.
use tsheadroom.Prelude.{Bytes, Bool, codes, true, false, List, [], ◌∷◌, none, some, ◌≡◌, ◌≢◌, refl}
use tsheadroom.Prelude.{bytes_eq}
use tsheadroom.Prelude.Lines.{lines, with_char}
use tsheadroom.Go.Strings.{equal_fold, join}
use tsheadroom.Go.Strconv.{itoa, digits, digit, atoi, read_number, read_digits, is_digit, in_range}
use tsheadroom.Go.Json.{unmarshal, assign_all, assign, plain}
use tsheadroom.Config.{validate, default_settings, empty_heap, view}
use tsheadroom.Config.Json.{
  saved_text, unmarshal_settings, setters, pointer, indented_field, settings_fields, bool_text,
  int_text, or_null,
}
use tsheadroom.Config.Store.{
  contents, not_exist, current, load_settings, merge, merge_decoded, read_config, or_default,
  defaults, apply_locked, save, swap,
}
use tsheadroom.Config.Store.SampleLaw.{sample_law}
use tsheadroom.Config.Store.SampleCodec.{sample_json, sample_splits, members_of, init}
use tsheadroom.Config.Store.Persistence.{merge_all, merge-restarted}

abbrev config_path : Bytes
config_path = codes "/c"

abbrev other_text : Bytes
other_text =
    saved_text sample_json (record (view empty_heap default_settings) { protect_recent = 7 })

abbrev refused_first : List (Bytes × Bool)
refused_first = (other_text, false) ∷ []

has_path : config_path ≢ []
has_path = cc

accepted :
    (merge sample_json true other_text
      (merge_all sample_json refused_first (load_settings sample_json config_path not_exist))).1
    ≡ none
unfolding merge_all merge merge_decoded unmarshal_settings unmarshal assign_all assign setters
    equal_fold plain pointer members_of lines with_char saved_text view load_settings read_config
    or_default defaults apply_locked validate save swap join indented_field settings_fields
    bool_text int_text or_null itoa digits digit atoi read_number read_digits init bytes_eq is_digit
    in_range
accepted = refl

merge-restarted_example :
    (f : Bytes) × ((merge sample_json true other_text (
        merge_all sample_json refused_first
          (load_settings sample_json config_path not_exist))).0.file
      ≡ some f)
    × (current (load_settings sample_json config_path (contents f))
        ≡ current
            (merge sample_json true other_text (
              merge_all sample_json refused_first
                (load_settings sample_json config_path not_exist))).0)
merge-restarted_example =
    merge-restarted sample_json (sample_law sample_json.fields) sample_splits config_path not_exist
      refused_first other_text true has_path accepted
