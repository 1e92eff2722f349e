-- ===== src/Config/Api/EchoTests.antt =====
-- A GET and a PUT of what it shows, after an update.
use tsheadroom.Prelude.{
  Bytes, Bool, codes, bytes_eq, true, false, List, [], ◌∷◌, Option, none, some, ◌≡◌, refl,
  if◌then◌else◌,
}
use tsheadroom.Prelude.Dict.{Dict, set}
use tsheadroom.Prelude.Dict as D
use tsheadroom.Encoding.{Stream, read_limited}
use tsheadroom.Go.Json.{Json}
use tsheadroom.Prelude.Lines.{lines, with_char}
use tsheadroom.Go.Strings.{equal_fold, join, trim_space, trim_left, trim_right}
use tsheadroom.Go.Strconv.{itoa, digits, digit, atoi, read_number, read_digits, is_digit, in_range}
use tsheadroom.Go.Json.{
  unmarshal, assign_all, assign, plain, object_text, member_text, object, to_map,
}
use tsheadroom.Config.{View, view, validate, default_settings, empty_heap}
use tsheadroom.Config.Json.{
  saved_text, unmarshal_settings, setters, pointer, indented_field, settings_fields, bool_text,
  int_text, or_null,
}
use tsheadroom.Config.Store.{
  Store, not_exist, current, load_settings, merge, merge_decoded, read_config, or_default, defaults,
  apply_locked, save, swap,
}
use tsheadroom.Config.Store.SampleLaw.{sample_law}
use tsheadroom.Config.Store.SampleCodec.{sample_json, members_of, init}
use tsheadroom.Config.Store.Persistence.{merge_all}
use tsheadroom.Config.Api.{
  settings, gate, shown_version, detected_version, serve_config, max_config_body,
  setting_non_null_savings_profile, probe_profile, not_null,
}
use tsheadroom.Config.Api.Text.{Causes, http_reply, view_fields, view_text}
use tsheadroom.Config.Api.Echo.{get_request, put_request, serve_config-echo}

abbrev seven : View
seven = record (view empty_heap default_settings) { protect_recent = 7 }

abbrev version : Bytes
version = codes "0.26"

-- The text of a GET of these settings splits into its members; any other body as a saved one.
abbrev split : Bytes → Option (Dict Bytes)
split body =
    if bytes_eq body (view_text sample_json seven version)
    then some (view_fields sample_json seven version)
    else sample_json.fields body

abbrev shown_json : Json
shown_json = record sample_json { fields = split }

abbrev updates : List (Bytes × Bool)
updates = (saved_text sample_json seven, true) ∷ []

abbrev updated : Store
updated = merge_all shown_json updates (load_settings shown_json (codes "/c") not_exist)

is_seven : current updated ≡ seven
unfolding merge_all merge merge_decoded unmarshal_settings unmarshal assign_all assign setters
    equal_fold plain pointer members_of lines with_char saved_text view load_settings read_config
    or_default defaults apply_locked validate save swap join indented_field settings_fields
    bool_text int_text or_null itoa digits digit atoi read_number read_digits init bytes_eq is_digit
    in_range current view_text object_text
is_seven = refl

shown_splits :
    shown_json.fields (view_text shown_json seven version)
    ≡ some (view_fields shown_json seven version)
unfolding view_text view_fields object_text member_text settings_fields bool_text int_text or_null
    itoa digits digit bytes_eq join view
shown_splits = refl

seven_valid : validate seven ≡ none
unfolding validate view
seven_valid = refl

seven_passes : gate shown_json (some (some version)) (view_text shown_json seven version) ≡ none
unfolding gate setting_non_null_savings_profile object to_map set probe_profile not_null D.get
    trim_space trim_left trim_right view_text view_fields object_text member_text settings_fields
    bool_text int_text or_null itoa digits digit bytes_eq join members_of init lines with_char view
seven_passes = refl

splits :
    shown_json.fields (view_text shown_json (current updated) version)
    ≡ some (view_fields shown_json (current updated) version)
splits = rw is_seven (shown_splits)

good : validate (current updated) ≡ none
good = rw is_seven seven_valid

passes :
    gate shown_json (some (some version)) (view_text shown_json (current updated) version) ≡ none
passes = rw is_seven seven_passes

abbrev causes : Causes
causes = record { decoding = []; disk = [] }

abbrev empty_stream : Stream
empty_stream = record { bytes = []; failed = false }

abbrev shown : Bytes
shown =
    (http_reply shown_json causes
      (serve_config shown_json (some (some version)) true (get_request empty_stream)
        updated).1).body

abbrev sent_back : Stream
sent_back = record { bytes = shown; failed = false }

shown_text : shown ≡ view_text shown_json (current updated) version
unfolding serve_config http_reply shown_version detected_version bytes_eq
shown_text = refl

seven_arrives :
    read_limited max_config_body
      (record { bytes = view_text shown_json seven version; failed = false })
    ≡ some (view_text shown_json seven version)
unfolding read_limited view_text view_fields object_text member_text settings_fields bool_text
    int_text or_null itoa digits digit bytes_eq join view
seven_arrives = refl

arrives : read_limited max_config_body sent_back ≡ some shown
arrives = rw (shown_text, is_seven) seven_arrives

known : shown_version (detected_version (some (some version))) ≡ version
unfolding shown_version detected_version
known = refl

serve_config-echo_example :
    ((serve_config shown_json (some (some version)) true (put_request sent_back) updated).1
      ≡ settings (current updated) [])
    × (current
          (serve_config shown_json (some (some version)) true (put_request sent_back) updated).0
        ≡ current updated)
serve_config-echo_example =
    serve_config-echo shown_json (sample_law split) (codes "/c") not_exist updates updated causes
      (some (some version)) empty_stream sent_back shown refl good refl
      (rw (shown_text, known) splits) arrives (rw shown_text passes)
