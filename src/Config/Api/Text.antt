-- ===== src/Config/Api/Text.antt =====
-- config.go: the replies of the configuration handler on the wire: `writeJSON` and `http.Error`.
use tsheadroom.Prelude.{ℕ, Bytes, codes, bytes_eq, [], ◌∷◌, ◌++◌, if◌then◌else◌}
use tsheadroom.Prelude.Dict.{Dict}
use tsheadroom.Go.Json.{Json, object_text}
use tsheadroom.Config.{
  View, Invalid, protect_recent_negative, min_tokens_negative, target_ratio_range,
  kompress_model_empty, savings_profile_unknown,
}
use tsheadroom.Config.Json.{settings_fields}
use tsheadroom.Config.Store.{Error, bad_json, invalid, persist}
use tsheadroom.Config.Api.{
  Failure, read_body_failed, profile_needs_version, refused, method_not_allowed, Reply, settings,
  failure, status,
}

-- `configView`: the fields of the settings, and the version unless it is empty.
unfoldable pub view_fields : Json → View → Bytes → Dict Bytes
unfolding settings_fields
view_fields j v ver =
    settings_fields j v
    ++ (if bytes_eq ver [] then [] else (codes "headroom_version", j.quote ver) ∷ [])

-- The Encoder ends the text with a line feed.
unfoldable pub view_text : Json → View → Bytes → Bytes
unfolding view_fields object_text
view_text j v ver = object_text j (view_fields j v ver) ++ 10 ∷ []

unfoldable pub invalid_text : Invalid → Bytes
invalid_text protect_recent_negative = codes "protect_recent must be >= 0"
invalid_text min_tokens_negative = codes "min_tokens_to_compress must be >= 0"
invalid_text target_ratio_range = codes "target_ratio must be in (0, 1] or null"
invalid_text kompress_model_empty = codes "kompress_model must be a non-empty string or null"
invalid_text savings_profile_unknown =
    codes "savings_profile must be one of agent-90, balanced, or null"

-- The texts of the errors of other packages: of a body that does not decode, and of the disk.
pub record Causes : Type 0 where
  pub decoding : Bytes
  pub disk : Bytes

unfoldable pub merge_error_text : Causes → Error → Bytes
unfolding invalid_text
merge_error_text c bad_json = c.decoding
merge_error_text c (invalid i) = invalid_text i
merge_error_text c persist = codes "persist config: " ++ c.disk

unfoldable pub failure_text : Causes → Failure → Bytes
unfolding merge_error_text
failure_text c read_body_failed = codes "read body failed"
failure_text c (profile_needs_version ver) =
    codes "savings_profile requires headroom-ai >= 0.26.0 (detected " ++ (ver ++ codes ")")
failure_text c (refused e) = merge_error_text c e
failure_text c method_not_allowed = codes "method not allowed"

pub record HttpReply : Type 0 where
  pub code : ℕ
  pub content_type : Bytes
  pub body : Bytes

-- `http.Error` ends the text with a line feed.
unfoldable pub http_reply : Json → Causes → Reply → HttpReply
unfolding view_text failure_text status
http_reply j c (settings v ver) = record {
  code = 200;
  content_type = codes "application/json";
  body = view_text j v ver;
}
http_reply j c (failure f) = record {
  code = status (failure f);
  content_type = codes "text/plain; charset=utf-8";
  body = failure_text c f ++ 10 ∷ [];
}
