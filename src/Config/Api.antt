-- ===== src/Config/Api.antt =====
-- config.go: the GET and PUT handler over the store.
pub mod Gate
pub mod Replies
pub mod Text
pub mod Echo
pub mod Bypass
mod EchoTests
mod Tests
use tsheadroom.Prelude.{
  ℕ, ◌*◌, ◌^◌, Bytes, codes, bytes_eq, Bool, true, false, not, ◌||◌, ◌&&◌, [], Option, none, some,
  if◌then◌else◌,
}
use tsheadroom.Prelude.Dict.{Dict, get}
use tsheadroom.Go.Strings.{trim_space}
use tsheadroom.Go.Json.{Json, object}
use tsheadroom.Encoding.{Stream, read_limited}
use tsheadroom.Version.{supports_savings_profile}
use tsheadroom.Config.{CompressSettings, View, view}
use tsheadroom.Config.Store.{Store, Error, current, merge, merge_returns}

-- 64 << 10
abbrev pub max_config_body : ℕ
max_config_body = 64 * 2 ^ 10

pub record ConfigRequest : Type 0 where
  pub method : Bytes
  pub body : Stream

pub data Failure : Type 0 where
  read_body_failed : Failure
  profile_needs_version : Bytes → Failure
  refused : Error → Failure
  method_not_allowed : Failure

-- The body of a 200 with the version that GET adds (empty: omitted), or an error text.
pub data Reply : Type 0 where
  settings : View → Bytes → Reply
  failure : Failure → Reply

unfoldable pub status : Reply → ℕ
status (settings v ver) = 200
status (failure method_not_allowed) = 405
status (failure f) = 400

-- The accessor is nil in tests; it may not know the version yet.
unfoldable pub detected_version : Option (Option Bytes) → Option Bytes
detected_version none = none
detected_version (some known) = known

unfoldable pub not_null : Option Bytes → Bool
unfolding trim_space bytes_eq
not_null none = false
not_null (some raw) = not (bytes_eq (trim_space raw) (codes "null"))

unfoldable pub probe_profile : Option (Dict Bytes) → Bool
unfolding not_null get
probe_profile none = false
probe_profile (some probe) = not_null (get (codes "savings_profile") probe)

unfoldable pub setting_non_null_savings_profile : Json → Bytes → Bool
unfolding probe_profile
setting_non_null_savings_profile j body = probe_profile (object j body)

unfoldable pub too_old : Option Bytes → Option Bytes
too_old none = none
too_old (some ver) = if supports_savings_profile ver then none else some ver

-- The reply to a PUT: the struct that `merge` returned, as its cells read then.
unfoldable pub reply_merged : CompressSettings → Store × Option Error → Store × Reply
reply_merged updated (st, none) = (st, settings (view st.heap updated) [])
reply_merged updated (st, some e) = (st, failure (refused e))

-- The version that stands in the way of the body, if any.
unfoldable pub gate : Json → Option (Option Bytes) → Bytes → Option Bytes
gate j version body =
    if setting_non_null_savings_profile j body then too_old (detected_version version) else none

unfoldable pub put_body : Json → Option (Option Bytes) → Bool → Option Bytes → Store → Store × Reply
put_body j version writable none st = (st, failure read_body_failed)
put_body j version writable (some body) st = elim (gate j version body) [
  | some ver ↦ (st, failure (profile_needs_version ver))
  | none ↦ reply_merged (merge_returns j body st) (merge j writable body st)
]

unfoldable pub shown_version : Option Bytes → Bytes
shown_version none = []
shown_version (some ver) = ver

unfoldable pub serve_config :
    Json → Option (Option Bytes) → Bool → ConfigRequest → Store → Store × Reply
serve_config j version writable r st =
    if bytes_eq r.method (codes "GET")
    then (st, settings (current st) (shown_version (detected_version version)))
    else if bytes_eq r.method (codes "PUT") || bytes_eq r.method (codes "POST")
    then put_body j version writable (read_limited max_config_body r.body) st
    else (st, failure method_not_allowed)
