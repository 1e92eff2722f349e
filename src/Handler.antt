-- ===== src/Handler.antt =====
-- handler.go: the data of a hook call, and what the parts below share.
pub mod Affinity
pub mod Process
pub mod Serve
use tsheadroom.Prelude.{Bytes, codes, [], ◌∷◌, List, Option, none, some}
use tsheadroom.Prelude.Dict.{Dict}
use tsheadroom.Go.Json.{Json, Setter, plain, nested, raw_message}

pub record HookMetadata : Type 0 where
  pub provider : Bytes
  pub model : Bytes
  pub session_id : Bytes

pub record HookCallData : Type 0 where
  pub metadata : HookMetadata
  pub request_body : Bytes

abbrev pub no_metadata : HookMetadata
no_metadata = record { provider = []; model = []; session_id = [] }

abbrev pub no_data : HookCallData
no_data = record { metadata = no_metadata; request_body = [] }

unfoldable pub metadata_setters : Json → List (Setter HookMetadata)
metadata_setters j =
    (codes "provider", plain j j.string (λ s m. record m { provider = s }))
    ∷ (codes "model", plain j j.string (λ s m. record m { model = s }))
    ∷ (codes "session_id", plain j j.string (λ s m. record m { session_id = s }))
    ∷ []

unfoldable pub hook_setters : Json → List (Setter HookCallData)
unfolding metadata_setters
hook_setters j =
    (
      codes "metadata",
      nested j (metadata_setters j) (λ d. d.metadata) (λ m d. record d { metadata = m }),
    )
    ∷ (codes "request_body", raw_message (λ raw d. record d { request_body = raw }))
    ∷ []

-- A nil body is omitted from the response.
pub record GuardrailResponse : Type 0 where
  pub action : Bytes
  pub request_body : Option (Dict Bytes)

abbrev pub allow_action : Bytes
allow_action = codes "allow"

abbrev pub modify_action : Bytes
modify_action = codes "modify"

abbrev pub allow : GuardrailResponse
allow = record { action = allow_action; request_body = none }
