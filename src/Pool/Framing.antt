-- ===== src/Pool/Framing.antt =====
-- The requests of a worker, as lines of its stdin.
use tsheadroom.Prelude.{
  Bytes, codes, bytes_eq, [], ◌∷◌, map, Option, some, ◌≡◌, refl, inl, inr, Bool-cases, Option-cases,
  All, All-append,
}
use tsheadroom.Prelude.Lines.{IsLine, join-IsLine}
use tsheadroom.Config.Texts.{int_text-IsLine, bool_text-IsLine, or_null-IsLine}
use tsheadroom.Prelude.Dict.{Dict}
use tsheadroom.Go.Int64.{Int64}
use tsheadroom.Go.Float64.{Float64}
use tsheadroom.Go.Strings.{join}
use tsheadroom.Go.Json.{Json, member_text, object_text}
use tsheadroom.Config.{View}
use tsheadroom.Config.Json.{int_text, settings_fields}
use tsheadroom.Protocol.{CompressRequest}
use tsheadroom.Pool.Wire.{request_fields, envelope_text, request_text}

-- What encoding/json says of its output: a string has its control characters escaped, a compacted
-- value no white space between its tokens, and a number no line feed.
pub record IsCompact (j : Json) (compact : Bytes → Option Bytes) : Type 0 where
  pub quoted : (s : Bytes) → IsLine (j.quote s)
  pub printed : (x : Float64) → IsLine (j.float_text x)
  pub compacted : (raw text : Bytes) → compact raw ≡ some text → IsLine text

-- Texts of members without a line feed.
abbrev AreLines : Dict Bytes → Type 0
AreLines fields = All (λ (e : Bytes × Bytes). IsLine e.1) fields

module _ (j : Json) (compact : Bytes → Option Bytes) (law : IsCompact j compact) where
  members-IsLine : (fields : Dict Bytes) → AreLines fields → All IsLine (map (member_text j) fields)
  unfolding member_text
  members-IsLine [] v = tt
  members-IsLine ((name, raw) ∷ fields) (v, vs) = (
    All-append _ (j.quote name) (b':' ∷ raw) (law.quoted name) (refl, v),
    members-IsLine fields vs,
  )

  object_text-IsLine : (fields : Dict Bytes) → AreLines fields → IsLine (object_text j fields)
  unfolding object_text
  object_text-IsLine fields v = (
    refl,
    All-append _ (join (map (member_text j) fields) (b',' ∷ [])) (b'}' ∷ [])
        (join-IsLine (map (member_text j) fields) (b',' ∷ []) (members-IsLine fields v) (refl, tt))
        (refl, tt),
  )

  settings-AreLines : (v : View) → AreLines (settings_fields j v)
  unfolding settings_fields
  settings-AreLines v = (
    bool_text-IsLine v.compress_user_messages,
    (
      bool_text-IsLine v.compress_system_messages,
      (
        int_text-IsLine v.protect_recent,
        (
          bool_text-IsLine v.protect_analysis_context,
          (
            or_null-IsLine j.float_text v.target_ratio law.printed,
            (
              int_text-IsLine v.min_tokens_to_compress,
              (
                or_null-IsLine j.quote v.kompress_model law.quoted,
                (or_null-IsLine j.quote v.savings_profile law.quoted, tt),
              ),
            ),
          ),
        ),
      ),
    ),
  )

  request-AreLines :
      (messages : Bytes) (req : CompressRequest)
      → IsLine messages
      → AreLines (request_fields j messages req)
  unfolding request_fields
  request-AreLines messages req v = elim (Bool-cases (bytes_eq req.model [])) [
    | inl q ↦
        rw q (
          v,
          (object_text-IsLine (settings_fields j req.config) (settings-AreLines req.config), tt),
        )
    | inr q ↦ rw q (
      v,
      (
        law.quoted req.model,
        (object_text-IsLine (settings_fields j req.config) (settings-AreLines req.config), tt),
      ),
    )
  ]

  envelope_text-IsLine :
      (id : Int64) (req : CompressRequest) (messages : Bytes)
      → IsLine messages
      → IsLine (envelope_text j id req messages)
  unfolding envelope_text
  envelope_text-IsLine id req messages v =
      object_text-IsLine
        ((codes "id", int_text id)
          ∷ (codes "payload", object_text j (request_fields j messages req))
          ∷ [])
        (
          int_text-IsLine id,
          (
            object_text-IsLine (request_fields j messages req) (request-AreLines messages req v),
            tt,
          ),
        )

  -- An encoded request has no line feed.
  pub request_text-IsLine :
      (id : Int64) (req : CompressRequest) (text : Bytes)
      → request_text j compact id req ≡ some text
      → IsLine text
  unfolding request_text
  request_text-IsLine id req text h = elim (Option-cases (compact req.messages)) [
    | inl n ↦ cc (rw (n, request_text) at h)
    | inr (m, n) ↦
        let e : envelope_text j id req m ≡ text = cc (rw (n, request_text) at h) in
        rw⁻¹ e (envelope_text-IsLine id req m (law.compacted req.messages m n))
  ]
