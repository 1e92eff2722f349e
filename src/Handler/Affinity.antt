-- ===== src/Handler/Affinity.antt =====
-- handler.go: the routing key of a conversation.
use tsheadroom.Prelude.{
  Bytes, bytes_eq, List, [], ◌∷◌, none, some, ◌≡◌, refl, ◌≢◌, arith, bytes_eq_iff, if◌then◌else◌,
}
use tsheadroom.Go.Hash.{offset64, write64}
use tsheadroom.Go.Strconv.{format_uint}
use tsheadroom.Go.Json.{Json}

-- A message that parses is written with its keys sorted, any other as it is.
unfoldable pub normal_bytes : Json → Bytes → Bytes
normal_bytes j m = elim (j.normalize m) [ none ↦ m | some b ↦ b ]

unfoldable pub hash_messages : Json → List Bytes → Bytes
hash_messages j [] = []
hash_messages j (m ∷ []) = format_uint (write64 offset64 (normal_bytes j m)) 16
hash_messages j (m ∷ m' ∷ rest) =
    format_uint (write64 (write64 offset64 (normal_bytes j m)) (normal_bytes j m')) 16

unfoldable pub affinity_key : Json → Bytes → List Bytes → Bytes
affinity_key j session_id messages =
    if bytes_eq session_id [] then hash_messages j messages else session_id

-- A session is routed by its own id, whatever its messages.
session_key : (j : Json) (s : Bytes) (ms : List Bytes) → s ≢ [] → affinity_key j s ms ≡ s
unfolding affinity_key
session_key j s ms h = ground (arith, bytes_eq_iff s [])

-- Two turns of the same session, or of none, that share the opening two messages up to the normal
-- form of each have the same key, whatever follows.
pub affinity_key-opening :
    (j : Json) (s : Bytes) (m₁ m₂ n₁ n₂ : Bytes) (rest later : List Bytes)
    → normal_bytes j m₁ ≡ normal_bytes j n₁
    → normal_bytes j m₂ ≡ normal_bytes j n₂
    → affinity_key j s (m₁ ∷ m₂ ∷ rest) ≡ affinity_key j s (n₁ ∷ n₂ ∷ later)
affinity_key-opening j s m₁ m₂ n₁ n₂ rest later e f =
    unfold affinity_key hash_messages in rw (e, f) refl
