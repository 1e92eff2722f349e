-- ===== src/Version.antt =====
-- pool.go: which headroom-ai versions have the savings_profile knob.
pub mod Threshold
mod Tests
use tsheadroom.Prelude.{Bytes, Bool, true, not, ◌||◌, ◌&&◌, List, [], ◌∷◌, Option, none, some, leb}
use tsheadroom.Go.Int64.{Int64, positive, is_negative}
use tsheadroom.Go.Strings.{split_n}
use tsheadroom.Go.Strconv.{atoi}

-- `major > 0 || minor >= 26` on ints.
unfoldable pub recent : Option Int64 → Option Int64 → Bool
unfolding positive is_negative
recent none minor = true
recent (some major) none = true
recent (some major) (some minor) = positive major || leb 26 minor && not (is_negative minor)

unfoldable pub supports_parts : List Bytes → Bool
unfolding recent
supports_parts (major ∷ minor ∷ rest) = recent (atoi major) (atoi minor)
supports_parts _ = true

unfoldable pub supports_savings_profile : Bytes → Bool
unfolding supports_parts
supports_savings_profile ver = supports_parts (split_n b'.' ver 3)
