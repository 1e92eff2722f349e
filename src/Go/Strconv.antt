-- ===== src/Go/Strconv.antt =====
-- Package strconv: `Itoa`, `FormatUint(n, 16)` and `Atoi`.
mod Defs
pub mod Digits
mod Roundtrip
unfoldable pub use Defs.*
pub use Roundtrip.{atoi-itoa, atoi-minus, digit-ne-dot}
