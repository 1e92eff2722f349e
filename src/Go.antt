-- ===== src/Go.antt =====
-- What the program uses of Go's standard library, on byte strings.
pub mod Strings
pub mod Strconv
pub mod Hash
pub mod Int64
pub mod Double
pub mod Float64
pub mod Json
