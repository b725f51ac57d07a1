-- ===== src/Prelude/Bits.antt =====
-- Bits of a machine word: the laws of `w | (1 << b)`, `w & ~(1 << b)` and of the compiler's bit
-- scans, from the digit recursion of the native operations.
mod Digits
mod Scan
unfoldable pub use Digits.*
unfoldable pub use Scan.*
