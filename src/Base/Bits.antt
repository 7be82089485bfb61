-- ===== src/Base/Bits.antt =====
-- The bit operations of C on unsigned numbers: shifts, masks, fields, and the laws of xor.
mod Step
mod Fields
mod Xor
unfoldable pub use Fields.*
pub use Xor.*
pub use Prim.Native.Nat.{bit_and, bit_or, bit_xor}
