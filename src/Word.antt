-- ===== src/Word.antt =====
-- C's unsigned words as native numbers: shifts of one, complements and tests of single bits.
-- `bit x i` is the meaning of `(x >> i) & 1`; the laws say what the bitwise operators do to it.
mod Defs
mod Digits
mod Laws
mod Scan
unfoldable pub use Defs.{bit, complement, has_bit, clear_bit, set_bit}
pub use Laws.*
unfoldable pub use Scan.{lowest}
pub use Digits.{bit_and_step}
pub use Scan.{Lowest, lowest_lem, bit-ones, nonzero_of_bit}
