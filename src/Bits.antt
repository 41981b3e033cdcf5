-- ===== src/Bits.antt =====
-- Machine words as native numbers: the bits of a word, and laws of `&`, `|`, `~` at every bit.
mod Step
mod Fields
mod Lanes
pub use Step.*
pub use Fields.*
unfoldable pub use Lanes.*
