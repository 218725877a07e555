-- ===== src/Go.antt =====
-- What the program uses of Go itself: error values, and the formatting of numbers.
pub mod Errors
pub mod Format
pub mod Hex
