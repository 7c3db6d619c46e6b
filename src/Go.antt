-- ===== src/Go.antt =====
-- What the program uses of Go itself: 64-bit integers, errors and panics, texts.
pub mod Int
pub mod Error
pub mod Text
