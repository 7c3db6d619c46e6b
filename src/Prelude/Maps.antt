-- ===== src/Prelude/Maps.antt =====
-- Go maps as association lists: the first entry of a key counts, and a write replaces it.
-- `Nat` is for maps keyed by numbers, `Str` for maps keyed by texts.
pub mod Nat
pub mod Str
