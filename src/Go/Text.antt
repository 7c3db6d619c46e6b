-- ===== src/Go/Text.antt =====
-- The functions of package strings that the program calls, over well-formed UTF-8 texts.
pub mod Trim
pub mod Split
pub mod Number
pub mod Digits
pub mod Printed
