-- ===== src/Text.antt =====
-- strfunctions.c: the UTF-8 codec, the terminal character sets, and the string helpers.
pub mod Utf8
pub mod Charset
pub mod Search
pub mod Replace
pub mod Strings
mod Tests
