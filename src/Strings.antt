-- ===== src/Strings.antt =====
-- fb_strings/src/string_utils.cpp, one module for each family of functions, and string_hash.cpp, over
-- lists of bytes. A `char` is its byte: where the code compares characters by order, the bounds are
-- ASCII, and bytes from 128 on (negative as a signed `char`) are outside either way; the comparisons of
-- texts, where the sign matters, take it as an argument.
pub mod Chars
pub mod Hex
pub mod Url
pub mod Html
pub mod Json
pub mod Base64
pub mod Split
pub mod Affix
pub mod Trim
pub mod Replace
pub mod Numbers
pub mod Pattern
pub mod Extract
pub mod Validate
pub mod Characters
pub mod Layout
pub mod Words
pub mod Lines
pub mod CaseStyle
pub mod Hash
pub mod Similar
pub mod Case
pub mod Compare
pub mod Levenshtein
mod Tests
