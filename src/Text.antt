-- ===== src/Text.antt =====
-- base/stringutil.cpp. A `char` is its byte, a number below 2 ^ 8; where the code promotes it to
-- `int` the byte is read as a signed one, as on the compilers of the solution files.
pub mod Chars
pub mod CharLaws
pub mod Hex
pub mod HexLaws
pub mod HexNumber
pub mod TrimLaws
pub mod Split
pub mod SplitLaws
pub mod ListSplit
pub mod Trim
pub mod Words
pub mod StrMap
pub mod StrMapLaws
mod Tests
