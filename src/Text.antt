-- ===== src/Text.antt =====
-- Rust's `String`: a byte list that is valid UTF-8, and the check of `String::from_utf8`.
pub mod Ascii
use phantasma_sdk_rs.Prelude.{
  ℕ, ◌-◌, [], ◌∷◌, Bool, true, false, ◌&&◌, Option, some, none, ltb, leb, ◌==◌, if◌then◌else◌,
}
use phantasma_sdk_rs.Stream.{Bytes, Get, pure, fail}
use phantasma_sdk_rs.Error.{serialization}

-- Where a scan of UTF-8 stands: between two characters, or before so many continuation bytes, of
-- which the next lies in a range.
pub data Scan : Type 0 where
  between : Scan
  within : ℕ → ℕ → ℕ → Scan

-- The first byte of a character: the ranges leave out overlong forms, surrogates and what lies
-- beyond U+10FFFF.
unfoldable pub utf8_first : ℕ → Option Scan
utf8_first b =
    if ltb b 0x80
    then some between
    else if leb 0xC2 b && leb b 0xDF
    then some (within 1 0x80 0xBF)
    else if b == 0xE0
    then some (within 2 0xA0 0xBF)
    else if b == 0xED
    then some (within 2 0x80 0x9F)
    else if leb 0xE1 b && leb b 0xEF
    then some (within 2 0x80 0xBF)
    else if b == 0xF0
    then some (within 3 0x90 0xBF)
    else if leb 0xF1 b && leb b 0xF3
    then some (within 3 0x80 0xBF)
    else if b == 0xF4
    then some (within 3 0x80 0x8F)
    else none

unfoldable pub utf8_step : Scan → ℕ → Option Scan
unfolding utf8_first
utf8_step between b = utf8_first b
utf8_step (within left low high) b =
    if leb low b && leb b high
    then (if leb left 1 then some between else some (within (left - 1) 0x80 0xBF))
    else none

unfoldable pub utf8_scan : Option Scan → Bytes → Bool
unfolding utf8_step
utf8_scan none bytes = false
utf8_scan (some between) [] = true
utf8_scan (some (within left low high)) [] = false
utf8_scan (some scan) (b ∷ bytes) = utf8_scan (utf8_step scan b) bytes

unfoldable pub is_utf8 : Bytes → Bool
unfolding utf8_scan
is_utf8 bytes = utf8_scan (some between) bytes

-- `String::from_utf8(raw).map_err(...)`, as the last step of a read.
unfoldable pub from_utf8 : Bytes → Get Bytes
from_utf8 raw = if is_utf8 raw then pure raw else fail (serialization "invalid utf-8 sequence")
