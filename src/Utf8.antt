-- ===== src/Utf8.antt =====
-- fb_strings/src/utf8_utils.cpp. A text is its bytes. Each loop of the source walks the text with an
-- index that moves on by one code point; here a loop goes through the bytes and `skip` counts
-- those that the index has already passed. `none` is `std::string::npos`.
pub mod Walk
pub mod Slices
pub mod Valid
pub mod Sanitized
pub mod Accepted
mod Tests
use foo_bar.Base.{
  ℕ, zero, suc, ◌+◌, ◌-◌, ◌*◌, ◌^◌, Bool, true, false, ◌&&◌, ◌||◌, not, List, [], ◌∷◌, ◌++◌, Option,
  none, some, Bytes, leb, ltb, ◌==◌, if◌then◌else◌, bit_and, bit_or, length, take, drop, replicate,
}

-- 0 is an invalid first byte.
unfoldable pub codepoint_byte_length : ℕ → ℕ
codepoint_byte_length c =
    if bit_and c 0x80 == 0
    then 1
    else if bit_and c 0xe0 == 0xc0
    then 2
    else if bit_and c 0xf0 == 0xe0
    then 3
    else if bit_and c 0xf8 == 0xf0
    then 4
    else 0

unfoldable pub is_continuation_byte : ℕ → Bool
is_continuation_byte c = bit_and c 0xc0 == 0x80

unfoldable pub all_continuation : Bytes → Bool
all_continuation [] = true
all_continuation (c ∷ s) =
    let rest = all_continuation s in if not (is_continuation_byte c) then false else rest

-- The value that `switch (length)` decodes.
unfoldable pub decoded_two : ℕ → ℕ → ℕ
decoded_two a b = bit_or (bit_and a 0x1f * 2 ^ 6) (bit_and b 0x3f)

unfoldable pub decoded_three : ℕ → ℕ → ℕ → ℕ
decoded_three a b c =
    bit_or (bit_or (bit_and a 0x0f * 2 ^ 12) (bit_and b 0x3f * 2 ^ 6)) (bit_and c 0x3f)

unfoldable pub decoded_four : ℕ → ℕ → ℕ → ℕ → ℕ
decoded_four a b c d =
    bit_or
      (bit_or (bit_or (bit_and a 0x07 * 2 ^ 18) (bit_and b 0x3f * 2 ^ 12)) (bit_and c 0x3f * 2 ^ 6))
      (bit_and d 0x3f)

-- The `switch` itself: overlong forms, surrogates and values beyond Unicode are refused.
unfoldable pub is_valid_value : Bytes → Bool
is_valid_value [] = false
is_valid_value (a ∷ []) = true
is_valid_value (a ∷ b ∷ []) = if ltb (decoded_two a b) 0x80 then false else true
is_valid_value (a ∷ b ∷ c ∷ []) =
    let codepoint = decoded_three a b c in
    if ltb codepoint 0x800
    then false
    else if leb 0xd800 codepoint && leb codepoint 0xdfff
    then false
    else true
is_valid_value (a ∷ b ∷ c ∷ d ∷ []) =
    let codepoint = decoded_four a b c d in
    if ltb codepoint 0x10000 then false else if ltb 0x10ffff codepoint then false else true
is_valid_value (a ∷ b ∷ c ∷ d ∷ e ∷ s) = false

-- The argument holds the `length` bytes that the source passes by pointer.
unfoldable pub is_valid_codepoint_sequence : Bytes → Bool
is_valid_codepoint_sequence [] = false
is_valid_codepoint_sequence (a ∷ s) =
    if not (all_continuation s) then false else is_valid_value (a ∷ s)

-- How far the index moves: an invalid byte or a truncated sequence counts as one.
unfoldable pub advance : ℕ → Bytes → ℕ
advance c s = let n = codepoint_byte_length c in if n == 0 || ltb (length (c ∷ s)) n then 1 else n

unfoldable pub length_from : ℕ → Bytes → ℕ
length_from skip [] = 0
length_from zero (c ∷ s) = suc (length_from (advance c s - 1) s)
length_from (suc skip) (c ∷ s) = length_from skip s

unfoldable pub utf8_length : Bytes → ℕ
utf8_length s = length_from 0 s

-- `count` is how many code points are still to pass, `i` the index.
unfoldable pub offset_from : ℕ → ℕ → ℕ → Bytes → Option ℕ
offset_from zero zero i s = some i
offset_from zero (suc count) i [] = none
offset_from zero (suc count) i (c ∷ s) = offset_from (advance c s - 1) count (i + advance c s) s
offset_from (suc skip) zero i [] = some i
offset_from (suc skip) (suc count) i [] = none
offset_from (suc skip) count i (c ∷ s) = offset_from skip count i s

unfoldable pub utf8_byte_offset : Bytes → ℕ → Option ℕ
utf8_byte_offset s codepoint_index = offset_from 0 codepoint_index 0 s

unfoldable pub index_from : ℕ → ℕ → ℕ → Bytes → ℕ
index_from skip byte_offset i [] = 0
index_from zero byte_offset i (c ∷ s) =
    let rest = index_from (advance c s - 1) byte_offset (i + advance c s) s in
    if ltb i byte_offset then suc rest else 0
index_from (suc skip) byte_offset i (c ∷ s) = index_from skip byte_offset i s

unfoldable pub utf8_codepoint_index : Bytes → ℕ → Option ℕ
utf8_codepoint_index s byte_offset =
    if ltb (length s) byte_offset then none else some (index_from 0 byte_offset 0 s)

-- The first code point of a text, or its first byte.
unfoldable pub first_of : Bytes → Bytes
first_of [] = []
first_of (c ∷ s) =
    let n = codepoint_byte_length c in
    if n == 0 || ltb (length (c ∷ s)) n then c ∷ [] else take n (c ∷ s)

unfoldable pub utf8_at : Bytes → ℕ → Bytes
utf8_at s index = elim (utf8_byte_offset s index) [ none ↦ [] | some p ↦ first_of (drop p s) ]

unfoldable pub utf8_left : Bytes → ℕ → Bytes
utf8_left s n = elim (utf8_byte_offset s n) [ none ↦ s | some p ↦ take p s ]

-- The part after the start; a count of `none` is the default argument.
unfoldable pub counted : Bytes → Option ℕ → Bytes
counted s none = s
counted s (some count) = elim (utf8_byte_offset s count) [ none ↦ s | some p ↦ take p s ]

unfoldable pub utf8_mid : Bytes → ℕ → Option ℕ → Bytes
utf8_mid s pos count = elim (utf8_byte_offset s pos) [
  | none ↦ []
  | some p ↦ counted (drop p s) count
]

unfoldable pub utf8_right : Bytes → ℕ → Bytes
utf8_right s n = let total = utf8_length s in if leb total n then s else utf8_mid s (total - n) none

unfoldable pub valid_from : ℕ → Bytes → Bool
valid_from skip [] = true
valid_from zero (c ∷ s) =
    let n = codepoint_byte_length c in
    let rest = valid_from (n - 1) s in
    if n == 0
    then false
    else if ltb (length (c ∷ s)) n
    then false
    else if not (is_valid_codepoint_sequence (take n (c ∷ s)))
    then false
    else rest
valid_from (suc skip) (c ∷ s) = valid_from skip s

unfoldable pub is_valid_utf8 : Bytes → Bool
is_valid_utf8 s = valid_from 0 s

unfoldable pub sanitize_from : ℕ → ℕ → Bytes → Bytes
sanitize_from skip replacement [] = []
sanitize_from zero replacement (c ∷ s) =
    let n = codepoint_byte_length c in
    let rest = sanitize_from (n - 1) replacement s in
    if n == 0
    then replacement ∷ rest
    else if ltb (length (c ∷ s)) n
    then replicate (length (c ∷ s)) replacement
    else if is_valid_codepoint_sequence (take n (c ∷ s))
    then take n (c ∷ s) ++ rest
    else replicate n replacement ++ rest
sanitize_from (suc skip) replacement (c ∷ s) = sanitize_from skip replacement s

unfoldable pub sanitize_utf8 : Bytes → ℕ → Bytes
sanitize_utf8 s replacement = sanitize_from 0 replacement s
