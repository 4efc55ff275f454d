-- ===== src/Utf8/Tests.antt =====
-- The theorems on UTF-8 at a concrete text.
use foo_bar.Base.{◌≡◌, refl, true, [], ◌∷◌, Bytes, some, length, ok, false, arith}
use foo_bar.Csv.Fields.{validate_from, validate_utf8_string}
use foo_bar.Utf8.{
  codepoint_byte_length, is_continuation_byte, all_continuation, is_valid_codepoint_sequence,
  is_valid_value, decoded_two, decoded_three, advance, offset_from, utf8_byte_offset, valid_from,
  is_valid_utf8, sanitize_utf8,
}
use foo_bar.Utf8.Sanitized.{is_valid_utf8-sanitize_utf8}

-- "aé€b": characters of one, two, three and one bytes.
abbrev mixed : Bytes
mixed = b'a' ∷ 0xc3 ∷ 0xa9 ∷ 0xe2 ∷ 0x82 ∷ 0xac ∷ b'b' ∷ []

-- A stray continuation byte, and a sequence that the end cuts off.
abbrev broken : Bytes
broken = b'a' ∷ 0x80 ∷ 0xe2 ∷ 0x82 ∷ []

utf8_byte_offset-mixed : utf8_byte_offset mixed 3 ≡ some 6
unfolding utf8_byte_offset offset_from advance codepoint_byte_length
utf8_byte_offset-mixed = refl

is_valid_utf8-mixed : is_valid_utf8 mixed ≡ true
unfolding is_valid_utf8 valid_from codepoint_byte_length is_valid_codepoint_sequence
    all_continuation is_continuation_byte is_valid_value decoded_two decoded_three
is_valid_utf8-mixed = refl

is_valid_utf8-sanitize_utf8_example :
    (is_valid_utf8 (sanitize_utf8 broken b'?') ≡ true)
    × (length (sanitize_utf8 broken b'?') ≡ length broken)
is_valid_utf8-sanitize_utf8_example = is_valid_utf8-sanitize_utf8 broken b'?' (omega arith)

-- An overlong form is no valid UTF-8, and yet the parser takes it.
overlong_refused : is_valid_utf8 (0xc0 ∷ 0x80 ∷ []) ≡ false
unfolding is_valid_utf8 valid_from codepoint_byte_length is_valid_codepoint_sequence
    all_continuation is_continuation_byte is_valid_value decoded_two
overlong_refused = refl

overlong_accepted : validate_utf8_string (0xc0 ∷ 0x80 ∷ []) 1 ≡ ok tt
unfolding validate_utf8_string validate_from
overlong_accepted = refl
