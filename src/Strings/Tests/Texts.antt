-- ===== src/Strings/Tests/Texts.antt =====
-- Runs of the functions on texts that compare, convert and split, and their theorems at concrete texts.
use foo_bar.Base.{
  ◌+◌, ◌≡◌, refl, [], ◌∷◌, ◌++◌, length, some, Bytes, All, codes, true, false, map, ◌*◌, ◌^◌, ◌-◌,
  arith, ◌↔◌,
}
use foo_bar.Base.Orders.{Ordering, Orders, compare, lexicographic}
use foo_bar.Strings.Split.{join}
use foo_bar.Strings.Trim.{trim, trim_left, trim_right, keep_front}
use foo_bar.Strings.Chars.{
  to_ascii_lower, is_whitespace, is_ascii_digit, is_ascii_lower, is_ascii_upper,
}
use foo_bar.Strings.Replace.{is_nil, contains, count, replace_all, split_by}
use foo_bar.Strings.Replace.Cut.{split_by-join, replace_all-split_by}
use foo_bar.Strings.Numbers.{
  signed, pos, negsuc, negate, to_int, to_int_base, to_long, from_int_base, whole_number, skip_plus,
  from_chars, at_end, read_in, check_range, read_number, read_digits, digit_number, in_range,
}
use foo_bar.Strings.Numbers.RoundTrip.{to_int_base-from_int_base}
use foo_bar.Strings.Pattern.{matches_pattern}
use foo_bar.Strings.Pattern.Glob.{matches}
use foo_bar.Strings.Pattern.Decided.{matches_pattern-matches}
use foo_bar.Strings.Case.{to_lower}
use foo_bar.Strings.Compare.{
  char_rank, compare_ignore_case, equals_ignore_case, same_ignoring_case, natural_compare,
  natural_from, skip_zeros, leading_digits, behind_digits, compare_numbers, compare_digits,
}
use foo_bar.Strings.Compare.IgnoreCase.{compare_ignore_case-Orders}
use foo_bar.Strings.Compare.Parts.{natural_order}
use foo_bar.Strings.Compare.Natural.{natural_compare-Orders}
use foo_bar.Strings.Extract.{slice}
use foo_bar.Strings.Extract.Positions.{slice-append}
use foo_bar.Strings.Hex.{from_hex, skip_prefix}
use foo_bar.Strings.Validate.{is_integer, is_float, is_hex, prefixed, all_of, is_hex_digit}
use foo_bar.Strings.Validate.Accepted.{to_long-is_integer}
use foo_bar.Strings.Validate.HexText.{from_hex-is_hex}
use foo_bar.Strings.Words.{
  push_word, split_whitespace, word_count, normalize_whitespace,
  normalize_whitespace-split_whitespace,
}
use foo_bar.Strings.Lines.{split_lines, normalize_line_endings, normalize_line_endings-split_lines}
use foo_bar.Strings.CaseStyle.{
  split_into_words, to_snake_case, to_kebab_case, words_from, is_separator, is_boundary, lower_next,
}
use foo_bar.Strings.CaseStyle.Restyled.{to_snake_case-to_kebab_case}
use foo_bar.Strings.Hash.{
  hash_case_insensitive, hash_fnv1a_32, fnv1a_from, crc32, crc_from, table_entry,
  hash_case_insensitive-equals_ignore_case,
}

matches_pattern-matches_example :
    matches_pattern (codes "Hello.TXT") (codes "*.t?t") false
    ≡ some (matches false (codes "*.t?t") (codes "Hello.TXT"))
matches_pattern-matches_example = matches_pattern-matches (codes "Hello.TXT") (codes "*.t?t") false

natural_compare-Orders_example :
    (natural_compare true (codes "file2") (codes "file10")
      ≡ some (natural_order true (codes "file2") (codes "file10")))
    × Orders (natural_order true)
natural_compare-Orders_example = natural_compare-Orders true (codes "file2") (codes "file10")

natural_compare_numbers : natural_compare true (codes "a2") (codes "a10") ≡ some Ordering.lt
unfolding natural_compare natural_from skip_zeros leading_digits behind_digits compare_numbers
    compare_digits is_ascii_digit
natural_compare_numbers = refl

in_range_254 : in_range (signed 32) (negsuc 254) ≡ true
unfolding in_range
in_range_254 = refl

to_int_base-from_int_base_example :
    to_int_base (from_int_base (negsuc 254) 16 true) 16 ≡ some (negsuc 254)
to_int_base-from_int_base_example =
    to_int_base-from_int_base (negsuc 254) 16 true (omega arith) (omega arith) in_range_254

-- A minus behind the plus is read.
to_int_signs : to_int (codes "+-5") ≡ some (negsuc 4)
unfolding to_int whole_number from_chars read_in check_range read_number read_digits at_end in_range
    skip_plus trim trim_left trim_right keep_front is_nil digit_number is_whitespace is_ascii_digit
    negate
to_int_signs = refl

compare_ignore_case-Orders_example :
    (compare_ignore_case true (codes "Zoo") (codes "zOO2")
      ≡ lexicographic compare
          (map (char_rank true) (to_lower (codes "Zoo")))
          (map (char_rank true) (to_lower (codes "zOO2"))))
    × ((compare_ignore_case true (codes "Zoo") (codes "zOO2") ≡ Ordering.eq)
        ↔ (to_lower (codes "Zoo") ≡ to_lower (codes "zOO2")))
    × Orders (compare_ignore_case true)
compare_ignore_case-Orders_example = compare_ignore_case-Orders true (codes "Zoo") (codes "zOO2")

split_by-join_example :
    (join (split_by (codes "a--b") (codes "--") true) (codes "--") ≡ codes "a--b")
    × All (λ part. contains part (codes "--") ≡ false) (split_by (codes "a--b") (codes "--") true)
split_by-join_example = split_by-join b'-' (codes "-") (codes "a--b")

replace_all-split_by_example :
    (replace_all (codes "a--b") (codes "--") (codes "+")
      ≡ join (split_by (codes "a--b") (codes "--") true) (codes "+"))
    × (count (codes "a--b") (codes "--") + 1 ≡ length (split_by (codes "a--b") (codes "--") true))
replace_all-split_by_example = replace_all-split_by b'-' (codes "-") (codes "a--b") (codes "+")

to_snake_case-to_kebab_case_example :
    (split_into_words (to_snake_case (codes "HTTPServer"))
      ≡ map to_lower (split_into_words (codes "HTTPServer")))
    × (to_kebab_case (to_snake_case (codes "HTTPServer")) ≡ to_kebab_case (codes "HTTPServer"))
    × (to_snake_case (to_kebab_case (codes "HTTPServer")) ≡ to_snake_case (codes "HTTPServer"))
to_snake_case-to_kebab_case_example = to_snake_case-to_kebab_case (codes "HTTPServer")

split_into_words_http : split_into_words (codes "HTTPServer") ≡ codes "HTTP" ∷ codes "Server" ∷ []
unfolding split_into_words words_from is_separator is_boundary lower_next is_ascii_upper
    is_ascii_lower push_word
split_into_words_http = refl

slice-append_example :
    slice (codes "hello") (pos 0) (negsuc 1) ++ slice (codes "hello") (negsuc 1) (pos (2 ^ 31 - 1))
    ≡ codes "hello"
slice-append_example = slice-append (codes "hello") (negsuc 1) (omega arith)

hex_text : is_hex (codes "0x4A") true ≡ true
unfolding is_hex prefixed all_of is_hex_digit is_ascii_digit is_nil
hex_text = refl

from_hex-is_hex_example :
    (out : Bytes) × (from_hex (codes "0x4A") ≡ some out)
    × (length out * 2 ≡ length (skip_prefix (codes "0x4A")))
from_hex-is_hex_example = from_hex-is_hex (codes "0x4A") hex_text refl

read_seven : to_long 64 (codes " -7") ≡ some (negsuc 6)
unfolding to_long whole_number from_chars read_in check_range read_number read_digits at_end
    in_range trim trim_left trim_right keep_front is_nil digit_number is_whitespace is_ascii_digit
    negate
read_seven = refl

to_long-is_integer_example :
    (is_integer (trim (codes " -7")) ≡ true) × (is_float (trim (codes " -7")) ≡ true)
to_long-is_integer_example = to_long-is_integer 64 (codes " -7") (negsuc 6) read_seven

normalize_whitespace-split_whitespace_example :
    (normalize_whitespace (codes "  a  b ") ≡ join (split_whitespace (codes "  a  b ")) (b' ' ∷ []))
    × (word_count (codes "  a  b ") ≡ length (split_whitespace (codes "  a  b ")))
normalize_whitespace-split_whitespace_example =
    normalize_whitespace-split_whitespace (codes "  a  b ")

normalize_line_endings-split_lines_example :
    normalize_line_endings (b'a' ∷ b'\r' ∷ b'\n' ∷ b'b' ∷ []) (codes "|")
    ≡ join (split_lines (b'a' ∷ b'\r' ∷ b'\n' ∷ b'b' ∷ []) true) (codes "|")
normalize_line_endings-split_lines_example =
    normalize_line_endings-split_lines (b'a' ∷ b'\r' ∷ b'\n' ∷ b'b' ∷ []) (codes "|")

same_names : equals_ignore_case (codes "Hello") (codes "HELLO") ≡ true
unfolding equals_ignore_case same_ignoring_case to_ascii_lower is_ascii_upper
same_names = refl

hash_case_insensitive-equals_ignore_case_example :
    (hash_case_insensitive (codes "Hello") ≡ hash_case_insensitive (codes "HELLO"))
    × (hash_case_insensitive (codes "Hello") ≡ hash_fnv1a_32 (to_lower (codes "HELLO")))
hash_case_insensitive-equals_ignore_case_example =
    hash_case_insensitive-equals_ignore_case (codes "Hello") (codes "HELLO") same_names

-- The check value of CRC-32, and the published FNV-1a value of one letter.
crc32_digits : crc32 (codes "123456789") ≡ 0xcbf43926
unfolding crc32 crc_from table_entry
crc32_digits = refl

hash_fnv1a_32_letter : hash_fnv1a_32 (codes "a") ≡ 0xe40c292c
unfolding hash_fnv1a_32 fnv1a_from
hash_fnv1a_32_letter = refl
