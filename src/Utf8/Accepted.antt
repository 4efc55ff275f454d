-- ===== src/Utf8/Accepted.antt =====
-- fb_strings/src/utf8_utils.cpp and fb_core/src/csv_parser.cpp: the two checks of UTF-8.
use foo_bar.Base.{
  length-drop, ℕ, zero, suc, ◌≤◌, ◌≡◌, refl, ◌∙◌, true, false, [], ◌∷◌, ok, Bytes, length, take,
  drop, arith,
}
use foo_bar.Csv.Fields.{validate_from, validate_utf8_string}
use foo_bar.Utf8.{
  codepoint_byte_length, is_continuation_byte, is_valid_codepoint_sequence, valid_from,
  is_valid_utf8, all_continuation,
}
use foo_bar.Utf8.Valid.{
  invalid, truncated, complete, Start-of, valid_from-invalid, valid_from-truncated,
  valid_from_complete,
}

-- The parser's check classes a first byte in the same way.
validate_from-first :
    (c n : ℕ) (s : Bytes) (line : ℕ)
    → codepoint_byte_length c ≡ suc n
    → validate_from 0 (c ∷ s) line ≡ validate_from n s line
unfolding codepoint_byte_length validate_from
validate_from-first c n s line e = ground arith

validate_from-continuation :
    (n : ℕ) (s : Bytes) (line : ℕ)
    → n ≤ length s
    → all_continuation (take n s) ≡ true
    → validate_from n s line ≡ validate_from 0 (drop n s) line
unfolding all_continuation validate_from is_continuation_byte
validate_from-continuation zero s line h all = refl
validate_from-continuation (suc n) [] line h all = absurd (omega arith)
validate_from-continuation (suc n) (c ∷ s) line h all =
    let rest = validate_from-continuation n s line (omega arith) in ground arith

sequence-continuation :
    (c : ℕ) (u : Bytes) → is_valid_codepoint_sequence (c ∷ u) ≡ true → all_continuation u ≡ true
unfolding is_valid_codepoint_sequence
sequence-continuation c u h = ground arith

valid-accepted :
    (m : ℕ) (s : Bytes) (line : ℕ)
    → length s ≤ m
    → valid_from 0 s ≡ true
    → validate_from 0 s line ≡ ok tt
valid-accepted m [] line h valid = unfold validate_from in refl
valid-accepted zero (c ∷ s) line h valid = absurd (omega arith)
valid-accepted (suc m) (c ∷ s) line h valid = elim (Start-of c s) [
  | invalid e ↦ absurd (let bad = valid_from-invalid c s e in ground arith)
  | truncated n e short ↦ absurd (let bad = valid_from-truncated c s n e short in ground arith)
  | complete n true e fits seq ↦
      let whole = valid_from_complete c s n e fits in
      let rest : valid_from 0 (drop n s) ≡ true = ground arith in
      validate_from-first c n s line e
      ∙ validate_from-continuation n s line fits (sequence-continuation c (take n s) seq)
      ∙ valid-accepted m (drop n s) line (omega (arith, length-drop n s)) rest
  | complete n false e fits seq ↦
      absurd (let bad = valid_from_complete c s n e fits in ground arith)
]

-- The parser accepts each field that is valid UTF-8.
pub validate_utf8_string-is_valid_utf8 :
    (s : Bytes) (line : ℕ) → is_valid_utf8 s ≡ true → validate_utf8_string s line ≡ ok tt
unfolding validate_utf8_string is_valid_utf8
validate_utf8_string-is_valid_utf8 s line valid =
    valid-accepted (length s) s line (omega arith) valid
