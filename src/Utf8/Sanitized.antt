-- ===== src/Utf8/Sanitized.antt =====
-- fb_strings/src/utf8_utils.cpp: what `sanitize_utf8` promises about its result.
use foo_bar.Base.{
  drop-append, length-drop, length-take, take-append, take-drop, ℕ, zero, suc, ◌≤◌, ◌<◌, ◌≡◌, refl,
  sym, ap, ◌∙◌, Bool, true, false, [], ◌∷◌, ◌++◌, Bytes, length, take, drop, arith, ◌==◌, replicate,
  length-append, append-nil,
}
use foo_bar.Utf8.{
  codepoint_byte_length, is_valid_codepoint_sequence, valid_from, is_valid_utf8, sanitize_from,
  sanitize_utf8, all_continuation, is_valid_value,
}
use foo_bar.Utf8.Valid.{
  invalid, truncated, complete, Start-of, valid_from-invalid, valid_from-truncated,
  valid_from_complete, sanitize_from-invalid, sanitize_from-truncated, sanitize_from_complete,
}
use foo_bar.Strings.Chars.{holds_below, holds_below_lem}

length-replicate : (n r : ℕ) → length (replicate n r) ≡ n
length-replicate zero r = refl
length-replicate (suc n) r = ap suc (length-replicate n r)

-- The steps below go through texts of at most `m` bytes.
valid-fixed : (m r : ℕ) (s : Bytes) → length s ≤ m → valid_from 0 s ≡ true → sanitize_from 0 r s ≡ s
valid-fixed m r [] h valid = unfold sanitize_from in refl
valid-fixed zero r (c ∷ s) h valid = absurd (omega arith)
valid-fixed (suc m) r (c ∷ s) h valid = elim (Start-of c s) [
  | invalid e ↦ absurd (let bad = valid_from-invalid c s e in ground arith)
  | truncated n e short ↦ absurd (let bad = valid_from-truncated c s n e short in ground arith)
  | complete n true e fits seq ↦
      let whole = valid_from_complete c s n e fits in
      let rest : valid_from 0 (drop n s) ≡ true = ground arith in
      rw (sanitize_from_complete c s r n e fits, seq)
        (rw (valid-fixed m r (drop n s) (omega (arith, length-drop n s)) rest)
          (ap (λ t. c ∷ t) (take-drop n s)))
  | complete n false e fits seq ↦
      absurd (let bad = valid_from_complete c s n e fits in ground arith)
]

length-same : (m r : ℕ) (s : Bytes) → length s ≤ m → length (sanitize_from 0 r s) ≡ length s
length-same m r [] h = unfold sanitize_from in refl
length-same zero r (c ∷ s) h = absurd (omega arith)
length-same (suc m) r (c ∷ s) h = elim (Start-of c s) [
  | invalid e ↦ rw (sanitize_from-invalid c s r e) (ap suc (length-same m r s (omega arith)))
  | truncated n e short ↦
      rw (sanitize_from-truncated c s r n e short) (length-replicate (length (c ∷ s)) r)
  | complete n true e fits seq ↦
      let rest = length-same m r (drop n s) (omega (arith, length-drop n s)) in
      rw (sanitize_from_complete c s r n e fits, seq)
        (omega (
          arith,
          rest,
          length-drop n s,
          length-take n s fits,
          length-append (take n s) (sanitize_from 0 r (drop n s)),
        ))
  | complete n false e fits seq ↦
      let rest = length-same m r (drop n s) (omega (arith, length-drop n s)) in
      rw (sanitize_from_complete c s r n e fits, seq)
        (omega (
          arith,
          rest,
          length-drop n s,
          length-replicate n r,
          length-append (replicate n r) (sanitize_from 0 r (drop n s)),
        ))
]

-- An ASCII character in front changes nothing.
ascii : ℕ → Bool
ascii r = codepoint_byte_length r == 1

ascii_table : holds_below ascii 128 ≡ true
unfolding holds_below ascii codepoint_byte_length
ascii_table = refl

codepoint_byte_length-ascii : (r : ℕ) → r < 128 → codepoint_byte_length r ≡ 1
unfolding ascii
codepoint_byte_length-ascii r h =
    let table = holds_below_lem ascii 128 ascii_table h in ground arith

valid_from-ascii : (r : ℕ) (s : Bytes) → r < 128 → valid_from 0 (r ∷ s) ≡ valid_from 0 s
valid_from-ascii r s h =
    let whole = valid_from_complete r s 0 (codepoint_byte_length-ascii r h) (omega arith) in
    let fine : is_valid_codepoint_sequence (r ∷ []) ≡ true =
      unfold is_valid_codepoint_sequence all_continuation is_valid_value in refl in
    ground arith

valid_from-replicate :
    (n r : ℕ) (s : Bytes) → r < 128 → valid_from 0 (replicate n r ++ s) ≡ valid_from 0 s
valid_from-replicate zero r s h = refl
valid_from-replicate (suc n) r s h =
    valid_from-ascii r (replicate n r ++ s) h ∙ valid_from-replicate n r s h

-- A valid sequence in front changes nothing.
valid_from-sequence :
    (c n : ℕ) (u t : Bytes)
    → codepoint_byte_length c ≡ suc n
    → length u ≡ n
    → is_valid_codepoint_sequence (c ∷ u) ≡ true
    → valid_from 0 (c ∷ u ++ t) ≡ valid_from 0 t
valid_from-sequence c n u t e size seq =
    let whole = valid_from_complete c (u ++ t) n e (omega (arith, length-append u t)) in
    let same = take-append n u t size in let past = drop-append n u t size in ground arith

sanitized-valid :
    (m r : ℕ) (s : Bytes) → r < 128 → length s ≤ m → valid_from 0 (sanitize_from 0 r s) ≡ true
sanitized-valid m r [] small h = unfold sanitize_from valid_from in refl
sanitized-valid zero r (c ∷ s) small h = absurd (omega arith)
sanitized-valid (suc m) r (c ∷ s) small h = elim (Start-of c s) [
  | invalid e ↦
      rw (sanitize_from-invalid c s r e)
        (valid_from-ascii r (sanitize_from 0 r s) small ∙ sanitized-valid m r s small (omega arith))
  | truncated n e short ↦ rw (sanitize_from-truncated c s r n e short) (
      rw (sym (append-nil (replicate (length (c ∷ s)) r)))
        (valid_from-replicate (length (c ∷ s)) r [] small ∙ (unfold valid_from in refl)))
  | complete n true e fits seq ↦
      rw (sanitize_from_complete c s r n e fits, seq)
        (valid_from-sequence c n (take n s) (sanitize_from 0 r (drop n s)) e (length-take n s fits)
            seq
          ∙ sanitized-valid m r (drop n s) small (omega (arith, length-drop n s)))
  | complete n false e fits seq ↦
      rw (sanitize_from_complete c s r n e fits, seq)
        (valid_from-replicate (suc n) r (sanitize_from 0 r (drop n s)) small
          ∙ sanitized-valid m r (drop n s) small (omega (arith, length-drop n s)))
]

-- A text that is valid already is left as it is.
pub sanitize_utf8-is_valid_utf8 :
    (s : Bytes) (r : ℕ) → is_valid_utf8 s ≡ true → sanitize_utf8 s r ≡ s
unfolding is_valid_utf8 sanitize_utf8
sanitize_utf8-is_valid_utf8 s r valid = valid-fixed (length s) r s (omega arith) valid

-- The result has the length of the text, and with an ASCII replacement it is valid UTF-8.
pub is_valid_utf8-sanitize_utf8 :
    (s : Bytes) (r : ℕ)
    → r < 128
    → (is_valid_utf8 (sanitize_utf8 s r) ≡ true) × (length (sanitize_utf8 s r) ≡ length s)
unfolding is_valid_utf8 sanitize_utf8
is_valid_utf8-sanitize_utf8 s r small =
    (sanitized-valid (length s) r s small (omega arith), length-same (length s) r s (omega arith))
