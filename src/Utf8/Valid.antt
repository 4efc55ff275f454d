-- ===== src/Utf8/Valid.antt =====
-- fb_strings/src/utf8_utils.cpp: `is_valid_utf8` and `sanitize_utf8`.
use foo_bar.Base.{
  ℕ, zero, suc, ◌-◌, ◌≤◌, ◌<◌, ◌≡◌, refl, Bool, false, [], ◌∷◌, ◌++◌, Bytes, length, take, drop,
  arith, ltb, if◌then◌else◌, Bool-cases, inl, inr, replicate,
}
use foo_bar.Utf8.{codepoint_byte_length, is_valid_codepoint_sequence, valid_from, sanitize_from}

-- What is passed already is left out.
valid_from-drop : (k : ℕ) (s : Bytes) → valid_from k s ≡ valid_from 0 (drop k s)
unfolding valid_from
valid_from-drop zero s = refl
valid_from-drop (suc k) [] = refl
valid_from-drop (suc k) (c ∷ s) = valid_from-drop k s

sanitize_from-drop : (k r : ℕ) (s : Bytes) → sanitize_from k r s ≡ sanitize_from 0 r (drop k s)
unfolding sanitize_from
sanitize_from-drop zero r s = refl
sanitize_from-drop (suc k) r [] = refl
sanitize_from-drop (suc k) r (c ∷ s) = sanitize_from-drop k r s

-- How a text starts, as the two loops read it.
pub data Start (c : ℕ) (s : Bytes) : Type 0 where
  invalid : codepoint_byte_length c ≡ 0 → Start c s
  truncated : (n : ℕ) → codepoint_byte_length c ≡ suc n → length s < n → Start c s
  complete :
      (n : ℕ) (ok : Bool)
      → codepoint_byte_length c ≡ suc n
      → n ≤ length s
      → is_valid_codepoint_sequence (c ∷ take n s) ≡ ok
      → Start c s

pub Start-of : (c : ℕ) (s : Bytes) → Start c s
Start-of c s = go (codepoint_byte_length c) refl
  where
    go : (m : ℕ) → codepoint_byte_length c ≡ m → Start c s
    go zero e = invalid e
    go (suc n) e = elim (Bool-cases (ltb (length s) n)) [
      | inl less ↦ truncated n e (ground arith)
      | inr enough ↦ complete n (is_valid_codepoint_sequence (c ∷ take n s)) e (ground arith) refl
    ]

module _ (c : ℕ) (s : Bytes) where
  pub valid_from-invalid : codepoint_byte_length c ≡ 0 → valid_from 0 (c ∷ s) ≡ false
  unfolding valid_from
  valid_from-invalid e = ground arith

  pub valid_from-truncated :
      (n : ℕ) → codepoint_byte_length c ≡ suc n → length s < n → valid_from 0 (c ∷ s) ≡ false
  unfolding valid_from
  valid_from-truncated n e h = ground arith

  pub valid_from_complete :
      (n : ℕ)
      → codepoint_byte_length c ≡ suc n
      → n ≤ length s
      → valid_from 0 (c ∷ s)
        ≡ (if is_valid_codepoint_sequence (c ∷ take n s) then valid_from 0 (drop n s) else false)
  unfolding valid_from
  valid_from_complete n e h =
      let one_less : suc n - 1 ≡ n = omega arith in
      let fits : ltb (length (c ∷ s)) (suc n) ≡ false = ground arith in
      rw (e, one_less, valid_from-drop n s, fits) (ground arith)

  module _ (r : ℕ) where
    pub sanitize_from-invalid :
        codepoint_byte_length c ≡ 0 → sanitize_from 0 r (c ∷ s) ≡ r ∷ sanitize_from 0 r s
    unfolding sanitize_from
    sanitize_from-invalid e = ground arith

    pub sanitize_from-truncated :
        (n : ℕ)
        → codepoint_byte_length c ≡ suc n
        → length s < n
        → sanitize_from 0 r (c ∷ s) ≡ replicate (length (c ∷ s)) r
    unfolding sanitize_from
    sanitize_from-truncated n e h = ground arith

    pub sanitize_from_complete :
        (n : ℕ)
        → codepoint_byte_length c ≡ suc n
        → n ≤ length s
        → sanitize_from 0 r (c ∷ s)
          ≡ (if is_valid_codepoint_sequence (c ∷ take n s)
              then c ∷ take n s
              else replicate (suc n) r)
            ++ sanitize_from 0 r (drop n s)
    unfolding sanitize_from
    sanitize_from_complete n e h =
        let one_less : suc n - 1 ≡ n = omega arith in
        let fits : ltb (length (c ∷ s)) (suc n) ≡ false = ground arith in
        rw (e, one_less, sanitize_from-drop n r s, fits) (ground arith)
