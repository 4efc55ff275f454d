-- ===== src/Utf8/Slices.antt =====
-- fb_strings/src/utf8_utils.cpp: `utf8_left`, `utf8_mid`, `utf8_right`, `utf8_byte_offset` and
-- `utf8_codepoint_index`, for every text, valid or not.
use foo_bar.Base.{
  take-drop, ℕ, ◌+◌, ◌-◌, ◌≤◌, ◌<◌, ◌≡◌, refl, [], ◌++◌, Option, none, some, Bytes, take, drop,
  arith, min, Option-cases, inl, inr, append-nil, subst,
}
use foo_bar.Utf8.{
  length_from, utf8_length, utf8_byte_offset, utf8_codepoint_index, utf8_left, utf8_mid, utf8_right,
  counted,
}
use foo_bar.Utf8.Walk.{SplitsAt, offset_from-SplitsAt, offset_from-none, index_from-offset}

utf8_byte_offset-SplitsAt : (s : Bytes) (n p : ℕ) → utf8_byte_offset s n ≡ some p → SplitsAt n p s
unfolding utf8_byte_offset
utf8_byte_offset-SplitsAt s n p h =
    let (q, same, splits) = offset_from-SplitsAt n 0 p s h in
    let whole : q ≡ p = omega arith in subst (λ r. SplitsAt n r s) whole splits

utf8_byte_offset-none : (s : Bytes) (n : ℕ) → utf8_byte_offset s n ≡ none → utf8_length s < n
unfolding utf8_byte_offset utf8_length
utf8_byte_offset-none s n h = offset_from-none n 0 s h

-- The index of the code point at the byte offset of a code point is that code point's.
pub utf8_codepoint_index-utf8_byte_offset :
    (s : Bytes) (n p : ℕ) → utf8_byte_offset s n ≡ some p → utf8_codepoint_index s p ≡ some n
unfolding utf8_codepoint_index
utf8_codepoint_index-utf8_byte_offset s n p h =
    let splits = utf8_byte_offset-SplitsAt s n p h in
    let counted = index_from-offset n 0 p s (unfold utf8_byte_offset in h) in
    ground (arith, splits.inside)

-- What the parts are, by the offset.
module _ (s : Bytes) (n : ℕ) where
  utf8_left_at : (p : ℕ) → utf8_byte_offset s n ≡ some p → utf8_left s n ≡ take p s
  unfolding utf8_left
  utf8_left_at p e = rw (e, utf8_left) refl

  utf8_left-none : utf8_byte_offset s n ≡ none → utf8_left s n ≡ s
  unfolding utf8_left
  utf8_left-none e = rw (e, utf8_left) refl

  utf8_mid_at :
      (p : ℕ) (count : Option ℕ)
      → utf8_byte_offset s n ≡ some p
      → utf8_mid s n count ≡ counted (drop p s) count
  unfolding utf8_mid
  utf8_mid_at p count e = rw (e, utf8_mid) refl

  utf8_mid-none : (count : Option ℕ) → utf8_byte_offset s n ≡ none → utf8_mid s n count ≡ []
  unfolding utf8_mid
  utf8_mid-none count e = rw (e, utf8_mid) refl

  counted-utf8_left : counted s (some n) ≡ utf8_left s n
  unfolding counted utf8_left
  counted-utf8_left = refl

counted-all : (s : Bytes) → counted s none ≡ s
unfolding counted
counted-all s = refl

utf8_length-nil : utf8_length [] ≡ 0
unfolding utf8_length length_from
utf8_length-nil = refl

-- The left part and the rest make up the text.
pub utf8_left-utf8_mid : (s : Bytes) (n : ℕ) → utf8_left s n ++ utf8_mid s n none ≡ s
utf8_left-utf8_mid s n = elim (Option-cases (utf8_byte_offset s n)) [
  | inl e ↦ rw (utf8_left-none s n e, utf8_mid-none s n none e) (append-nil s)
  | inr (p, e) ↦
      rw (utf8_left_at s n p e, utf8_mid_at s n p none e, counted-all (drop p s)) (take-drop p s)
]

-- The left part has as many code points as asked for, or all that there are.
pub utf8_length-utf8_left :
    (s : Bytes) (n : ℕ) → utf8_length (utf8_left s n) ≡ min n (utf8_length s)
utf8_length-utf8_left s n = elim (Option-cases (utf8_byte_offset s n)) [
  | inl e ↦ rw (utf8_left-none s n e) (omega (arith, utf8_byte_offset-none s n e))
  | inr (p, e) ↦
      let splits = utf8_byte_offset-SplitsAt s n p e in
      rw (utf8_left_at s n p e)
        (unfold utf8_length in omega (arith, splits.in_front, splits.behind))
]

-- What is right of a code point.
utf8_length-rest :
    (s : Bytes) (n : ℕ) → n ≤ utf8_length s → utf8_length (utf8_mid s n none) ≡ utf8_length s - n
utf8_length-rest s n h = elim (Option-cases (utf8_byte_offset s n)) [
  | inl e ↦ absurd (omega (arith, utf8_byte_offset-none s n e))
  | inr (p, e) ↦
      let splits = utf8_byte_offset-SplitsAt s n p e in
      rw (utf8_mid_at s n p none e, counted-all (drop p s))
        (unfold utf8_length in omega (arith, splits.behind))
]

-- The right part has as many code points as asked for, or all that there are.
pub utf8_length-utf8_right :
    (s : Bytes) (n : ℕ) → utf8_length (utf8_right s n) ≡ min n (utf8_length s)
unfolding utf8_right
utf8_length-utf8_right s n =
    let rest = utf8_length-rest s (utf8_length s - n) (omega arith) in ground (arith, rest)

-- A part from the middle has as many code points as asked for, or all from its start on.
pub utf8_length-utf8_mid :
    (s : Bytes) (pos n : ℕ) → utf8_length (utf8_mid s pos (some n)) ≡ min n (utf8_length s - pos)
utf8_length-utf8_mid s pos n = elim (Option-cases (utf8_byte_offset s pos)) [
  | inl e ↦
      rw (utf8_mid-none s pos (some n) e)
        (omega (arith, utf8_length-nil, utf8_byte_offset-none s pos e))
  | inr (p, e) ↦
      let splits = utf8_byte_offset-SplitsAt s pos p e in
      let behind : pos + utf8_length (drop p s) ≡ utf8_length s =
        unfold utf8_length in splits.behind in
      rw (utf8_mid_at s pos p (some n) e, counted-utf8_left (drop p s) n)
        (omega (arith, behind, utf8_length-utf8_left (drop p s) n))
]
