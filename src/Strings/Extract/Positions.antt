-- ===== src/Strings/Extract/Positions.antt =====
-- fb_strings/src/string_utils.cpp: what `slice` takes out of a text, next to `left`, `right` and `mid`.
use foo_bar.Base.{
  ℕ, zero, suc, ◌+◌, ◌-◌, ◌%◌, ◌^◌, ◌≤◌, ◌<◌, ◌≡◌, refl, sym, ap, ◌∙◌, false, [], ◌∷◌, ◌++◌, Bytes,
  leb, length, take, drop, min, arith, length-drop, take-drop, Bool-cases, inl, inr,
}
use foo_bar.Strings.Numbers.{ℤ, pos, negsuc}
use foo_bar.Strings.Extract.{left, right, mid, resolve, resolve_end, slice_in, slice}

drop_all : (s : Bytes) (n : ℕ) → length s ≤ n → drop n s ≡ []
drop_all [] zero h = refl
drop_all [] (suc n) h = refl
drop_all (c ∷ s) zero h = absurd (omega arith)
drop_all (c ∷ s) (suc n) h = drop_all s n (omega arith)

take_all : (s : Bytes) (n : ℕ) → length s ≤ n → take n s ≡ s
take_all [] zero h = refl
take_all [] (suc n) h = refl
take_all (c ∷ s) zero h = absurd (omega arith)
take_all (c ∷ s) (suc n) h = ap (λ r. c ∷ r) (take_all s n (omega arith))

-- The text from one position to another.
unfoldable cut_out : Bytes → ℕ → ℕ → Bytes
cut_out s first last = take (last - first) (drop first s)

cut_out_positions :
    (s : Bytes) {first first' last last' : ℕ}
    → first ≡ first'
    → last ≡ last'
    → cut_out s first last ≡ cut_out s first' last'
cut_out_positions s {first'} {last} h h' = ap (λ i. cut_out s i last) h ∙ ap (cut_out s first') h'

slice_in-cut_out :
    (s : Bytes) (start end : ℤ)
    → length s < 2 ^ 31
    → slice_in (length s) s start end
      ≡ cut_out s
          (min (resolve (length s) start) (length s))
          (min (resolve_end (length s) end) (length s))
unfolding slice_in cut_out
slice_in-cut_out s start end small =
    let len = length s in
    let first = min (resolve len start) len in
    let last = min (resolve_end len end) len in
    let fits : leb (2 ^ 31) (length s) ≡ false = ground arith in
    elim (Bool-cases (leb last first)) [
      | inl e ↦
          let nothing : last - first ≡ 0 = ground arith in
          rw (fits, e) (sym (ap (λ n. take n (drop first s)) nothing))
      | inr e ↦ rw (fits, e) refl
    ]

slice-cut_out :
    (s : Bytes) (start end : ℤ) (first last : ℕ)
    → length s < 2 ^ 31
    → min (resolve (length s) start) (length s) ≡ first
    → min (resolve_end (length s) end) (length s) ≡ last
    → slice s start end ≡ cut_out s first last
unfolding slice
slice-cut_out s start end first last small h h' =
    let whole : length s % 2 ^ 32 ≡ length s = omega arith in
    ap (λ n. slice_in n s start end) whole
    ∙ slice_in-cut_out s start end small
    ∙ cut_out_positions s h h'

cut_out_from_start : (s : Bytes) (n : ℕ) → cut_out s 0 n ≡ take n s
unfolding cut_out
cut_out_from_start s n = let same : n - 0 ≡ n = omega arith in ap (λ i. take i s) same

cut_out_to_end : (s : Bytes) (n : ℕ) → n ≤ length s → cut_out s n (length s) ≡ drop n s
unfolding cut_out
cut_out_to_end s n h = take_all (drop n s) (length s - n) (omega (arith, length-drop n s))

-- The two readings of a position agree on the texts that an `int` can measure.
resolve_both :
    (s : Bytes) (k : ℤ)
    → length s < 2 ^ 31
    → min (resolve_end (length s) k) (length s) ≡ min (resolve (length s) k) (length s)
unfolding resolve resolve_end
resolve_both s (pos n) small = ground arith
resolve_both s (negsuc n) small = refl

-- For a text shorter than 2^31 bytes and any position, from the start or, negative, from the
-- end, slice up to the position and slice from it on make up the text.
pub slice-append :
    (s : Bytes) (k : ℤ) → length s < 2 ^ 31 → slice s (pos 0) k ++ slice s k (pos (2 ^ 31 - 1)) ≡ s
unfolding resolve resolve_end
slice-append s k small =
    let at = min (resolve (length s) k) (length s) in
    ap (λ r. r ++ slice s k (pos (2 ^ 31 - 1)))
      (slice-cut_out s (pos 0) k 0 at small (omega arith) (resolve_both s k small)
        ∙ cut_out_from_start s at)
    ∙ ap (λ r. take at s ++ r)
        (slice-cut_out s k (pos (2 ^ 31 - 1)) at (length s) small refl (omega arith)
          ∙ cut_out_to_end s at (omega arith))
    ∙ take-drop at s

left-slice : (s : Bytes) (n : ℕ) → length s < 2 ^ 31 → slice s (pos 0) (pos n) ≡ left s n
unfolding left resolve resolve_end
left-slice s n small =
    slice-cut_out s (pos 0) (pos n) 0 (min n (length s)) small (omega arith)
      (resolve_both s (pos n) small)
    ∙ cut_out_from_start s (min n (length s))

right-slice :
    (s : Bytes) (n : ℕ)
    → length s < 2 ^ 31
    → slice s (negsuc n) (pos (2 ^ 31 - 1)) ≡ right s (suc n)
unfolding right resolve resolve_end
right-slice s n small =
    let from =
      slice-cut_out s (negsuc n) (pos (2 ^ 31 - 1)) (length s - suc n) (length s) small
        (omega arith) (omega arith) in
    let whole = from ∙ cut_out_to_end s (length s - suc n) (omega arith) in
    elim (Bool-cases (leb (length s) (suc n))) [
      | inl all ↦
          let none_off : length s - suc n ≡ 0 = ground arith in
          rw all (whole ∙ ap (λ i. drop i s) none_off)
      | inr some_off ↦ rw some_off whole
    ]

mid-slice :
    (s : Bytes) (start n : ℕ)
    → length s < 2 ^ 31
    → slice s (pos start) (pos (start + n)) ≡ mid s start n
unfolding mid resolve resolve_end cut_out
mid-slice s start n small = elim (Bool-cases (leb (length s) start)) [
  | inl past ↦
      let nothing =
        slice-cut_out s (pos start) (pos (start + n)) (length s) (length s) small (ground arith)
          (ground arith) in
      rw past
        (nothing ∙ cut_out_to_end s (length s) (omega arith) ∙ drop_all s (length s) (omega arith))
  | inr within ↦ elim (Bool-cases (leb (start + n) (length s))) [
    | inl inside ↦
        let taken =
          slice-cut_out s (pos start) (pos (start + n)) start (start + n) small (ground arith)
            (ground arith) in
        let amount : start + n - start ≡ n = omega arith in
        rw within (taken ∙ ap (λ i. take i (drop start s)) amount)
    | inr beyond ↦
        let taken =
          slice-cut_out s (pos start) (pos (start + n)) start (length s) small (ground arith)
            (ground arith) in
        let left_over = length-drop start s in
        rw within (
          taken
          ∙ cut_out_to_end s start (ground arith)
          ∙ sym (take_all (drop start s) n (ground (arith, left_over))))
  ]
]

pub slice-left :
    (s : Bytes) (start n : ℕ)
    → length s < 2 ^ 31
    → (slice s (pos 0) (pos n) ≡ left s n)
      × (slice s (negsuc n) (pos (2 ^ 31 - 1)) ≡ right s (suc n))
      × (slice s (pos start) (pos (start + n)) ≡ mid s start n)
slice-left s start n small =
    (left-slice s n small, right-slice s n small, mid-slice s start n small)
