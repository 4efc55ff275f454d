-- ===== src/Strings/Extract/Lengths.antt =====
-- fb_strings/src/string_utils.cpp: how long the results of `truncate` and of the paddings are.
use foo_bar.Base.{
  ℕ, zero, suc, ◌+◌, ◌-◌, ◌*◌, ◌/◌, ◌<◌, ◌≡◌, sym, ◌∙◌, [], ◌∷◌, ◌++◌, Bytes, leb, length, take,
  replicate, min, max, arith, length-append, length-take, length-replicate, Bool-cases, inl, inr,
}
use foo_bar.Strings.Replace.{is_nil}
use foo_bar.Strings.Extract.{truncate, pad_left, pad_right, center, repeat, append_times}

length_truncated : (s e : Bytes) (m : ℕ) → length (truncate s m e) ≡ min (length s) m
unfolding truncate
length_truncated s e m = elim (Bool-cases (leb (length s) m)) [
  | inl fits ↦ rw fits (ground arith)
  | inr long ↦ elim (Bool-cases (leb m (length e))) [
    | inl narrow ↦
        let taken = length-take m e (ground arith) in
        let most : min (length s) m ≡ m = ground arith in rw (long, narrow) (taken ∙ sym most)
    | inr wide ↦
        let taken = length-take (m - length e) s (ground arith) in
        let joined = length-append (take (m - length e) s) e in
        let most : min (length s) m ≡ m = ground arith in
        let sum : length (take (m - length e) s) + length e ≡ m = ground (arith, taken) in
        rw (long, wide) (joined ∙ sum ∙ sym most)
  ]
]

length_padded :
    (s : Bytes) (w fill : ℕ)
    → (length (pad_left s w fill) ≡ max (length s) w)
      × (length (pad_right s w fill) ≡ max (length s) w)
      × (length (center s w fill) ≡ max (length s) w)
unfolding pad_left pad_right center
length_padded s w fill =
    let padding = w - length s in
    let half = padding / 2 in
    let front = length-append (replicate padding fill) s in
    let back = length-append s (replicate padding fill) in
    let inner = length-append s (replicate (padding - half) fill) in
    let outer = length-append (replicate half fill) (s ++ replicate (padding - half) fill) in
    let all = length-replicate padding fill in
    let first = length-replicate half fill in
    let second = length-replicate (padding - half) fill in
    elim (Bool-cases (leb w (length s))) [
      | inl wide ↦
          let most : length s ≡ max (length s) w = ground arith in rw wide (most, most, most)
      | inr short ↦
          let width : max (length s) w ≡ w = ground arith in
          let less : length s < w = ground arith in
          rw short (
            omega (arith, width, less, front, all),
            omega (arith, width, less, back, all),
            omega (arith, width, less, outer, inner, first, second),
          )
    ]

length_repeated : (s : Bytes) (n : ℕ) → length (append_times n s) ≡ n * length s
unfolding append_times
length_repeated s zero = omega arith
length_repeated s (suc n) = omega (arith, length-append s (append_times n s), length_repeated s n)

length-repeat_lem : (s : Bytes) (n : ℕ) → length (repeat s n) ≡ n * length s
unfolding repeat is_nil
length-repeat_lem s zero = omega arith
length-repeat_lem [] (suc n) = ground arith
length-repeat_lem (c ∷ s) (suc n) = let all = length_repeated (c ∷ s) (suc n) in ground (arith, all)

pub length-truncate :
    (s e : Bytes) (n fill : ℕ)
    → (length (truncate s n e) ≡ min (length s) n)
      × (length (pad_left s n fill) ≡ max (length s) n)
      × (length (pad_right s n fill) ≡ max (length s) n)
      × (length (center s n fill) ≡ max (length s) n)
      × (length (repeat s n) ≡ n * length s)
length-truncate s e n fill =
    let (front, back, both) = length_padded s n fill in
    (length_truncated s e n, front, back, both, length-repeat_lem s n)
