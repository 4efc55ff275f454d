-- ===== src/Strings/Trim.antt =====
-- fb_strings/src/string_utils.cpp: `trim`, `trim_left` and `trim_right`.
use foo_bar.Base.{
  ℕ, ◌≡◌, refl, sym, ap, ◌∙◌, true, false, [], ◌∷◌, ◌++◌, Bytes, All, if◌then◌else◌, Bool-cases,
  inl, inr, arith, length, ◌≤◌,
}
use foo_bar.Strings.Chars.{is_whitespace}

unfoldable pub trim_left : Bytes → Bytes
trim_left [] = []
trim_left (c ∷ s) = let rest = trim_left s in if is_whitespace c then rest else c ∷ s

-- A character in front of what is left of the text behind it.
unfoldable pub keep_front : ℕ → Bytes → Bytes
keep_front c [] = if is_whitespace c then [] else c ∷ []
keep_front c (d ∷ s) = c ∷ d ∷ s

-- `--end` passes over the white space at the end.
unfoldable pub trim_right : Bytes → Bytes
trim_right [] = []
trim_right (c ∷ s) = keep_front c (trim_right s)

unfoldable pub trim : Bytes → Bytes
trim s = trim_right (trim_left s)

abbrev AllSpace : Bytes → Type 0
AllSpace = All (λ c. is_whitespace c ≡ true)

-- A text is white space, the trimmed text and white space.
pub record TrimsTo (s t : Bytes) : Type 0 where
  front : Bytes
  back : Bytes
  whole : s ≡ front ++ (t ++ back)
  front_space : AllSpace front
  back_space : AllSpace back
  starts_plain : trim_left t ≡ t
  ends_plain : trim_right t ≡ t

trim_left-splits :
    (s : Bytes)
    → (front : Bytes) × AllSpace front
      × (s ≡ front ++ trim_left s)
      × (trim_left (trim_left s) ≡ trim_left s)
unfolding trim_left
trim_left-splits [] = ([], tt, refl, refl)
trim_left-splits (c ∷ s) = elim (Bool-cases (is_whitespace c)) [
  | inl e ↦
      let (front, space, whole, plain) = trim_left-splits s in
      rw e (c ∷ front, (e, space), ap (λ r. c ∷ r) whole, plain)
  | inr e ↦ rw e ([], tt, refl, rw e refl)
]

-- A character is kept, or is white space in front of nothing.
keep_front-splits :
    (c : ℕ) (r back : Bytes)
    → AllSpace back
    → trim_right r ≡ r
    → (back' : Bytes) × AllSpace back'
      × (c ∷ r ++ back ≡ keep_front c r ++ back')
      × (trim_right (keep_front c r) ≡ keep_front c r)
unfolding keep_front trim_right
keep_front-splits c [] back space plain = elim (Bool-cases (is_whitespace c)) [
  | inl e ↦ rw e (c ∷ back, (e, space), refl, refl)
  | inr e ↦ rw e (back, space, refl, rw e refl)
]
keep_front-splits c (d ∷ r) back space plain = (back, space, refl, rw plain refl)

trim_right-splits :
    (s : Bytes)
    → (back : Bytes) × AllSpace back
      × (s ≡ trim_right s ++ back)
      × (trim_right (trim_right s) ≡ trim_right s)
unfolding trim_right
trim_right-splits [] = ([], tt, refl, refl)
trim_right-splits (c ∷ s) =
    let (back, space, whole, plain) = trim_right-splits s in
    let (back', space', whole', plain') = keep_front-splits c (trim_right s) back space plain in
    (back', space', ap (λ r. c ∷ r) whole ∙ whole', plain')

length-trim_left : (s : Bytes) → length (trim_left s) ≤ length s
unfolding trim_left
length-trim_left [] = omega arith
length-trim_left (c ∷ s) = ground (arith, length-trim_left s)

trim_left-keep_front :
    (c : ℕ) (r : Bytes) → is_whitespace c ≡ false → trim_left (keep_front c r) ≡ keep_front c r
unfolding trim_left keep_front
trim_left-keep_front c [] e = rw e (rw e refl)
trim_left-keep_front c (d ∷ r) e = rw e refl

-- Trimming at the end leaves a start that is plain.
trim_left-trim_right : (s : Bytes) → trim_left s ≡ s → trim_left (trim_right s) ≡ trim_right s
unfolding trim_left trim_right
trim_left-trim_right [] plain = refl
trim_left-trim_right (c ∷ s) plain = elim (Bool-cases (is_whitespace c)) [
  | inl e ↦
      let skipped : trim_left (c ∷ s) ≡ trim_left s = rw e refl in
      let shorter : length (trim_left s) ≡ length (c ∷ s) = ap length (sym skipped ∙ plain) in
      absurd (omega (arith, shorter, length-trim_left s))
  | inr e ↦ trim_left-keep_front c (trim_right s) e
]

-- `trim` removes white space at both ends, and all of it.
pub trim-TrimsTo : (s : Bytes) → TrimsTo s (trim s)
unfolding trim
trim-TrimsTo s =
    let (front, space, whole, plain) = trim_left-splits s in
    let (back, space', whole', plain') = trim_right-splits (trim_left s) in
    record {
      front = front;
      back = back;
      whole = whole ∙ ap (λ r. front ++ r) whole';
      front_space = space;
      back_space = space';
      starts_plain = trim_left-trim_right (trim_left s) plain;
      ends_plain = plain';
    }
