-- ===== src/Utf8/Walk.antt =====
-- fb_strings/src/utf8_utils.cpp: a walk from code point to code point.
use foo_bar.Base.{
  length-drop, length-take, ℕ, zero, suc, ◌+◌, ◌-◌, ◌≤◌, ◌<◌, ◌≡◌, refl, sym, ap, ◌∙◌, [], ◌∷◌,
  none, some, Bytes, length, take, drop, arith,
}
use foo_bar.Utf8.{advance, length_from, offset_from, index_from}

-- A step stays within the text.
pub advance-Bounds : (c : ℕ) (s : Bytes) → (0 < advance c s) × (advance c s ≤ length (c ∷ s))
unfolding advance
advance-Bounds c s = ground arith

-- What is passed already is left out.
pub length_from-drop : (k : ℕ) (s : Bytes) → length_from k s ≡ length_from 0 (drop k s)
unfolding length_from
length_from-drop zero s = refl
length_from-drop (suc k) [] = refl
length_from-drop (suc k) (c ∷ s) = length_from-drop k s

pub offset_from-drop :
    (k n i : ℕ) (s : Bytes) → k ≤ length s → offset_from k n i s ≡ offset_from 0 n i (drop k s)
unfolding offset_from
offset_from-drop zero n i s h = refl
offset_from-drop (suc k) n i [] h = absurd (omega arith)
offset_from-drop (suc k) n i (c ∷ s) h = offset_from-drop k n i s (omega arith)

pub index_from-drop : (k p i : ℕ) (s : Bytes) → index_from k p i s ≡ index_from 0 p i (drop k s)
unfolding index_from
index_from-drop zero p i s = refl
index_from-drop (suc k) p i [] = refl
index_from-drop (suc k) p i (c ∷ s) = index_from-drop k p i s

take-nil : (n : ℕ) → ◌≡◌ {A = Bytes} (take n []) []
take-nil zero = refl
take-nil (suc n) = refl

drop-nil : (n : ℕ) → ◌≡◌ {A = Bytes} (drop n []) []
drop-nil zero = refl
drop-nil (suc n) = refl

drop-take : (k q m : ℕ) (s : Bytes) → m ≡ k + q → drop k (take m s) ≡ take q (drop k s)
drop-take zero q m s h = ap (λ n. take n s) (omega arith)
drop-take (suc k) q zero s h = absurd (omega arith)
drop-take (suc k) q (suc m) [] h = sym (take-nil q)
drop-take (suc k) q (suc m) (c ∷ s) h = drop-take k q m s (omega arith)

drop-drop : (k q m : ℕ) (s : Bytes) → m ≡ k + q → drop q (drop k s) ≡ drop m s
drop-drop zero q m s h = ap (λ n. drop n s) (omega arith)
drop-drop (suc k) q zero s h = absurd (omega arith)
drop-drop (suc k) q (suc m) [] h = drop-nil q
drop-drop (suc k) q (suc m) (c ∷ s) h = drop-drop k q m s (omega arith)

-- A step in a prefix that it fits in is the step in the whole text.
advance-take :
    (c m : ℕ) (s : Bytes) → advance c s ≤ suc m → m ≤ length s → advance c (take m s) ≡ advance c s
unfolding advance
advance-take c m s fits h = let n = length-take m s h in ground arith

-- What a prefix that ends at the offset `q`, `n` code points on, has to do with the text.
pub record SplitsAt (n q : ℕ) (s : Bytes) : Type 0 where
  pub inside : q ≤ length s
  pub in_front : length_from 0 (take q s) ≡ n
  pub behind : n + length_from 0 (drop q s) ≡ length_from 0 s

splits-zero : (s : Bytes) → SplitsAt 0 0 s
unfolding length_from
splits-zero s = record { inside = omega arith; in_front = refl; behind = omega arith }

splits-suc :
    (n q c : ℕ) (s : Bytes)
    → SplitsAt n q (drop (advance c s - 1) s)
    → SplitsAt (suc n) (advance c s + q) (c ∷ s)
unfolding length_from
splits-suc n q c s rest =
    let k = advance c s - 1 in
    let bounds = advance-Bounds c s in
    let size = length-drop k s in
    let m = k + q in
    let fits : m ≤ length s = omega (arith, rest.inside) in
    let same : advance c (take m s) ≡ advance c s = advance-take c m s (omega arith) fits in
    let shift : advance c s + q ≡ suc m = omega arith in
    let front : length_from (advance c (take m s) - 1) (take m s) ≡ n =
      rw (same, length_from-drop k (take m s), drop-take k q m s refl) rest.in_front in
    let back : n + length_from 0 (drop m s) ≡ length_from k s =
      rw (length_from-drop k s)
        (ap (λ r. n + length_from 0 r) (sym (drop-drop k q m s refl)) ∙ rest.behind) in
    rw shift
      (record { inside = omega arith; in_front = ap suc front; behind = omega (arith, back) })

-- The offset of a code point splits the text there.
pub offset_from-SplitsAt :
    (n i p : ℕ) (s : Bytes) → offset_from 0 n i s ≡ some p → (q : ℕ) × (p ≡ i + q) × SplitsAt n q s
unfolding offset_from
offset_from-SplitsAt zero i p s h = (0, ground arith, splits-zero s)
offset_from-SplitsAt (suc n) i p [] h = absurd (ground arith)
offset_from-SplitsAt (suc n) i p (c ∷ s) h =
    let k = advance c s - 1 in
    let bounds = advance-Bounds c s in
    let (q, same, splits) =
      offset_from-SplitsAt n (i + advance c s) p (drop k s)
        (sym (offset_from-drop k n (i + advance c s) s (omega arith)) ∙ h) in
    (advance c s + q, omega arith, splits-suc n q c s splits)

-- There is none beyond the end.
pub offset_from-none : (n i : ℕ) (s : Bytes) → offset_from 0 n i s ≡ none → length_from 0 s < n
unfolding offset_from length_from
offset_from-none zero i s h = absurd (ground arith)
offset_from-none (suc n) i [] h = omega arith
offset_from-none (suc n) i (c ∷ s) h =
    let k = advance c s - 1 in
    let bounds = advance-Bounds c s in
    omega (
      arith,
      length_from-drop k s,
      offset_from-none n (i + advance c s) (drop k s)
          (sym (offset_from-drop k n (i + advance c s) s (omega arith)) ∙ h),
    )

-- The loop that counts up to an offset counts the code points before it.
pub index_from-offset :
    (n i p : ℕ) (s : Bytes) → offset_from 0 n i s ≡ some p → index_from 0 p i s ≡ n
unfolding offset_from index_from
index_from-offset zero i p [] h = refl
index_from-offset zero i p (c ∷ s) h = ground arith
index_from-offset (suc n) i p [] h = absurd (ground arith)
index_from-offset (suc n) i p (c ∷ s) h =
    let k = advance c s - 1 in
    let bounds = advance-Bounds c s in
    let there = sym (offset_from-drop k n (i + advance c s) s (omega arith)) ∙ h in
    let (q, same, splits) = offset_from-SplitsAt n (i + advance c s) p (drop k s) there in
    let before : i < p = omega arith in
    let rest = index_from-offset n (i + advance c s) p (drop k s) there in
    let skipped = index_from-drop k p (i + advance c s) s in ground arith
