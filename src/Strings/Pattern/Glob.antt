-- ===== src/Strings/Pattern/Glob.antt =====
-- fb_strings/src/string_utils.cpp: what `matches_pattern` is to decide, written without positions.
use foo_bar.Base.{
  ℕ, ◌≡◌, ◌⊎◌, refl, sym, ap, ◌∙◌, Bool, true, false, ◌||◌, [], ◌∷◌, Bytes, ◌==◌, if◌then◌else◌,
  Bool-cases, inl, inr, arith,
}
use mathlib.Core.Bool.{false≢true}
use foo_bar.Strings.Chars.{to_ascii_lower, is_ascii_upper}
use foo_bar.Strings.Pattern.{take_one, branch, mismatch, fold_case, move, only_stars}

-- A test holds of a text or of an end of it.
unfoldable pub some_suffix : (Bytes → Bool) → Bytes → Bool
some_suffix test [] = test []
some_suffix test (c ∷ s) = test (c ∷ s) || some_suffix test s

-- A character of the pattern that is no star stands for that of the text.
unfoldable pub stands_for : Bool → ℕ → ℕ → Bool
stands_for exact x c = x == b'?' || fold_case exact x == fold_case exact c

-- A star stands for any characters, a question mark for one, and another character for itself, in
-- either case if the case is ignored.
unfoldable pub matches : Bool → Bytes → Bytes → Bool
matches exact [] [] = true
matches exact [] (c ∷ s) = false
matches exact (x ∷ p) s =
    let rest = matches exact p in
    if x == b'*'
    then some_suffix rest s
    else elim s [ [] ↦ false | c ∷ s' ↦ if stands_for exact x c then rest s' else false ]

fold_case_marks :
    (exact : Bool) (x : ℕ)
    → ((fold_case exact x == b'?') ≡ (x == b'?')) × ((fold_case exact x == b'*') ≡ (x == b'*'))
unfolding fold_case to_ascii_lower is_ascii_upper
fold_case_marks true x = (refl, refl)
fold_case_marks false x = (ground arith, ground arith)

pub move_lem :
    (exact : Bool) (x c : ℕ)
    → move exact x c
      ≡ (if x == b'*' then branch else if stands_for exact x c then take_one else mismatch)
unfolding move stands_for
move_lem exact x c = let (question, mark) = fold_case_marks exact x in ground arith

pub only_stars-matches : (exact : Bool) (p : Bytes) → only_stars p ≡ matches exact p []
unfolding only_stars matches some_suffix
only_stars-matches exact [] = refl
only_stars-matches exact (x ∷ p) = elim (Bool-cases (x == b'*')) [
  | inl e ↦ rw e (only_stars-matches exact p)
  | inr e ↦ rw e refl
]

pub some_suffix-here : (test : Bytes → Bool) (s : Bytes) → test s ≡ true → some_suffix test s ≡ true
unfolding some_suffix
some_suffix-here test [] h = h
some_suffix-here test (c ∷ s) h = rw h refl

some_suffix-later :
    (test : Bytes → Bool) (c : ℕ) (s : Bytes)
    → some_suffix test s ≡ true
    → some_suffix test (c ∷ s) ≡ true
unfolding some_suffix
some_suffix-later test c s h = elim (Bool-cases (test (c ∷ s))) [
  | inl e ↦ rw e refl
  | inr e ↦ rw e h
]

some_suffix-cons :
    (test : Bytes → Bool) (c : ℕ) (s : Bytes)
    → some_suffix test (c ∷ s) ≡ true
    → (test (c ∷ s) ≡ true) ⊎ (some_suffix test s ≡ true)
unfolding some_suffix
some_suffix-cons test c s h = elim (Bool-cases (test (c ∷ s))) [
  | inl e ↦ inl e
  | inr e ↦ inr (sym (ap (λ b. b || some_suffix test s) e) ∙ h)
]

pub some_suffix-twice :
    (test : Bytes → Bool) (s : Bytes)
    → some_suffix (some_suffix test) s ≡ true
    → some_suffix test s ≡ true
unfolding some_suffix
some_suffix-twice test [] h = h
some_suffix-twice test (c ∷ s) h = elim (some_suffix-cons (some_suffix test) c s h) [
  | inl now ↦ now
  | inr later ↦ some_suffix-later test c s (some_suffix-twice test s later)
]

-- A pattern that starts with another character than a star.
pub matches-plain :
    (exact : Bool) (x c : ℕ) (p s : Bytes)
    → (x == b'*') ≡ false
    → matches exact (x ∷ p) (c ∷ s) ≡ (if stands_for exact x c then matches exact p s else false)
unfolding matches
matches-plain exact x c p s plain = rw plain refl

matches-plain_now :
    (exact : Bool) (x c : ℕ) (p s : Bytes)
    → (x == b'*') ≡ false
    → matches exact (x ∷ p) (c ∷ s) ≡ true
    → matches exact p s ≡ true
matches-plain_now exact x c p s plain h =
    let same = sym (matches-plain exact x c p s plain) ∙ h in
    elim (Bool-cases (stands_for exact x c)) [
      | inl e ↦ sym (ap (λ b. if b then matches exact p s else false) e) ∙ same
      | inr e ↦
          absurd (false≢true (sym (ap (λ b. if b then matches exact p s else false) e) ∙ same))
    ]

-- It takes the first character of the end that it matches.
pub some_suffix-plain :
    (exact : Bool) (x c : ℕ) (p s : Bytes)
    → (x == b'*') ≡ false
    → some_suffix (matches exact (x ∷ p)) (c ∷ s) ≡ true
    → some_suffix (matches exact p) s ≡ true
unfolding some_suffix matches
some_suffix-plain exact x c p [] plain h = elim (some_suffix-cons (matches exact (x ∷ p)) c [] h) [
  | inl now ↦ matches-plain_now exact x c p [] plain now
  | inr later ↦ absurd (
      false≢true
        (sym (ap (λ b. if b then some_suffix (matches exact p) [] else false) plain) ∙ later))
]
some_suffix-plain exact x c p (d ∷ s) plain h =
    elim (some_suffix-cons (matches exact (x ∷ p)) c (d ∷ s) h) [
      | inl now ↦
          some_suffix-here (matches exact p) (d ∷ s)
            (matches-plain_now exact x c p (d ∷ s) plain now)
      | inr later ↦
          some_suffix-later (matches exact p) d s (some_suffix-plain exact x d p s plain later)
    ]

pub some_suffix-missed :
    (test : Bytes → Bool) (c : ℕ) (s : Bytes)
    → test (c ∷ s) ≡ false
    → some_suffix test s ≡ some_suffix test (c ∷ s)
unfolding some_suffix
some_suffix-missed test c s h = rw h refl

pub matches-star :
    (exact : Bool) (x : ℕ) (p s : Bytes)
    → (x == b'*') ≡ true
    → matches exact (x ∷ p) s ≡ some_suffix (matches exact p) s
unfolding matches
matches-star exact x p s star = rw star refl

pub some_suffix-pointwise :
    (f g : Bytes → Bool) (s : Bytes) → ((t : Bytes) → f t ≡ g t) → some_suffix f s ≡ some_suffix g s
unfolding some_suffix
some_suffix-pointwise f g [] same = same []
some_suffix-pointwise f g (c ∷ s) same =
    rw (same (c ∷ s)) (ap (λ b. g (c ∷ s) || b) (some_suffix-pointwise f g s same))
