-- ===== src/Strings/Pattern/Decided.antt =====
-- fb_strings/src/string_utils.cpp: the loop of `matches_pattern` ends and decides `matches`. The answer
-- to the call is `G` throughout; a mismatch gives up a character of the text at the last star.
use foo_bar.Base.{
  ℕ, zero, suc, ◌+◌, ◌*◌, ◌≤◌, ◌<◌, ◌≡◌, refl, sym, ap, ◌∙◌, Bool, true, false, [], ◌∷◌, Option,
  none, some, Bytes, ◌==◌, if◌then◌else◌, length, Bool-cases, inl, inr, arith,
}
use mathlib.Core.Bool.{false≢true}
use foo_bar.Strings.Pattern.{
  Move, take_one, branch, mismatch, move, backtrack, match_from, matches_pattern,
}
use foo_bar.Strings.Pattern.Glob.{
  some_suffix, stands_for, matches, move_lem, only_stars-matches, some_suffix-here,
  some_suffix-missed, matches-star, some_suffix-twice, some_suffix-pointwise, matches-plain,
  some_suffix-plain,
}

equal_answers : (a b : Bool) → (a ≡ true → b ≡ true) → (b ≡ true → a ≡ true) → a ≡ b
equal_answers true b to from = sym (to refl)
equal_answers false true to from = absurd (false≢true (from refl))
equal_answers false false to from = refl

false_where : (a : Bool) → (a ≡ true → ⊥) → a ≡ false
false_where true refuted = absurd (refuted refl)
false_where false refuted = refl

-- `bound` is more than the length of every pattern, `room` that of the text behind the last star.
module _ (exact G : Bool) (bound : ℕ) where
  abbrev Noted : ℕ → Bytes → Bytes → Option (Bytes × Bytes) → Type 0
  Noted room p s none = G ≡ true → matches exact p s ≡ true
  Noted room p s (some (star_p, star_s)) =
      (some_suffix (matches exact star_p) star_s ≡ G)
      × (matches exact star_p star_s ≡ true → matches exact p s ≡ true)
      × (length s ≤ length star_s)
      × (length star_s ≤ room)
      × (length star_p < bound)

  record Asks (fuel room : ℕ) (p s : Bytes) (star : Option (Bytes × Bytes)) : Type 0 where
    enough : matches exact p s ≡ true → G ≡ true
    needed : G ≡ true → some_suffix (matches exact p) s ≡ true
    noted : Noted room p s star
    text_fits : length s ≤ room
    pattern_fits : length p < bound
    paid : room * bound + length p < fuel

  -- The rest of a pattern behind a star.
  behind_star :
      (fuel room : ℕ) (p s : Bytes)
      → some_suffix (matches exact p) s ≡ G
      → length s ≤ room
      → length p < bound
      → room * bound + length p < fuel
      → Asks fuel room p s (some (p, s))
  behind_star fuel room p s same text_fits pattern_fits paid = record {
    enough = λ h. sym same ∙ some_suffix-here (matches exact p) s h;
    needed = λ h. same ∙ h;
    noted = (same, λ h. h, omega arith, text_fits, pattern_fits);
    text_fits = text_fits;
    pattern_fits = pattern_fits;
    paid = paid;
  }

  Noted-plain :
      (room x c : ℕ) (p s : Bytes) (star : Option (Bytes × Bytes))
      → matches exact (x ∷ p) (c ∷ s) ≡ matches exact p s
      → Noted room (x ∷ p) (c ∷ s) star
      → Noted room p s star
  Noted-plain room x c p s none same noted = λ h. sym same ∙ noted h
  Noted-plain room x c p s (some (star_p, star_s)) same (whole, back, shorter, fits, short) =
      (whole, λ h. sym same ∙ back h, omega (arith, shorter), fits, short)

  -- One character of the pattern takes one of the text.
  Asks-plain :
      (fuel room x c : ℕ) (p s : Bytes) (star : Option (Bytes × Bytes))
      → (x == b'*') ≡ false
      → stands_for exact x c ≡ true
      → Asks (suc fuel) room (x ∷ p) (c ∷ s) star
      → Asks fuel room p s star
  Asks-plain fuel room x c p s star plain stands asks =
      let same : matches exact (x ∷ p) (c ∷ s) ≡ matches exact p s =
        matches-plain exact x c p s plain
        ∙ ap (λ b. if b then matches exact p s else false) stands in
      let paid = asks.paid in
      record {
        enough = λ h. asks.enough (same ∙ h);
        needed = λ h. some_suffix-plain exact x c p s plain (asks.needed h);
        noted = Noted-plain room x c p s star same asks.noted;
        text_fits = let fits = asks.text_fits in omega (arith, fits);
        pattern_fits = let fits = asks.pattern_fits in omega (arith, fits);
        paid = omega (arith, paid);
      }

  abbrev Answers : ℕ → Type 0
  Answers fuel =
      (room : ℕ) (p s : Bytes) (star : Option (Bytes × Bytes))
      → Asks fuel room p s star
      → match_from fuel exact p s star ≡ some G

  -- Where the rests do not match, one does so only if the text at the last star loses a character.
  backtrack-Answers :
      (fuel room c : ℕ) (p s : Bytes) (star : Option (Bytes × Bytes))
      → Answers fuel
      → Asks (suc fuel) room p (c ∷ s) star
      → matches exact p (c ∷ s) ≡ false
      → backtrack star (match_from fuel exact) ≡ some G
  unfolding backtrack
  backtrack-Answers fuel room c p s none answers asks fails =
      ap some (sym (false_where G λ h. false≢true (sym fails ∙ asks.noted h)))
  backtrack-Answers fuel room c p s (some (star_p, [])) answers asks fails =
      let (_, _, shorter, _, _) = asks.noted in absurd (omega (arith, shorter))
  backtrack-Answers fuel zero c p s (some (star_p, d ∷ star_s)) answers asks fails =
      let (_, _, _, fits, _) = asks.noted in absurd (omega (arith, fits))
  backtrack-Answers fuel (suc room) c p s (some (star_p, d ∷ star_s)) answers asks fails =
      let (whole, back, _, fits, short) = asks.noted in
      let fails_there : matches exact star_p (d ∷ star_s) ≡ false =
        false_where _ λ h. false≢true (sym fails ∙ back h) in
      let paid = asks.paid in
      answers room star_p star_s (some (star_p, star_s)) (
        behind_star fuel room star_p star_s
          (some_suffix-missed (matches exact star_p) d star_s fails_there ∙ whole)
          (omega (arith, fits)) short (omega (arith, paid, short)))

  match_from-Answers :
      (fuel room : ℕ) (p s : Bytes) (star : Option (Bytes × Bytes))
      → Asks fuel room p s star
      → match_from fuel exact p s star ≡ some G
  unfolding match_from some_suffix matches
  match_from-Answers zero room p s star asks = let paid = asks.paid in absurd (omega (arith, paid))
  match_from-Answers (suc fuel) room p [] star asks =
      ap some (only_stars-matches exact p ∙ equal_answers _ G asks.enough asks.needed)
  match_from-Answers (suc fuel) room [] (c ∷ s) star asks =
      backtrack-Answers fuel room c [] s star (match_from-Answers fuel) asks refl
  match_from-Answers (suc fuel) room (x ∷ p) (c ∷ s) star asks =
      let fits = asks.pattern_fits in
      let paid = asks.paid in
      let moves = move_lem exact x c in
      let other : Move = if stands_for exact x c then take_one else mismatch in
      elim (Bool-cases (x == b'*')) [
        | inl starred ↦
            let splits = λ (t : Bytes). matches-star exact x p t starred in
            let same : some_suffix (matches exact p) (c ∷ s) ≡ G =
              equal_answers _ G (λ h. asks.enough (splits (c ∷ s) ∙ h))
                (λ g.
                  some_suffix-twice (matches exact p) (c ∷ s)
                    (sym (some_suffix-pointwise _ _ (c ∷ s) splits) ∙ asks.needed g)) in
            let noted : move exact x c ≡ branch =
              moves ∙ ap (λ b. if b then branch else other) starred in
            rw (noted, match_from)
              (match_from-Answers fuel room p (c ∷ s) (some (p, c ∷ s)) (
                behind_star fuel room p (c ∷ s) same asks.text_fits (omega (arith, fits))
                  (omega (arith, paid))))
        | inr plain ↦ elim (Bool-cases (stands_for exact x c)) [
          | inl stands ↦
              let taken : move exact x c ≡ take_one =
                moves
                ∙ ap (λ b. if b then branch else other) plain
                ∙ ap (λ b. if b then take_one else mismatch) stands in
              rw (taken, match_from)
                (match_from-Answers fuel room p s star
                  (Asks-plain fuel room x c p s star plain stands asks))
          | inr differs ↦
              let failed : move exact x c ≡ mismatch =
                moves
                ∙ ap (λ b. if b then branch else other) plain
                ∙ ap (λ b. if b then take_one else mismatch) differs in
              rw (failed, match_from)
                (backtrack-Answers fuel room c (x ∷ p) s star (match_from-Answers fuel) asks (
                  matches-plain exact x c p s plain
                  ∙ ap (λ b. if b then matches exact p s else false) differs))
        ]
      ]

-- matches_pattern ends within (n + 1) * (m + 1) rounds of its loop, for n bytes of text and m
-- of pattern, and returns whether the text matches: a star stands for any characters, a
-- question mark for one, and another character for itself, in either case if the case is
-- ignored.
pub matches_pattern-matches :
    (str pattern : Bytes) (case_sensitive : Bool)
    → matches_pattern str pattern case_sensitive ≡ some (matches case_sensitive pattern str)
unfolding matches_pattern
matches_pattern-matches str pattern exact =
    match_from-Answers exact (matches exact pattern str) (length pattern + 1) _ (length str) pattern
      str none
      record {
        enough = λ h. h;
        needed = some_suffix-here (matches exact pattern) str;
        noted = λ h. h;
        text_fits = omega arith;
        pattern_fits = omega arith;
        paid = omega arith;
      }
