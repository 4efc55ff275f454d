-- ===== src/Csv/Scan/Steps.antt =====
-- What the state machine of `parse` does on a field as the writer puts it out.
use foo_bar.Base.{
  ℕ, ◌+◌, false, [], ◌∷◌, ◌++◌, append_assoc, append-nil, Bytes, ok, ◌==◌, if◌then◌else◌, ◌≡◌, refl,
  ap, ◌∙◌, arith, Bool-cases, ==_iff, inl, inr,
}
use foo_bar.Csv.Types.{
  Row, Parser, ParseState, field_start, unquoted_field, quoted_field, after_quote,
}
use foo_bar.Csv.Fields.{
  quote_mark, comma, carriage_return, line_feed, needs_quoting, double_quotes, quote_field,
  apply_trimming_off,
}
use foo_bar.Csv.Rows.{finalize_row}
use foo_bar.Csv.Scan.{
  Scanner, step, scan, stay, skip_line_feed, at_field_start, at_unquoted_field, at_quoted_field,
  at_after_quote, end_row,
}

pub scan-stay :
    (c : ℕ) (rest : Bytes) (s s' : Scanner)
    → step c s ≡ ok (stay, s')
    → scan (c ∷ rest) s ≡ scan rest s'
unfolding scan
scan-stay c [] s s' e = rw e
scan-stay c (d ∷ rest) s s' e = rw e

pub scan_crlf :
    (c : ℕ) (rest : Bytes) (s s' : Scanner)
    → step c s ≡ ok (skip_line_feed, s')
    → scan (c ∷ line_feed ∷ rest) s ≡ scan rest s'
unfolding scan
scan_crlf c rest s s' e = rw e

-- The scanner with its variables in one line.
abbrev pub at : Parser → ParseState → ℕ → ℕ → Row → Bytes → Scanner
at p st n m row cur = record {
  parser = p;
  state = st;
  line_number = n;
  field_start_line = m;
  current_row = row;
  current_field = cur;
}

-- The line number behind a quoted field.
pub lines_after : ℕ → Bytes → ℕ
lines_after n [] = n
lines_after n (c ∷ f) = lines_after (if c == line_feed then n + 1 else n) f

module _ (p : Parser) (commas : p.config.delimiter ≡ comma)
    (untrimmed : p.config.trim_whitespace ≡ false) where
  scan-plain :
      (f rest : Bytes) (n m : ℕ) (row : Row) (cur : Bytes)
      → needs_quoting f ≡ false
      → scan (f ++ rest) (at p unquoted_field n m row cur)
        ≡ scan rest (at p unquoted_field n m row (cur ++ f))
  unfolding needs_quoting
  scan-plain [] rest n m row cur h = rw append-nil
  scan-plain (c ∷ f) rest n m row cur h =
      scan-stay c (f ++ rest) _ (at p unquoted_field n m row (cur ++ c ∷ [])) step_c
      ∙ scan-plain f rest n m row (cur ++ c ∷ []) (ground arith)
      ∙ ap (λ x. scan rest (at p unquoted_field n m row x)) (append_assoc cur (c ∷ []) f)
    where
      step_c :
          step c (at p unquoted_field n m row cur)
          ≡ ok (stay, at p unquoted_field n m row (cur ++ c ∷ []))
      step_c = unfold step at_unquoted_field in ground arith

  step_close :
      (n m : ℕ) (row : Row) (cur : Bytes)
      → step quote_mark (at p quoted_field n m row cur) ≡ ok (stay, at p after_quote n m row cur)
  unfolding step at_quoted_field
  step_close n m row cur = refl

  step_reopen :
      (n m : ℕ) (row : Row) (cur : Bytes)
      → step quote_mark (at p after_quote n m row cur)
        ≡ ok (stay, at p quoted_field n m row (cur ++ quote_mark ∷ []))
  unfolding step at_after_quote
  step_reopen n m row cur = refl

  step_copy :
      (c n m : ℕ) (row : Row) (cur : Bytes)
      → (c == quote_mark) ≡ false
      → step c (at p quoted_field n m row cur)
        ≡ ok (stay, at p quoted_field (if c == line_feed then n + 1 else n) m row (cur ++ c ∷ []))
  unfolding step at_quoted_field
  step_copy c n m row cur h = rw h

  scan-double_quotes :
      (f rest : Bytes) (n m : ℕ) (row : Row) (cur : Bytes)
      → scan (double_quotes f ++ quote_mark ∷ rest) (at p quoted_field n m row cur)
        ≡ scan rest (at p after_quote (lines_after n f) m row (cur ++ f))
  unfolding double_quotes lines_after
  scan-double_quotes [] rest n m row cur =
      rw append-nil (scan-stay quote_mark rest _ _ (step_close n m row cur))
  scan-double_quotes (c ∷ f) rest n m row cur = elim (Bool-cases (c == quote_mark)) [
    | inl e ↦
        rw (e, (==_iff c quote_mark).0 e)
          (scan-stay quote_mark _ _ _ (step_close n m row cur)
            ∙ scan-stay quote_mark _ _ _ (step_reopen n m row cur)
            ∙ scan-double_quotes f rest n m row (cur ++ quote_mark ∷ [])
            ∙ ap (λ x. scan rest (at p after_quote (lines_after n f) m row x))
                (append_assoc cur (quote_mark ∷ []) f))
    | inr e ↦ rw e (
        scan-stay c _ _ _ (step_copy c n m row cur e)
        ∙ scan-double_quotes f rest (if c == line_feed then n + 1 else n) m row (cur ++ c ∷ [])
        ∙ ap (λ x. scan rest (at p after_quote (lines_after n (c ∷ f)) m row x))
            (append_assoc cur (c ∷ []) f))
  ]

  -- The scanner behind the bytes of field `f`, before the comma or the line's end.
  pub data Ended (row : Row) (f : Bytes) : Scanner → Type 0 where
    empty : (n m : ℕ) → f ≡ [] → Ended row f (at p field_start n m row f)
    unquoted : (n m : ℕ) → Ended row f (at p unquoted_field n m row f)
    quoted : (n m : ℕ) → Ended row f (at p after_quote n m row f)

  pub Ended-comma :
      {row : Row} {f : Bytes} {s : Scanner}
      → Ended row f s
      → (n : ℕ) × (m : ℕ) × (step comma s ≡ ok (stay, at p field_start n m (row ++ f ∷ []) []))
  unfolding step at_field_start at_unquoted_field at_after_quote
  Ended-comma {row} {f} (empty n m e) =
      (n, m, ground (arith, apply_trimming_off p.config f untrimmed))
  Ended-comma {row} {f} (unquoted n m) =
      (n, m, ground (arith, apply_trimming_off p.config f untrimmed))
  Ended-comma {row} {f} (quoted n m) = (n, m, ground arith)

  pub Ended-crlf :
      {row : Row} {f : Bytes} {s : Scanner} {p' : Parser}
      → Ended row f s
      → ((k : ℕ) → finalize_row p (row ++ f ∷ []) k ≡ ok p')
      → (n : ℕ) × (m : ℕ) × (step carriage_return s
          ≡ ok (skip_line_feed, at p' field_start n m [] []))
  unfolding step at_field_start at_unquoted_field at_after_quote end_row
  Ended-crlf {row} {f} (empty n m e) fin =
      (n + 1, m, ground (arith, apply_trimming_off p.config f untrimmed, fin n))
  Ended-crlf {row} {f} (unquoted n m) fin =
      (n + 1, m, ground (arith, apply_trimming_off p.config f untrimmed, fin n))
  Ended-crlf {row} {f} (quoted n m) fin = (n + 1, m, ground (arith, fin n))

  step_open :
      (n m : ℕ) (row : Row)
      → step quote_mark (at p field_start n m row []) ≡ ok (stay, at p quoted_field n n row [])
  unfolding step at_field_start
  step_open n m row = refl

  step_first :
      (c : ℕ) (f : Bytes) (n m : ℕ) (row : Row)
      → needs_quoting (c ∷ f) ≡ false
      → step c (at p field_start n m row []) ≡ ok (stay, at p unquoted_field n m row (c ∷ []))
  unfolding step at_field_start needs_quoting
  step_first c f n m row h = ground arith

  needs_quoting-tail : (c : ℕ) (f : Bytes) → needs_quoting (c ∷ f) ≡ false → needs_quoting f ≡ false
  unfolding needs_quoting
  needs_quoting-tail c f h = ground arith

  -- A field as the writer puts it out leaves the scanner behind that field.
  pub scan-write_field :
      (f rest : Bytes) (n m : ℕ) (row : Row)
      → (s : Scanner) × Ended row f s
        × (scan
              ((if needs_quoting f then quote_field f else f) ++ rest)
              (at p field_start n m row [])
            ≡ scan rest s)
  unfolding quote_field
  scan-write_field f rest n m row = elim (Bool-cases (needs_quoting f)) [
    | inl e ↦ (
      at p after_quote (lines_after n f) n row f,
      quoted _ _,
      rw (e, append_assoc)
          (scan-stay quote_mark _ _ _ (step_open n m row) ∙ scan-double_quotes f rest n n row []),
    )
    | inr e ↦ bare f e
  ]
    where
      bare :
          (g : Bytes)
          → needs_quoting g ≡ false
          → (s : Scanner) × Ended row g s
            × (scan
                  ((if needs_quoting g then quote_field g else g) ++ rest)
                  (at p field_start n m row [])
                ≡ scan rest s)
      bare [] e = (at p field_start n m row [], empty n m refl, rw e)
      bare (c ∷ g) e = (
        at p unquoted_field n m row (c ∷ g),
        unquoted n m,
        rw e (
            scan-stay c _ _ _ (step_first c g n m row e)
            ∙ scan-plain g rest n m row (c ∷ []) (needs_quoting-tail c g e)),
      )
