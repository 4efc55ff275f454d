-- ===== src/Csv/Scan/Keeps.antt =====
-- What each call of `finalize_row` keeps, `parse` keeps.
use foo_bar.Base.{
  ℕ, Bool, [], ◌∷◌, Bytes, ok, err, ◌≡◌, refl, subst, true, false, if◌then◌else◌, ◌>>=◌,
}
use foo_bar.Csv.Types.{
  Row, Parser, Error, ParseState, field_start, unquoted_field, quoted_field, after_quote, Outcome,
}
use foo_bar.Csv.Rows.{finalize_row, is_empty}
use foo_bar.Csv.Scan.{
  Scanner, Peek, Round, step, scan, takes, on_state, end_row, at_field_start, at_unquoted_field,
  at_quoted_field, at_after_quote, at_end_of_file, finish,
}

-- A call throws, or what it returns has the property.
pub data Leaves {A : Type 0} (P : A → Type 0) : Outcome A → Type 0 where
  returns : (a : A) → P a → Leaves P (ok a)
  throws : (e : Error) → Leaves P (err e)

Leaves-if :
    {A : Type 0} {P : A → Type 0} (b : Bool) {x y : Outcome A}
    → Leaves P x
    → Leaves P y
    → Leaves P (if b then x else y)
Leaves-if true hx hy = hx
Leaves-if false hx hy = hy

Leaves-bind :
    {A B : Type 0} {P : A → Type 0} {Q : B → Type 0} {m : Outcome A} {f : A → Outcome B}
    → Leaves P m
    → ((a : A) → P a → Leaves Q (f a))
    → Leaves Q (m >>= f)
Leaves-bind (returns a p) k = k a p
Leaves-bind (throws e) k = throws e

Leaves_ok : {A : Type 0} {P : A → Type 0} {a : A} → Leaves P (ok a) → P a
Leaves_ok {A} {P} {a} h = go h refl
  where
    go : {o : Outcome A} → Leaves P o → o ≡ ok a → P a
    go (returns b p) e = subst P (cc) p
    go (throws x) e = cc

module _ (P : Parser → Type 0)
    (keep : (p p' : Parser) (r : Row) (n : ℕ) → finalize_row p r n ≡ ok p' → P p → P p') where
  Keeps : Round → Type 0
  Keeps = Leaves (λ (k, s). P s.parser)

  finalize_row-Leaves : (p : Parser) (r : Row) (n : ℕ) → P p → Leaves P (finalize_row p r n)
  finalize_row-Leaves p r n h = go (finalize_row p r n) refl
    where
      go : (o : Outcome Parser) → finalize_row p r n ≡ o → Leaves P o
      go (ok p') e = returns p' (keep p p' r n e h)
      go (err x) e = throws x

  end_row-Keeps : (f : Bytes) (k : Peek) (s : Scanner) → P s.parser → Keeps (end_row f k s)
  unfolding end_row Keeps
  end_row-Keeps f k s h = Leaves-bind (finalize_row-Leaves _ _ _ h) (λ p hp. returns _ hp)

  on_state-Keeps : (st : ParseState) (c : ℕ) (s : Scanner) → P s.parser → Keeps (on_state st c s)
  unfolding at_field_start at_unquoted_field at_quoted_field at_after_quote Keeps
  on_state-Keeps field_start c s h = search (Leaves-if, returns, end_row-Keeps, h) depth 8
  on_state-Keeps unquoted_field c s h =
      search (Leaves-if, returns, throws, end_row-Keeps, h) depth 8
  on_state-Keeps quoted_field c s h = search (Leaves-if, returns, h)
  on_state-Keeps after_quote c s h = search (Leaves-if, returns, throws, end_row-Keeps, h) depth 9

  scan-Leaves :
      (b : Bytes) (s : Scanner) → P s.parser → Leaves (λ (t : Scanner). P t.parser) (scan b s)
  unfolding scan step Keeps
  scan-Leaves [] s h = returns s h
  scan-Leaves (c ∷ []) s h = Leaves-bind (on_state-Keeps s.state c s h) (λ (k, t) ht. returns t ht)
  scan-Leaves (c ∷ d ∷ rest) s h =
      Leaves-bind (on_state-Keeps s.state c s h)
        (λ (k, t) ht. Leaves-if (takes k d) (scan-Leaves rest t ht) (scan-Leaves (d ∷ rest) t ht))

  finish-Leaves : (st : ParseState) (s : Scanner) → P s.parser → Leaves P (finish st s)
  unfolding finish
  finish-Leaves quoted_field s h = throws _
  finish-Leaves after_quote s h = finalize_row-Leaves _ _ _ h
  finish-Leaves unquoted_field s h = finalize_row-Leaves _ _ _ h
  finish-Leaves field_start s h =
      Leaves-if (is_empty s.current_row) (returns _ h) (finalize_row-Leaves _ _ _ h)

  -- A property of the parser that `finalize_row` keeps holds at the end of the stream.
  pub scan-keeps :
      (b : Bytes) (s t : Scanner) (p : Parser)
      → P s.parser
      → scan b s ≡ ok t
      → at_end_of_file t ≡ ok p
      → P p
  unfolding at_end_of_file
  scan-keeps b s t p h e f =
      let ht = Leaves_ok (subst (Leaves (λ (t : Scanner). P t.parser)) e (scan-Leaves b s h)) in
      Leaves_ok (subst (Leaves P) f (finish-Leaves t.state t ht))
