-- ===== src/Csv/Rows/Table.antt =====
-- What every parser that `parse` builds satisfies.
use mathlib.Core.List.{cons-ne-nil}
use native.Mathlib.Nat.{le_trans}
use foo_bar.Base.{
  ℕ, ◌≤◌, true, ◌&&◌, List, [], ◌∷◌, ◌++◌, Bytes, ok, ◌==◌, >>=-returns, ◌≡◌, ◌≢◌, refl, arith, sym,
  subst, ap, ◌∙◌, Bool-cases, inl, inr, ◌⊎◌, length, All, All-append,
}
use foo_bar.Csv.Types.{Config, Row, Parser, fresh}
use foo_bar.Csv.Fields.{validate_utf8_string}
use foo_bar.Csv.Fields.Lines.{validate_utf8_string-line}
use foo_bar.Csv.Rows.{finalize_row, validate_fields, store_row, is_empty}
use foo_bar.Csv.Rows.Replay.{written}

-- A field that passes the UTF-8 check.
abbrev pub IsChecked : Bytes → Type 0
IsChecked f = validate_utf8_string f 0 ≡ ok tt

validate_fields-IsChecked : (r : Row) (n : ℕ) → validate_fields r n ≡ ok tt → All IsChecked r
unfolding validate_fields
validate_fields-IsChecked [] n h = tt
validate_fields-IsChecked (f ∷ r) n h =
    let (u, first, rest) = >>=-returns (validate_utf8_string f n) (λ _. validate_fields r n) h in
    (validate_utf8_string-line f n 0 first, validate_fields-IsChecked r n rest)

-- How the column count changes when row `r` is stored.
abbrev Counts : Parser → Row → Parser → Type 0
Counts p r p' =
    ((written p ≡ []) × (p'.column_count ≡ length r))
    ⊎ ((p.column_count ≡ 0) × (p'.column_count ≡ length r))
    ⊎ ((p.column_count ≤ p'.column_count)
        × (length r ≤ p'.column_count)
        × (p.config.strict_mode ≡ true
            → (length r ≡ p.column_count) × (p'.column_count ≡ p.column_count)))

record Stored (p : Parser) (r : Row) (n : ℕ) (p' : Parser) : Type 0 where
  config : p'.config ≡ p.config
  behind : written p' ≡ written p ++ r ∷ []
  not_empty : r ≢ []
  not_blank : r ≢ [] ∷ []
  checked : p.config.validate_utf8 ≡ true → validate_fields r n ≡ ok tt
  counts : Counts p r p'

module _ (p : Parser) (f : Bytes) (r : Row) (n : ℕ) {p' : Parser} where
  stored : (f ∷ r) ≢ [] ∷ [] → finalize_row p (f ∷ r) n ≡ ok p' → Stored p (f ∷ r) n p'
  unfolding finalize_row store_row written
  stored full h = record {
    config = ground arith;
    behind = ground arith;
    not_empty = cons-ne-nil _ _;
    not_blank = full;
    checked = ground arith;
    counts = elim (Bool-cases (p.config.has_headers && is_empty p.headers && is_empty p.rows)) [
      | inl e ↦ inl (ground arith, ground arith)
      | inr e ↦ elim (Bool-cases (p.column_count == 0)) [
        | inl z ↦ inr (inl (ground arith, ground arith))
        | inr z ↦ inr (inr (ground arith, ground arith, λ strict. (ground arith, ground arith)))
      ]
    ];
  }

-- `finalize_row` skips a row with no byte in it, and stores any other that it accepts.
finalize_row-Stored :
    (p : Parser) (r : Row) (n : ℕ) {p' : Parser}
    → finalize_row p r n ≡ ok p'
    → (p' ≡ p) ⊎ Stored p r n p'
unfolding finalize_row
finalize_row-Stored p [] n h = inl (ground arith)
finalize_row-Stored p ([] ∷ []) n h = inl (ground arith)
finalize_row-Stored p ((c ∷ f) ∷ r) n h = inr (stored p (c ∷ f) r n (ground arith) h)
finalize_row-Stored p ([] ∷ g ∷ r) n h = inr (stored p [] (g ∷ r) n (ground arith) h)

-- The table that a parser holds, its header row included.
pub record IsTable (p : Parser) : Type 0 where
  pub not_empty : All (λ r. r ≢ []) (written p)
  pub not_blank : All (λ r. r ≢ [] ∷ []) (written p)
  pub fits : All (λ r. length r ≤ p.column_count) (written p)
  pub uniform : p.config.strict_mode ≡ true → All (λ r. length r ≡ p.column_count) (written p)
  pub checked : p.config.validate_utf8 ≡ true → All (All IsChecked) (written p)

pub IsTable-fresh : (cfg : Config) → IsTable (fresh cfg)
IsTable-fresh cfg = record {
  not_empty = rw nothing tt;
  not_blank = rw nothing tt;
  fits = rw nothing tt;
  uniform = λ _. rw nothing tt;
  checked = λ _. rw nothing tt;
}
  where
    nothing : written (fresh cfg) ≡ []
    nothing = unfold written in ground arith

All-weaken {ℓ κ} :
    {A : Type ℓ} {P Q : A → Type κ} (xs : List A) → ((a : A) → P a → Q a) → All P xs → All Q xs
All-weaken [] f h = tt
All-weaken (x ∷ xs) f (hx, hxs) = (f x hx, All-weaken xs f hxs)

-- With no column there is no row.
no_rows : (rs : List Row) → All (λ r. r ≢ []) rs → All (λ r. length r ≤ 0) rs → rs ≡ []
no_rows [] full fits = refl
no_rows ([] ∷ rs) (full, _) fits = absurd (full refl)
no_rows ((f ∷ r) ∷ rs) full (fits, _) = absurd (omega arith)

-- The row is the first one, or the table keeps its shape.
shape :
    (p p' : Parser) (r : Row)
    → Counts p r p'
    → IsTable p
    → ((written p ≡ []) × (p'.column_count ≡ length r))
      ⊎ ((p.column_count ≤ p'.column_count)
          × (length r ≤ p'.column_count)
          × (p.config.strict_mode ≡ true
              → (length r ≡ p.column_count) × (p'.column_count ≡ p.column_count)))
shape p p' r (inl first) v = inl first
shape p p' r (inr (inl (z, e))) v =
    inl (
      no_rows (written p) v.not_empty (subst (λ k. All (λ r. length r ≤ k) (written p)) z v.fits),
      e,
    )
shape p p' r (inr (inr grows)) v = inr grows

Stored-IsTable : (p p' : Parser) (r : Row) (n : ℕ) → Stored p r n p' → IsTable p → IsTable p'
Stored-IsTable p p' r n s v = record {
  not_empty = rw s.behind (All-append _ (written p) (r ∷ []) v.not_empty (s.not_empty, tt));
  not_blank = rw s.behind (All-append _ (written p) (r ∷ []) v.not_blank (s.not_blank, tt));
  fits = rw s.behind (fits (shape p p' r s.counts v));
  uniform = λ strict. rw s.behind (
      uniform (sym (ap (λ (c : Config). c.strict_mode) s.config) ∙ strict)
        (shape p p' r s.counts v));
  checked = λ on.
      let same = sym (ap (λ (c : Config). c.validate_utf8) s.config) ∙ on in
      rw s.behind (
        All-append _ (written p) (r ∷ []) (v.checked same)
          (validate_fields-IsChecked r n (s.checked same), tt));
}
  where
    Shape : Type 0
    Shape =
        ((written p ≡ []) × (p'.column_count ≡ length r))
        ⊎ ((p.column_count ≤ p'.column_count)
            × (length r ≤ p'.column_count)
            × (p.config.strict_mode ≡ true
                → (length r ≡ p.column_count) × (p'.column_count ≡ p.column_count)))

    fits : Shape → All (λ r. length r ≤ p'.column_count) (written p ++ r ∷ [])
    fits (inl (none, e)) = rw none (omega arith, tt)
    fits (inr (grows, fit, _)) =
        All-append _ (written p) (r ∷ []) (All-weaken (written p) (λ a h. le_trans h grows) v.fits)
          (fit, tt)

    uniform :
        p.config.strict_mode ≡ true
        → Shape
        → All (λ r. length r ≡ p'.column_count) (written p ++ r ∷ [])
    uniform strict (inl (none, e)) = rw none (sym e, tt)
    uniform strict (inr (_, _, exact)) =
        let (len, same) = exact strict in
        All-append _ (written p) (r ∷ [])
          (All-weaken (written p) (λ a h. h ∙ sym same) (v.uniform strict)) (len ∙ sym same, tt)

pub finalize_row-IsTable :
    (p p' : Parser) (r : Row) (n : ℕ) → finalize_row p r n ≡ ok p' → IsTable p → IsTable p'
finalize_row-IsTable p p' r n h v = elim (finalize_row-Stored p r n h) [
  | inl same ↦ subst IsTable (sym same) v
  | inr s ↦ Stored-IsTable p p' r n s v
]
