-- ===== src/Csv/Rows/Replay.antt =====
-- A parser is rebuilt by finalizing again the rows that it holds.
use mathlib.Core.List.{cons-ne-nil}
use foo_bar.Base.{
  ℕ, ◌&&◌, not, List, [], ◌∷◌, ◌++◌, ok, if◌then◌else◌, ◌>>=◌, >>=-returns, ◌≡◌, ◌≢◌, refl, sym,
  subst, arith, inl, inr, ◌⊎◌, All, All-append,
}
use foo_bar.Csv.Types.{Config, Row, Parser, Outcome, fresh}
use foo_bar.Csv.Fields.Lines.{validate_utf8_string-line}
use foo_bar.Csv.Rows.{finalize_row, validate_fields, store_row, is_empty}

validate_fields-line :
    (r : Row) (n k : ℕ) → validate_fields r n ≡ ok tt → validate_fields r k ≡ ok tt
unfolding validate_fields
validate_fields-line [] n k h = refl
validate_fields-line (f ∷ r) n k h =
    ground (arith, validate_utf8_string-line f n k, validate_fields-line r n k)

store_row-line :
    (p : Parser) (r : Row) (n k : ℕ) {p' : Parser}
    → store_row p r n ≡ ok p'
    → store_row p r k ≡ ok p'
unfolding store_row
store_row-line p r n k h = ground arith

-- A row that is accepted at one line is accepted at each, with the same result.
pub finalize_row-line :
    (p : Parser) (r : Row) (n k : ℕ) {p' : Parser}
    → finalize_row p r n ≡ ok p'
    → finalize_row p r k ≡ ok p'
unfolding finalize_row
finalize_row-line p r n k {p'} h =
    ground (arith, validate_fields-line r n k, store_row-line p r n k {p' = p'})

pub finalize_row-config :
    (p : Parser) (r : Row) (n : ℕ) {p' : Parser} → finalize_row p r n ≡ ok p' → p'.config ≡ p.config
unfolding finalize_row store_row
finalize_row-config p r n h = ground arith

-- The rows that the writer puts out: the headers, if there are some, and the data.
unfoldable pub written : Parser → List Row
written p = if p.config.has_headers && not (is_empty p.headers) then p.headers ∷ p.rows else p.rows

-- An accepted row is stored behind the others, or skipped.
pub finalize_row-written :
    (p : Parser) (r : Row) (n : ℕ) {p' : Parser}
    → finalize_row p r n ≡ ok p'
    → (p' ≡ p) ⊎ ((r ≢ []) × (written p' ≡ written p ++ r ∷ []))
unfolding finalize_row store_row written
finalize_row-written p [] n h = inl (ground arith)
finalize_row-written p ([] ∷ []) n h = inl (ground arith)
finalize_row-written p ((c ∷ f) ∷ []) n h = inr (cons-ne-nil _ _, ground arith)
finalize_row-written p (f ∷ g ∷ r) n h = inr (cons-ne-nil _ _, ground arith)

-- The rows, finalized one after the other.
pub finalize_all : Parser → List Row → ℕ → Outcome Parser
finalize_all p [] n = ok p
finalize_all p (r ∷ rs) n = finalize_row p r n >>= λ p'. finalize_all p' rs n

finalize_all-snoc :
    (p q q' : Parser) (rs : List Row) (r : Row) (n : ℕ)
    → finalize_all p rs n ≡ ok q
    → finalize_row q r n ≡ ok q'
    → finalize_all p (rs ++ r ∷ []) n ≡ ok q'
unfolding finalize_all
finalize_all-snoc p q q' [] r n h k = ground arith
finalize_all-snoc p q q' (x ∷ rs) r n h k =
    let (p', first, rest) = >>=-returns (finalize_row p x n) _ h in
    rw first (finalize_all-snoc p' q q' rs r n rest k)

pub finalize_all-cons :
    (p q : Parser) (r : Row) (rs : List Row) (n : ℕ)
    → finalize_all p (r ∷ rs) n ≡ ok q
    → (p' : Parser) × (finalize_row p r n ≡ ok p') × (finalize_all p' rs n ≡ ok q)
unfolding finalize_all
finalize_all-cons p q r rs n h = >>=-returns (finalize_row p r n) _ h

pub finalize_all-nil : (p q : Parser) (n : ℕ) → finalize_all p [] n ≡ ok q → p ≡ q
unfolding finalize_all
finalize_all-nil p q n h = cc

-- From the parser `start`, the rows that `p` holds give `p` again, and none of them is empty.
pub record Replays (start p : Parser) : Type 0 where
  pub again : finalize_all start (written p) 0 ≡ ok p
  pub no_empty : All (λ r. r ≢ []) (written p)

pub Replays-fresh : (cfg : Config) → Replays (fresh cfg) (fresh cfg)
unfolding finalize_all written
Replays-fresh cfg = record { again = ground arith; no_empty = rw nothing tt }
  where
    nothing : written (fresh cfg) ≡ []
    nothing = ground arith

pub finalize_row-Replays :
    {start : Parser} (p p' : Parser) (r : Row) (n : ℕ)
    → finalize_row p r n ≡ ok p'
    → Replays start p
    → Replays start p'
finalize_row-Replays {start} p p' r n h v = elim (finalize_row-written p r n h) [
  | inl same ↦ subst (Replays start) (sym same) v
  | inr (full, more) ↦ record {
    again =
        rw more
          (finalize_all-snoc start p p' (written p) r 0 v.again (finalize_row-line p r n 0 h));
    no_empty = rw more (All-append _ (written p) (r ∷ []) v.no_empty (full, tt));
  }
]
