-- ===== src/Csv/Fields/Lines.antt =====
-- The line number that the UTF-8 check is given stands in its messages only.
use foo_bar.Base.{ℕ, zero, suc, [], ◌∷◌, Bytes, ok, ◌≡◌, refl, arith}
use foo_bar.Csv.Fields.{validate_from, validate_utf8_string}

validate_from-line :
    (e : ℕ) (s : Bytes) (n k : ℕ) → validate_from e s n ≡ ok tt → validate_from e s k ≡ ok tt
unfolding validate_from
validate_from-line zero [] n k h = refl
validate_from-line (suc e) [] n k h = cc
validate_from-line zero (c ∷ s) n k h = ground (
  arith,
  validate_from-line 0 s n k,
  validate_from-line 1 s n k,
  validate_from-line 2 s n k,
  validate_from-line 3 s n k,
)
validate_from-line (suc e) (c ∷ s) n k h = ground (arith, validate_from-line e s n k)

pub validate_utf8_string-line :
    (s : Bytes) (n k : ℕ) → validate_utf8_string s n ≡ ok tt → validate_utf8_string s k ≡ ok tt
unfolding validate_utf8_string
validate_utf8_string-line s n k h = validate_from-line 0 s n k h
