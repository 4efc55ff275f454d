-- ===== src/Csv/Access/Headers.antt =====
-- The two ways to name a column agree, and a column holds the cells of its rows.
use foo_bar.Base.{
  ℕ, zero, suc, List, [], ◌∷◌, Bytes, ok, ◌≡◌, refl, arith, get_elem?, some, length, ◌<◌,
}
use foo_bar.Csv.Types.{Row, Parser}
use foo_bar.Csv.Access.{
  row_count, column_count, get_cell, get_column, column_of, field_at, stored_row,
}

length-column_of : (rs : List Row) (i : ℕ) → length (column_of rs i) ≡ length rs
unfolding column_of
length-column_of [] i = refl
length-column_of (r ∷ rs) i = omega (arith, length-column_of rs i)

column_of-get_elem? :
    (rs : List Row) (i k : ℕ)
    → k < length rs
    → get_elem? (column_of rs i) k ≡ some (field_at (stored_row rs k) i)
unfolding column_of stored_row
column_of-get_elem? [] i k h = absurd (omega arith)
column_of-get_elem? (r ∷ rs) i zero h = refl
column_of-get_elem? (r ∷ rs) i (suc k) h = column_of-get_elem? rs i k (omega arith)

-- For a column index in range, `get_column` returns a column with one entry for each row, and the
-- entry of each row is what `get_cell` returns for that row and column.
pub get_column-get_cell :
    (p : Parser) (row col : ℕ)
    → row < row_count p
    → col < column_count p
    → (cells : List Bytes) × (cell : Bytes) × (get_column p col ≡ ok cells)
      × (length cells ≡ row_count p)
      × (get_cell p row col ≡ ok cell)
      × (get_elem? cells row ≡ some cell)
unfolding get_column get_cell row_count column_count
get_column-get_cell p row col h k = (
  column_of p.rows col,
  field_at (stored_row p.rows row) col,
  ground arith,
  length-column_of p.rows col,
  ground arith,
  column_of-get_elem? p.rows col row h,
)
