-- ===== src/Csv/Access.antt =====
-- fb_core/src/csv_parser.cpp: the dimensions and the read-only access to rows, columns and cells.
pub mod Headers
use foo_bar.Base.{
  ℕ, Bool, not, List, [], ◌∷◌, Bytes, ok, err, leb, ltb, if◌then◌else◌, ◌>>=◌, length, get_elem?,
  Option, none, some, throw_if, ◌>>◌,
}
use foo_bar.Csv.Types.{
  Row, Parser, Outcome, headers_not_enabled, header_not_found, row_out_of_range,
  column_out_of_range,
}
use foo_bar.Csv.Rows.{find_header}

unfoldable pub row_count : Parser → ℕ
row_count p = length p.rows

unfoldable pub column_count : Parser → ℕ
column_count p = p.column_count

-- `m_data[row_index]`; the guard before it rules the case `none` out.
pub stored_row : List Row → ℕ → Row
stored_row rows i = elim (get_elem? rows i) [ some r ↦ r | none ↦ [] ]

unfoldable pub get_row : Parser → ℕ → Outcome Row
unfolding stored_row
get_row p i =
    if leb (length p.rows) i
    then err (row_out_of_range i (length p.rows))
    else ok (stored_row p.rows i)

-- `row[col]` if the row is that long; a missing field is an empty string.
pub field_at : Row → ℕ → Bytes
field_at r i = elim (get_elem? r i) [ some f ↦ f | none ↦ [] ]

column_of : List Row → ℕ → List Bytes
column_of [] i = []
column_of (r ∷ rs) i = field_at r i ∷ column_of rs i

unfoldable pub get_column : Parser → ℕ → Outcome (List Bytes)
unfolding column_of field_at
get_column p i =
    if leb p.column_count i
    then err (column_out_of_range i p.column_count)
    else ok (column_of p.rows i)

unfoldable pub get_cell : Parser → ℕ → ℕ → Outcome Bytes
unfolding stored_row field_at
get_cell p row col =
    if leb (length p.rows) row
    then err (row_out_of_range row (length p.rows))
    else if leb p.column_count col
    then err (column_out_of_range col p.column_count)
    else ok (field_at (stored_row p.rows row) col)

unfoldable pub column_index_for_header : Parser → Bytes → Outcome ℕ
column_index_for_header p name =
    if not p.config.has_headers
    then err headers_not_enabled
    else elim (find_header name p.header_index) [
      | none ↦ err (header_not_found name)
      | some i ↦ ok i
    ]

-- `get_column(header_name)`
unfoldable pub get_column_by_header : Parser → Bytes → Outcome (List Bytes)
get_column_by_header p name = column_index_for_header p name >>= get_column p

-- `get_cell(row, col_header)`
unfoldable pub get_cell_by_header : Parser → ℕ → Bytes → Outcome Bytes
get_cell_by_header p row name = column_index_for_header p name >>= get_cell p row
