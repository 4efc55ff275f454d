-- ===== src/Csv/Rows.antt =====
-- fb_core/src/csv_parser.cpp: `finalize_row` and `build_header_index`.
pub mod Replay
pub mod Table
pub mod Index
use foo_bar.Base.{
  ℕ, zero, suc, ◌+◌, Bool, true, false, ◌&&◌, ◌||◌, not, List, [], ◌∷◌, ◌++◌, Bytes, ok, err, ltb,
  ◌==◌, if◌then◌else◌, length, ◌>>=◌, ◌>>◌, throw_if, Option, none, some, bytes_eq,
}
use foo_bar.Csv.Types.{
  Config, Row, Parser, Error, Outcome, empty_row, inconsistent_field_count, duplicate_header,
}
use foo_bar.Csv.Fields.{validate_utf8_string}

abbrev pub is_empty {ℓ} : {A : Type ℓ} → List A → Bool
is_empty [] = true
is_empty (x ∷ xs) = false

-- `current_row.size() == 1 && current_row[0].empty()`
abbrev pub is_single_empty : Row → Bool
is_single_empty [] = false
is_single_empty (f ∷ []) = is_empty f
is_single_empty (f ∷ g ∷ r) = false

-- `for (const auto& field : current_row) validate_utf8_string(field, line_number);`
unfoldable pub validate_fields : Row → ℕ → Outcome (Unit {0})
validate_fields [] line = ok tt
validate_fields (f ∷ r) line = validate_utf8_string f line >> validate_fields r line

-- The data row's branch: the column count is checked and widened, and the row is stored.
unfoldable pub store_row : Parser → Row → ℕ → Outcome Parser
store_row p row line =
    let first = p.column_count == 0 in
    let expected = if first then length row else p.column_count in
    let count = if first then expected else p.column_count in
    do
      throw_if (p.config.strict_mode && not (length row == expected))
          (inconsistent_field_count line expected (length row))
      ok (record p {
        column_count =
            if not p.config.strict_mode && ltb count (length row) then length row else count;
        rows = p.rows ++ row ∷ [];
      })

-- The parser after the call; `current_row` is empty after each call that returns.
unfoldable pub finalize_row : Parser → Row → ℕ → Outcome Parser
unfolding validate_fields store_row
finalize_row p row line = do
  if p.config.validate_utf8 then validate_fields row line else ok tt
  throw_if (p.config.strict_mode && is_empty row) (empty_row line)
  if is_empty row
      then ok p
      else if is_single_empty row
      then if p.config.strict_mode then err (empty_row line) else ok p
      else if p.config.has_headers && is_empty p.headers && is_empty p.rows
      then ok (record p { headers = row; column_count = length row })
      else store_row p row line

-- `m_header_index.find`
unfoldable pub find_header : Bytes → List (Bytes × ℕ) → Option ℕ
find_header k [] = none
find_header k ((j, i) ∷ m) = if bytes_eq j k then some i else find_header k m

-- The loop of `build_header_index` at index `i`; `emplace` stores nothing if the key is there.
unfoldable pub index_headers : Row → ℕ → List (Bytes × ℕ) → Outcome (List (Bytes × ℕ))
index_headers [] i index = ok index
index_headers (h ∷ hs) i index = elim (find_header h index) [
  | some j ↦ err (duplicate_header h)
  | none ↦ index_headers hs (i + 1) ((h, i) ∷ index)
]

unfoldable pub build_header_index : Parser → Outcome Parser
unfolding index_headers
build_header_index p =
    index_headers p.headers 0 p.header_index >>= λ index. ok (record p { header_index = index })
