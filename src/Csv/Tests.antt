-- ===== src/Csv/Tests.antt =====
-- The parser on concrete texts, and the theorems applied to them.
use foo_bar.Base.{true, false, [], ◌∷◌, Bytes, codes, bytes_eq, ok, ◌≡◌, ◌↔◌, refl, some, get_elem?}
use foo_bar.Csv.Types.{Config, Parser}
use foo_bar.Csv.Fields.{validate_utf8_string, apply_trimming, needs_quoting, quote_field}
use foo_bar.Csv.Rows.{finalize_row, build_header_index, find_header}
use foo_bar.Csv.Scan.{
  scan, step, at_field_start, at_unquoted_field, at_quoted_field, at_after_quote, end_row,
  at_end_of_file,
}
use foo_bar.Csv.Parser.{parse, to_rfc_4180, skip_bom, write_rows}
use foo_bar.Csv.Rows.Table.{IsTable}
use foo_bar.Csv.Access.{column_index_for_header, row_count, column_count}
use foo_bar.Csv.Parser.RoundTrip.{parse-to_rfc_4180}
use foo_bar.Csv.Parser.Built.{parse-IsTable, parse-column_index_for_header}

abbrev plain : Config
plain = record {
  has_headers = true;
  trim_whitespace = false;
  strict_mode = true;
  validate_utf8 = true;
  delimiter = 0x2c;
}

-- Two columns; a cell holds a quote and a comma.
abbrev stream : Bytes
stream = codes "a,b\r\n\"x\"\",\",y"

abbrev expected : Parser
expected = record {
  config = plain;
  headers = codes "a" ∷ codes "b" ∷ [];
  rows = (codes "x\"," ∷ codes "y" ∷ []) ∷ [];
  header_index = (codes "b", 1) ∷ (codes "a", 0) ∷ [];
  column_count = 2;
}

parse-stream : parse plain stream ≡ ok expected
unfolding parse skip_bom scan step at_field_start at_unquoted_field at_quoted_field at_after_quote
    end_row at_end_of_file finalize_row validate_utf8_string apply_trimming build_header_index
    find_header bytes_eq
parse-stream = refl

no_mark : skip_bom (to_rfc_4180 expected) ≡ to_rfc_4180 expected
unfolding skip_bom to_rfc_4180 write_rows needs_quoting quote_field
no_mark = refl

one_row : row_count expected ≡ 1
unfolding row_count
one_row = refl

two_columns : column_count expected ≡ 2
unfolding column_count
two_columns = refl

-- The writer's output, read again.
parse-to_rfc_4180_example : parse plain (to_rfc_4180 expected) ≡ ok expected
parse-to_rfc_4180_example = parse-to_rfc_4180 plain stream expected refl refl parse-stream no_mark

parse-IsTable_example : IsTable expected × (expected.config ≡ plain)
parse-IsTable_example = parse-IsTable plain stream expected parse-stream

parse-column_index_for_header_example :
    (column_index_for_header expected (codes "b") ≡ ok 1)
    ↔ (get_elem? expected.headers 1 ≡ some (codes "b"))
parse-column_index_for_header_example =
    parse-column_index_for_header plain stream expected (codes "b") 1 parse-stream refl
