-- ===== src/Csv/Parser.antt =====
-- fb_core/src/csv_parser.cpp: the constructor over a stream, `parse`, and the RFC 4180 writer.
pub mod RoundTrip
pub mod Built
use foo_bar.Base.{
  ℕ, Bool, true, false, ◌&&◌, not, List, [], ◌∷◌, ◌++◌, Bytes, ok, ◌==◌, if◌then◌else◌, ◌>>=◌,
}
use foo_bar.Csv.Types.{Config, Row, Parser, field_start, Outcome, fresh}
use foo_bar.Csv.Fields.{comma, carriage_return, line_feed, needs_quoting, quote_field}
use foo_bar.Csv.Rows.{build_header_index, is_empty}
use foo_bar.Csv.Scan.{Scanner, scan, at_end_of_file}

-- `detect_and_skip_bom`, for a stream that `seekg(0)` brings back to its first byte.
unfoldable pub skip_bom : Bytes → Bytes
skip_bom (a ∷ b ∷ c ∷ s) = if a == 0xef && b == 0xbb && c == 0xbf then s else a ∷ b ∷ c ∷ s
skip_bom s = s

-- The local variables at the head of `parse`.
abbrev pub start : Parser → Scanner
start p = record {
  parser = p;
  state = field_start;
  line_number = 1;
  field_start_line = 1;
  current_row = [];
  current_field = [];
}

-- `parse`, called by the constructor on a fresh object.
unfoldable pub parse : Config → Bytes → Outcome Parser
parse cfg stream = do
  s ← scan (skip_bom stream) (start (fresh cfg))
  p ← at_end_of_file s
  if cfg.has_headers then build_header_index p else ok p

-- One field as `write_row` puts it out.
unfoldable pub write_field : Bytes → Bytes
write_field field = if needs_quoting field then quote_field field else field

-- The rounds `i > 0` of `write_row`, each with its comma in front, and the line's end.
unfoldable pub write_fields : Row → Bytes
unfolding write_field
write_fields [] = carriage_return ∷ line_feed ∷ []
write_fields (f ∷ r) = comma ∷ (write_field f ++ write_fields r)

unfoldable pub write_row : Row → Bytes
unfolding write_fields write_field
write_row [] = carriage_return ∷ line_feed ∷ []
write_row (f ∷ r) = write_field f ++ write_fields r

unfoldable pub write_rows : List Row → Bytes
unfolding write_row
write_rows [] = []
write_rows (r ∷ rs) = write_row r ++ write_rows rs

unfoldable pub to_rfc_4180 : Parser → Bytes
unfolding write_rows
to_rfc_4180 p =
    (if p.config.has_headers && not (is_empty p.headers) then write_row p.headers else [])
    ++ write_rows p.rows
