-- ===== src/Csv/Types.antt =====
-- fb_core/include/fb/csv_parser.h: the configuration, the parser object, the states of the scanner
-- and the exceptions.
use foo_bar.Base.{ℕ, Bool, List, [], Bytes, Result}

-- `csv_config`; a `char` is its byte.
pub record Config : Type 0 where
  pub has_headers : Bool
  pub trim_whitespace : Bool
  pub strict_mode : Bool
  pub validate_utf8 : Bool
  pub delimiter : ℕ

pub data ParseState : Type 0 where
  field_start unquoted_field quoted_field after_quote : ParseState

abbrev pub Row : Type 0
Row = List Bytes

-- `csv_parser`, without `m_source_name`, which only stands in the messages. The hash map
-- `m_header_index` is an association list.
pub record Parser : Type 0 where
  pub config : Config
  pub headers : Row
  pub rows : List Row
  pub header_index : List (Bytes × ℕ)
  pub column_count : ℕ

-- The object as the constructor's initialisers leave it.
abbrev pub fresh : Config → Parser
fresh cfg = record { config = cfg; headers = []; rows = []; header_index = []; column_count = 0 }

-- The exceptions, by their messages' wording, with the numbers that the messages hold.
pub data Error : Type 0 where
  quote_in_unquoted_field : ℕ → Error
  invalid_after_closing_quote : ℕ → Error
  unclosed_quoted_field : ℕ → Error
  invalid_utf8_sequence : ℕ → Error
  invalid_utf8_continuation : ℕ → Error
  empty_row : ℕ → Error
  inconsistent_field_count : ℕ → ℕ → ℕ → Error
  duplicate_header : Bytes → Error
  headers_not_enabled : Error
  header_not_found : Bytes → Error
  row_out_of_range : ℕ → ℕ → Error
  column_out_of_range : ℕ → ℕ → Error

-- What a method returns, or throws.
abbrev pub Outcome : Type 0 → Type 0
Outcome A = Result Error A
