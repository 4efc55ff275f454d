-- ===== src/Csv/Scan.antt =====
-- fb_core/src/csv_parser.cpp, `csv_parser::parse`: the state machine over the bytes of the stream.
pub mod Steps
pub mod Keeps
use foo_bar.Base.{ℕ, ◌+◌, Bool, false, [], ◌∷◌, ◌++◌, Bytes, ok, err, ◌==◌, if◌then◌else◌, ◌>>=◌}
use foo_bar.Csv.Types.{
  Config, Row, Parser, ParseState, field_start, unquoted_field, quoted_field, after_quote, Outcome,
  quote_in_unquoted_field, invalid_after_closing_quote, unclosed_quoted_field,
}
use foo_bar.Csv.Fields.{quote_mark, carriage_return, line_feed, is_space, apply_trimming}
use foo_bar.Csv.Rows.{finalize_row, is_empty}

-- The local variables of `parse`, and `*this`.
pub record Scanner : Type 0 where
  pub parser : Parser
  pub state : ParseState
  pub line_number : ℕ
  pub field_start_line : ℕ
  pub current_row : Row
  pub current_field : Bytes

-- What one round does with the stream beside reading `ch`: nothing more, or also
-- `if (stream.peek() == '\n') stream.get();`.
pub data Peek : Type 0 where
  stay skip_line_feed : Peek

abbrev pub Round : Type 0
Round = Outcome (Peek × Scanner)

-- `current_row.push_back(field); current_field.clear();`
abbrev pub push_field : Bytes → Scanner → Scanner
push_field field s = record s { current_row = s.current_row ++ field ∷ []; current_field = [] }

-- The field is pushed, the row finalized, and the next field starts on the next line.
unfoldable pub end_row : Bytes → Peek → Scanner → Round
end_row field peek s = finalize_row s.parser (s.current_row ++ field ∷ []) s.line_number >>= λ p.
    ok (
      peek,
      record s {
        parser = p;
        state = field_start;
        line_number = s.line_number + 1;
        current_row = [];
        current_field = [];
      },
    )

-- `case parse_state::field_start`
unfoldable pub at_field_start : ℕ → Scanner → Round
at_field_start ch s =
    let cfg = s.parser.config in
    let field = apply_trimming cfg s.current_field in
    if ch == quote_mark
    then ok (
      stay,
      record s { state = quoted_field; field_start_line = s.line_number; current_field = [] },
    )
    else if ch == cfg.delimiter
    then ok (stay, push_field field s)
    else if ch == carriage_return
    then end_row field skip_line_feed s
    else if ch == line_feed
    then end_row field stay s
    else ok (stay, record s { current_field = s.current_field ++ ch ∷ []; state = unquoted_field })

-- `case parse_state::unquoted_field`
unfoldable pub at_unquoted_field : ℕ → Scanner → Round
at_unquoted_field ch s =
    let cfg = s.parser.config in
    let field = apply_trimming cfg s.current_field in
    if ch == quote_mark
    then if cfg.strict_mode
      then err (quote_in_unquoted_field s.line_number)
      else ok (stay, record s { current_field = s.current_field ++ ch ∷ [] })
    else if ch == cfg.delimiter
    then ok (stay, push_field field (record s { state = field_start }))
    else if ch == carriage_return
    then end_row field skip_line_feed s
    else if ch == line_feed
    then end_row field stay s
    else ok (stay, record s { current_field = s.current_field ++ ch ∷ [] })

-- `case parse_state::quoted_field`
unfoldable pub at_quoted_field : ℕ → Scanner → Round
at_quoted_field ch s =
    if ch == quote_mark
    then ok (stay, record s { state = after_quote })
    else ok (
      stay,
      record s {
        line_number = if ch == line_feed then s.line_number + 1 else s.line_number;
        current_field = s.current_field ++ ch ∷ [];
      },
    )

-- `case parse_state::after_quote`; a quoted field is not trimmed.
unfoldable pub at_after_quote : ℕ → Scanner → Round
at_after_quote ch s =
    let cfg = s.parser.config in
    let field = s.current_field in
    if ch == quote_mark
    then ok (
      stay,
      record s { current_field = s.current_field ++ quote_mark ∷ []; state = quoted_field },
    )
    else if ch == cfg.delimiter
    then ok (stay, push_field field (record s { state = field_start }))
    else if ch == carriage_return
    then end_row field skip_line_feed s
    else if ch == line_feed
    then end_row field stay s
    else if cfg.strict_mode
    then err (invalid_after_closing_quote s.line_number)
    else if is_space ch
    then ok (stay, s)
    else ok (stay, record s { current_field = s.current_field ++ ch ∷ []; state = unquoted_field })

abbrev on_state : ParseState → ℕ → Scanner → Round
on_state field_start = at_field_start
on_state unquoted_field = at_unquoted_field
on_state quoted_field = at_quoted_field
on_state after_quote = at_after_quote

-- One round of the loop: `switch (state)`.
unfoldable pub step : ℕ → Scanner → Round
step ch s = on_state s.state ch s

-- Does the round take the next byte, `d`, from the stream too?
abbrev pub takes : Peek → ℕ → Bool
takes stay d = false
takes skip_line_feed d = d == line_feed

-- `while (stream.get(ch))`
unfoldable pub scan : Bytes → Scanner → Outcome Scanner
unfolding step
scan [] s = ok s
scan (c ∷ []) s = step c s >>= λ (peek, s'). ok s'
scan (c ∷ d ∷ rest) s = step c s >>= λ (peek, s').
    let skipped = scan rest s' in
    let next = scan (d ∷ rest) s' in if takes peek d then skipped else next

-- The end of the stream: the last field and row are finalized, if there is one.
finish : ParseState → Scanner → Outcome Parser
finish quoted_field s = err (unclosed_quoted_field s.field_start_line)
finish after_quote s = finalize_row s.parser (s.current_row ++ s.current_field ∷ []) s.line_number
finish unquoted_field s =
    let field = apply_trimming s.parser.config s.current_field in
    finalize_row s.parser (s.current_row ++ field ∷ []) s.line_number
finish field_start s =
    let field = apply_trimming s.parser.config s.current_field in
    if is_empty s.current_row
    then ok s.parser
    else finalize_row s.parser (s.current_row ++ field ∷ []) s.line_number

unfoldable pub at_end_of_file : Scanner → Outcome Parser
unfolding finish
at_end_of_file s = finish s.state s
