-- ===== src/Csv/Fields.antt =====
-- fb_core/src/csv_parser.cpp, the methods that work on one field.
pub mod Lines
use foo_bar.Base.{
  ℕ, zero, suc, Bool, true, false, ◌&&◌, ◌||◌, [], ◌∷◌, ◌++◌, Bytes, ok, err, leb, ◌==◌, bit_and,
  if◌then◌else◌, ◌≡◌,
}
use foo_bar.Csv.Types.{Config, Outcome, invalid_utf8_sequence, invalid_utf8_continuation}

abbrev pub quote_mark : ℕ
quote_mark = 0x22

abbrev pub comma : ℕ
comma = 0x2c

abbrev pub carriage_return : ℕ
carriage_return = 0x0d

abbrev pub line_feed : ℕ
line_feed = 0x0a

-- `std::isspace` in the "C" locale.
unfoldable pub is_space : ℕ → Bool
is_space c = c == 0x20 || (leb 0x09 c && leb c 0x0d)

-- The first loop of `apply_trimming`: `start` moves past the white space in front.
unfoldable pub skip_space : Bytes → Bytes
skip_space [] = []
skip_space (c ∷ s) = let rest = skip_space s in if is_space c then rest else c ∷ s

-- A byte in front of what the loop has kept: the loop reaches it if nothing is kept behind it.
unfoldable pub keep_in_front : ℕ → Bytes → Bytes
keep_in_front c [] = if is_space c then [] else c ∷ []
keep_in_front c (d ∷ t) = c ∷ d ∷ t

-- The second loop: `end_it` moves back over the white space behind, and stops at `start`.
unfoldable pub drop_space_behind : Bytes → Bytes
unfolding keep_in_front
drop_space_behind [] = []
drop_space_behind (c ∷ s) = keep_in_front c (drop_space_behind s)

unfoldable pub apply_trimming : Config → Bytes → Bytes
apply_trimming cfg field =
    if cfg.trim_whitespace then drop_space_behind (skip_space field) else field

-- The loop of `validate_utf8_string`; `expected` is how many continuation bytes are still due.
unfoldable pub validate_from : ℕ → Bytes → ℕ → Outcome (Unit {0})
validate_from zero [] line = ok tt
validate_from (suc expected) [] line = err (invalid_utf8_continuation line)
validate_from zero (c ∷ s) line =
    if bit_and c 0x80 == 0
    then validate_from 0 s line
    else if bit_and c 0xe0 == 0xc0
    then validate_from 1 s line
    else if bit_and c 0xf0 == 0xe0
    then validate_from 2 s line
    else if bit_and c 0xf8 == 0xf0
    then validate_from 3 s line
    else err (invalid_utf8_sequence line)
validate_from (suc expected) (c ∷ s) line =
    if bit_and c 0xc0 == 0x80
    then validate_from expected s line
    else err (invalid_utf8_continuation line)

unfoldable pub validate_utf8_string : Bytes → ℕ → Outcome (Unit {0})
unfolding validate_from
validate_utf8_string s line = validate_from 0 s line

pub apply_trimming_off :
    (cfg : Config) (field : Bytes) → cfg.trim_whitespace ≡ false → apply_trimming cfg field ≡ field
unfolding apply_trimming
apply_trimming_off cfg field h = rw h

unfoldable pub needs_quoting : Bytes → Bool
needs_quoting [] = false
needs_quoting (c ∷ s) =
    if c == comma || c == quote_mark || c == carriage_return || c == line_feed
    then true
    else needs_quoting s

-- The loop of `quote_field`.
unfoldable pub double_quotes : Bytes → Bytes
double_quotes [] = []
double_quotes (c ∷ s) =
    let rest = double_quotes s in
    if c == quote_mark then quote_mark ∷ quote_mark ∷ rest else c ∷ rest

unfoldable pub quote_field : Bytes → Bytes
unfolding double_quotes
quote_field field = quote_mark ∷ double_quotes field ++ quote_mark ∷ []
