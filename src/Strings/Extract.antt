-- ===== src/Strings/Extract.antt =====
-- fb_strings/src/string_utils.cpp: parts of a text, and a text made longer. Positions are numbers of
-- bytes; those of `slice` are `int`s.
pub mod Positions
pub mod Lengths
use foo_bar.Base.{
  ℕ, zero, suc, ◌+◌, ◌-◌, ◌*◌, ◌/◌, ◌%◌, ◌^◌, ◌≤◌, ◌<◌, ◌≡◌, refl, sym, ap, ◌∙◌, Bool, true, false,
  ◌||◌, [], ◌∷◌, ◌++◌, Bytes, ◌==◌, ltb, leb, if◌then◌else◌, length, take, drop, replicate, min,
  max, arith, append-nil, length-append, length-take, length-drop, length-replicate, take-drop,
  Bool-cases, inl, inr,
}
use foo_bar.Strings.Numbers.{ℤ, pos, negsuc}
use foo_bar.Strings.Replace.{is_nil}

unfoldable pub left : Bytes → ℕ → Bytes
left str n = take (min n (length str)) str

unfoldable pub right : Bytes → ℕ → Bytes
right str n = if leb (length str) n then str else drop (length str - n) str

unfoldable pub mid : Bytes → ℕ → ℕ → Bytes
mid str start count = if leb (length str) start then [] else take count (drop start str)

-- A position from the start, or, negative, from the end.
unfoldable pub resolve : ℕ → ℤ → ℕ
resolve len (pos n) = n
resolve len (negsuc n) = len - suc n

-- The greatest `int` as an end is the end of the text.
unfoldable pub resolve_end : ℕ → ℤ → ℕ
resolve_end len (pos n) = if n == 2 ^ 31 - 1 then len else n
resolve_end len (negsuc n) = len - suc n

-- The size as an `int`; where that is negative, both positions are clamped to it.
unfoldable pub slice_in : ℕ → Bytes → ℤ → ℤ → Bytes
slice_in len str start end =
    let first = min (resolve len start) len in
    let last = min (resolve_end len end) len in
    if leb (2 ^ 31) len
    then []
    else if leb last first
    then []
    else take (last - first) (drop first str)

unfoldable pub slice : Bytes → ℤ → ℤ → Bytes
slice str start end = slice_in (length str % 2 ^ 32) str start end

unfoldable pub truncate : Bytes → ℕ → Bytes → Bytes
truncate str max_length ellipsis =
    if leb (length str) max_length
    then str
    else if leb max_length (length ellipsis)
    then take max_length ellipsis
    else take (max_length - length ellipsis) str ++ ellipsis

unfoldable pub pad_left : Bytes → ℕ → ℕ → Bytes
pad_left str width fill =
    if leb width (length str) then str else replicate (width - length str) fill ++ str

unfoldable pub pad_right : Bytes → ℕ → ℕ → Bytes
pad_right str width fill =
    if leb width (length str) then str else str ++ replicate (width - length str) fill

unfoldable pub center : Bytes → ℕ → ℕ → Bytes
center str width fill =
    let padding = width - length str in
    let left_pad = padding / 2 in
    let right_pad = padding - left_pad in
    if leb width (length str)
    then str
    else replicate left_pad fill ++ (str ++ replicate right_pad fill)

-- The loop of `repeat`.
unfoldable pub append_times : ℕ → Bytes → Bytes
append_times zero str = []
append_times (suc n) str = str ++ append_times n str

unfoldable pub repeat : Bytes → ℕ → Bytes
repeat str n = if n == 0 || is_nil str then [] else append_times n str
