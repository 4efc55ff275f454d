-- ===== src/Strings/Hex.antt =====
-- fb_strings/src/string_utils.cpp: `to_hex` and `from_hex`.
use foo_bar.Base.{
  ℕ, ◌*◌, ◌/◌, ◌%◌, ◌≡◌, refl, ap, ◌∙◌, Bool, true, false, ◌&&◌, ◌||◌, not, [], ◌∷◌, Option, none,
  some, Bytes, IsByte, All, ◌==◌, if◌then◌else◌, bit_and, bit_or, length, arith, ==_iff,
}
use foo_bar.Strings.Chars.{hex_value, hex_char, holds_below, holds_below_lem}

unfoldable pub to_hex : Bytes → Bool → Bytes
to_hex [] uppercase = []
to_hex (c ∷ s) uppercase =
    hex_char (c / 16) uppercase ∷ hex_char (bit_and c 0x0f) uppercase ∷ to_hex s uppercase

-- One round of the loop of `from_hex`: the byte of two digits in front of the rest; nothing if a
-- digit is none.
unfoldable pub cons_byte : Option ℕ → Option ℕ → Option Bytes → Option Bytes
cons_byte (some high) (some low) (some rest) = some (bit_or (high * 16) low ∷ rest)
cons_byte (some high) (some low) none = none
cons_byte (some high) none rest = none
cons_byte none low rest = none

-- The loop; with an even number of digits the clause for a single digit is not reached.
unfoldable pub hex_bytes : Bytes → Option Bytes
unfolding cons_byte
hex_bytes [] = some []
hex_bytes (a ∷ []) = none
hex_bytes (a ∷ b ∷ s) = cons_byte (hex_value a) (hex_value b) (hex_bytes s)

-- The prefix `0x` or `0X` is skipped.
unfoldable pub skip_prefix : Bytes → Bytes
skip_prefix (a ∷ b ∷ s) = if a == b'0' && (b == b'x' || b == b'X') then s else a ∷ b ∷ s
skip_prefix s = s

unfoldable pub from_hex : Bytes → Option Bytes
from_hex hex =
    let input = skip_prefix hex in if not (length input % 2 == 0) then none else hex_bytes input

-- What `from_hex` relies on, checked for each byte and either case of the digits.
reads_back : Bool → ℕ → Bool
reads_back u c =
    (elim (hex_value (hex_char (c / 16) u)) [
      | none ↦ false
      | some high ↦ elim (hex_value (hex_char (bit_and c 0x0f) u)) [
        | none ↦ false
        | some low ↦ bit_or (high * 16) low == c
      ]
    ])
    && not (hex_char (bit_and c 0x0f) u == b'x')
    && not (hex_char (bit_and c 0x0f) u == b'X')

reads_back_table : (u : Bool) → holds_below (reads_back u) 256 ≡ true
unfolding reads_back holds_below hex_value hex_char
reads_back_table true = refl
reads_back_table false = refl

-- The two digits of a byte stand for it.
pub cons_byte-digits :
    (u : Bool) (c : ℕ) (rest : Bytes)
    → IsByte c
    → cons_byte
        (hex_value (hex_char (c / 16) u))
        (hex_value (hex_char (bit_and c 0x0f) u))
        (some rest)
      ≡ some (c ∷ rest)
unfolding reads_back cons_byte
cons_byte-digits u c rest h =
    let table = holds_below_lem (reads_back u) 256 (reads_back_table u) h in ground arith

digit-ne-prefix :
    (u : Bool) (c : ℕ)
    → IsByte c
    → ((hex_char (bit_and c 0x0f) u == b'x') ≡ false)
      × ((hex_char (bit_and c 0x0f) u == b'X') ≡ false)
unfolding reads_back
digit-ne-prefix u c h =
    let table = holds_below_lem (reads_back u) 256 (reads_back_table u) h in
    (ground arith, ground arith)

hex_bytes-to_hex : (u : Bool) (s : Bytes) → All IsByte s → hex_bytes (to_hex s u) ≡ some s
unfolding hex_bytes to_hex
hex_bytes-to_hex u [] h = refl
hex_bytes-to_hex u (c ∷ s) (hc, hs) =
    ap (cons_byte _ _) (hex_bytes-to_hex u s hs) ∙ cons_byte-digits u c s hc

skip_prefix-to_hex : (u : Bool) (s : Bytes) → All IsByte s → skip_prefix (to_hex s u) ≡ to_hex s u
unfolding skip_prefix to_hex
skip_prefix-to_hex u [] h = refl
skip_prefix-to_hex u (c ∷ s) (hc, hs) = let (x, y) = digit-ne-prefix u c hc in ground arith

length-to_hex : (u : Bool) (s : Bytes) → length (to_hex s u) % 2 ≡ 0
unfolding to_hex
length-to_hex u [] = refl
length-to_hex u (c ∷ s) = omega (arith, length-to_hex u s)

-- Every sequence of bytes is read back from its hexadecimal text, in either case of the digits: the
-- text is never mistaken for one with a prefix.
pub from_hex-to_hex :
    (s : Bytes) (uppercase : Bool) → All IsByte s → from_hex (to_hex s uppercase) ≡ some s
unfolding from_hex
from_hex-to_hex s u h =
    let even : (length (to_hex s u) % 2 == 0) ≡ true = (==_iff _ _).1 (length-to_hex u s) in
    rw (skip_prefix-to_hex u s h, even) (hex_bytes-to_hex u s h)
