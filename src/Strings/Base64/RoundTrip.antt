-- ===== src/Strings/Base64/RoundTrip.antt =====
-- Every sequence of bytes is read back from its Base64 text.
use foo_bar.Base.{
  ℕ, ◌+◌, ◌*◌, ◌/◌, ◌%◌, ◌^◌, ◌<◌, ◌≡◌, refl, sym, ap, ◌∙◌, Bool, true, false, ◌&&◌, not, [], ◌∷◌,
  ◌++◌, none, some, Bytes, IsByte, All, ◌==◌, bit_and, bit_or, length, arith,
}
use foo_bar.Base.Bits.{bit_or-shifted, bit_and-mask}
use foo_bar.Strings.Chars.{is_whitespace, holds_below, holds_below_lem}
use foo_bar.Strings.Base64.{
  base64_char, base64_index, padding, triple, sextet, to_base64, clean, index_or_padding,
  join_sextets, pushed_bytes, groups, from_base64,
}

-- What the decoder relies on, checked for each of the 64 values.
reads_back : ℕ → Bool
reads_back v =
    (elim (base64_index (base64_char v)) [ none ↦ false | some w ↦ w == v ])
    && not (base64_char v == padding)
    && not (is_whitespace (base64_char v))

reads_back_table : holds_below reads_back 64 ≡ true
unfolding holds_below reads_back base64_index base64_char is_whitespace
reads_back_table = refl

module _ (v : ℕ) (h : v < 64) where
  base64_index-base64_char : base64_index (base64_char v) ≡ some v
  unfolding reads_back
  base64_index-base64_char =
      let table = holds_below_lem reads_back 64 reads_back_table h in ground arith

  base64_char-ne-padding : (base64_char v == padding) ≡ false
  unfolding reads_back
  base64_char-ne-padding =
      let table = holds_below_lem reads_back 64 reads_back_table h in ground arith

  base64_char-not_whitespace : is_whitespace (base64_char v) ≡ false
  unfolding reads_back
  base64_char-not_whitespace =
      let table = holds_below_lem reads_back 64 reads_back_table h in ground arith

  index_or_padding-base64_char : index_or_padding (base64_char v) ≡ some v
  unfolding index_or_padding
  index_or_padding-base64_char = rw base64_char-ne-padding base64_index-base64_char

-- `|` of the shifted parts is their sum.
two_parts : (a b : ℕ) → b < 256 → bit_or (a * 2 ^ 16) (b * 2 ^ 8) ≡ a * 65536 + b * 256
two_parts a b h = bit_or-shifted 16 a (b * 2 ^ 8) (omega arith)

triple_sum : (a b c : ℕ) → b < 256 → c < 256 → triple a b c ≡ a * 65536 + b * 256 + c
unfolding triple
triple_sum a b c h k =
    let shifted : a * 65536 + b * 256 ≡ (a * 256 + b) * 2 ^ 8 = omega arith in
    rw (two_parts a b h, shifted) (bit_or-shifted 8 (a * 256 + b) c k ∙ omega arith)

sextets_sum :
    (v0 v1 v2 v3 : ℕ)
    → v1 < 64
    → v2 < 64
    → v3 < 64
    → bit_or (bit_or (bit_or (v0 * 2 ^ 18) (v1 * 2 ^ 12)) (v2 * 2 ^ 6)) v3
      ≡ v0 * 262144 + v1 * 4096 + v2 * 64 + v3
sextets_sum v0 v1 v2 v3 h1 h2 h3 =
    let first : bit_or (v0 * 2 ^ 18) (v1 * 2 ^ 12) ≡ (v0 * 64 + v1) * 2 ^ 12 =
      bit_or-shifted 18 v0 (v1 * 2 ^ 12) (omega arith) ∙ omega arith in
    let second : bit_or ((v0 * 64 + v1) * 2 ^ 12) (v2 * 2 ^ 6)
        ≡ ((v0 * 64 + v1) * 64 + v2) * 2 ^ 6 =
      bit_or-shifted 12 (v0 * 64 + v1) (v2 * 2 ^ 6) (omega arith) ∙ omega arith in
    rw (first, second) (bit_or-shifted 6 ((v0 * 64 + v1) * 64 + v2) v3 h3 ∙ omega arith)

-- The values that the encoder looks up.
part : ℕ → ℕ → ℕ
part t shift = t / 2 ^ shift % 64

sextet-part : (t shift : ℕ) → sextet t shift ≡ base64_char (part t shift)
unfolding sextet part
sextet-part t shift = ap base64_char (bit_and-mask 6 (t / 2 ^ shift))

part-lt : (t shift : ℕ) → part t shift < 64
unfolding part
part-lt t shift = omega arith

-- Four characters stand for the 24 bits that they are made of.
join-parts :
    (t : ℕ)
    → t < 2 ^ 24
    → join_sextets (some (part t 18)) (some (part t 12)) (some (part t 6)) (some (part t 0))
      ≡ some t
unfolding join_sextets
join-parts t h =
    rw
      (sextets_sum (part t 18) (part t 12) (part t 6) (part t 0) (part-lt t 12) (part-lt t 6)
        (part-lt t 0))
      (ap some (unfold part in omega arith))

module _ (t shift : ℕ) where
  base64_index-sextet : base64_index (sextet t shift) ≡ some (part t shift)
  base64_index-sextet =
      rw (sextet-part t shift) (base64_index-base64_char (part t shift) (part-lt t shift))

  index_or_padding-sextet : index_or_padding (sextet t shift) ≡ some (part t shift)
  index_or_padding-sextet =
      rw (sextet-part t shift) (index_or_padding-base64_char (part t shift) (part-lt t shift))

  sextet-ne-padding : (sextet t shift == padding) ≡ false
  sextet-ne-padding =
      rw (sextet-part t shift) (base64_char-ne-padding (part t shift) (part-lt t shift))

  sextet-not_whitespace : is_whitespace (sextet t shift) ≡ false
  sextet-not_whitespace =
      rw (sextet-part t shift) (base64_char-not_whitespace (part t shift) (part-lt t shift))

-- One round of the decoder.
groups-four :
    (t c d : ℕ) (s rest : Bytes)
    → t < 2 ^ 24
    → index_or_padding c ≡ some (part t 6)
    → index_or_padding d ≡ some (part t 0)
    → groups s ≡ some rest
    → groups (sextet t 18 ∷ sextet t 12 ∷ c ∷ d ∷ s) ≡ some (pushed_bytes t c d ++ rest)
unfolding groups
groups-four t c d s rest h third fourth round =
    let first = base64_index-sextet t 18 in
    let second = base64_index-sextet t 12 in let joined = join-parts t h in ground arith

-- The bytes of a number of 24 bits.
byte-mask : (x : ℕ) → bit_and x 0xff ≡ x % 256
byte-mask = bit_and-mask 8

pushed_bytes-three :
    (t : ℕ)
    → pushed_bytes t (sextet t 6) (sextet t 0) ≡ t / 2 ^ 16 % 256 ∷ t / 2 ^ 8 % 256 ∷ t % 256 ∷ []
unfolding pushed_bytes
pushed_bytes-three t =
    rw
      (
        sextet-ne-padding t 6,
        sextet-ne-padding t 0,
        byte-mask (t / 2 ^ 16),
        byte-mask (t / 2 ^ 8),
        byte-mask t,
      )
      refl

pushed_bytes-two :
    (t : ℕ) → pushed_bytes t (sextet t 6) padding ≡ t / 2 ^ 16 % 256 ∷ t / 2 ^ 8 % 256 ∷ []
unfolding pushed_bytes
pushed_bytes-two t = rw (sextet-ne-padding t 6, byte-mask (t / 2 ^ 16), byte-mask (t / 2 ^ 8)) refl

pushed_bytes-one : (t : ℕ) → pushed_bytes t padding padding ≡ t / 2 ^ 16 % 256 ∷ []
unfolding pushed_bytes
pushed_bytes-one t = rw (byte-mask (t / 2 ^ 16)) refl

padding-part : (t shift : ℕ) → part t shift ≡ 0 → index_or_padding padding ≡ some (part t shift)
unfolding index_or_padding
padding-part t shift h = ap some (sym h)

groups-to_base64 : (s : Bytes) → All IsByte s → groups (to_base64 s) ≡ some s
unfolding to_base64
groups-to_base64 [] bytes = unfold groups in refl
groups-to_base64 (a ∷ []) bytes =
    let t = a * 2 ^ 16 in
    let whole : t / 2 ^ 16 % 256 ≡ a = omega arith in
    groups-four t padding padding [] [] (omega arith)
      (padding-part t 6 (unfold part in omega arith))
      (padding-part t 0 (unfold part in omega arith)) (unfold groups in refl)
    ∙ rw (pushed_bytes-one t) (ap (λ x. some (x ∷ [])) whole)
groups-to_base64 (a ∷ b ∷ []) bytes =
    let t = bit_or (a * 2 ^ 16) (b * 2 ^ 8) in
    let sum : t ≡ a * 65536 + b * 256 = two_parts a b (omega arith) in
    let high : t / 2 ^ 16 % 256 ≡ a = omega arith in
    let low : t / 2 ^ 8 % 256 ≡ b = omega arith in
    groups-four t (sextet t 6) padding [] [] (omega arith) (index_or_padding-sextet t 6)
      (padding-part t 0 (unfold part in omega arith)) (unfold groups in refl)
    ∙ rw (pushed_bytes-two t) (λ i. some (high i ∷ low i ∷ []))
groups-to_base64 (a ∷ b ∷ c ∷ s) bytes =
    let t = triple a b c in
    let sum = triple_sum a b c (omega arith) (omega arith) in
    let high : t / 2 ^ 16 % 256 ≡ a = omega arith in
    let middle : t / 2 ^ 8 % 256 ≡ b = omega arith in
    let low : t % 256 ≡ c = omega arith in
    groups-four t (sextet t 6) (sextet t 0) (to_base64 s) s (omega arith)
      (index_or_padding-sextet t 6) (index_or_padding-sextet t 0) (groups-to_base64 s bytes.1.1.1)
    ∙ rw (pushed_bytes-three t) (λ i. some (high i ∷ middle i ∷ low i ∷ s))

-- The encoder writes no white space, in groups of four characters.
clean-sextet :
    (t shift : ℕ) (s : Bytes) → clean s ≡ s → clean (sextet t shift ∷ s) ≡ sextet t shift ∷ s
unfolding clean
clean-sextet t shift s rest = rw (sextet-not_whitespace t shift) (ap (λ r. sextet t shift ∷ r) rest)

clean-to_base64 : (s : Bytes) → clean (to_base64 s) ≡ to_base64 s
unfolding to_base64
clean-to_base64 [] = unfold clean in refl
clean-to_base64 (a ∷ []) =
    let t = a * 2 ^ 16 in
    clean-sextet t 18 _
      (clean-sextet t 12 (padding ∷ padding ∷ []) (unfold clean is_whitespace in refl))
clean-to_base64 (a ∷ b ∷ []) =
    let t = bit_or (a * 2 ^ 16) (b * 2 ^ 8) in
    clean-sextet t 18 _
      (clean-sextet t 12 _ (clean-sextet t 6 (padding ∷ []) (unfold clean is_whitespace in refl)))
clean-to_base64 (a ∷ b ∷ c ∷ s) =
    let t = triple a b c in
    clean-sextet t 18 _ (
      clean-sextet t 12 _ (clean-sextet t 6 _ (clean-sextet t 0 (to_base64 s) (clean-to_base64 s))))

length-to_base64 : (s : Bytes) → length (to_base64 s) % 4 ≡ 0
unfolding to_base64
length-to_base64 [] = refl
length-to_base64 (a ∷ []) = refl
length-to_base64 (a ∷ b ∷ []) = refl
length-to_base64 (a ∷ b ∷ c ∷ s) = omega (arith, length-to_base64 s)

-- Clean text in groups of four is decoded as a whole.
from_base64-groups :
    (u s : Bytes) → clean u ≡ u → length u % 4 ≡ 0 → groups u ≡ some s → from_base64 u ≡ some s
unfolding from_base64
from_base64-groups [] s same four decoded =
    let nothing : groups [] ≡ some [] = unfold groups in refl in sym nothing ∙ decoded
from_base64-groups (c ∷ u) s same four decoded = rw same (ground arith)

-- Decoding the Base64 text of any bytes gives the bytes back.
pub from_base64-to_base64 : (s : Bytes) → All IsByte s → from_base64 (to_base64 s) ≡ some s
from_base64-to_base64 s bytes =
    from_base64-groups (to_base64 s) s (clean-to_base64 s) (length-to_base64 s)
      (groups-to_base64 s bytes)
