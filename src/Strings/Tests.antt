-- ===== src/Strings/Tests.antt =====
-- Runs of the functions on texts, and their theorems at concrete bytes.
mod Texts
use foo_bar.Base.{◌≡◌, refl, [], ◌∷◌, ◌≤◌, length, some, Bytes, IsByte, All, codes, true, arith}
use foo_bar.Strings.Chars.{is_whitespace}
use foo_bar.Strings.Url.{url_encode, url_decode, url_decode-url_encode}
use foo_bar.Strings.Split.{split, split_n, join, join-split_n, split-join}
use foo_bar.Strings.Trim.{trim, TrimsTo, trim-TrimsTo}
use foo_bar.Strings.Levenshtein.{levenshtein_distance}
use foo_bar.Strings.Levenshtein.Least.{
  Edits, done, keep, delete, levenshtein_distance-Edits, levenshtein_distance_le,
}
use foo_bar.Strings.Html.{html_escape, html_unescape, html_unescape-html_escape}
use foo_bar.Strings.Json.{json_escape, json_unescape, json_unescape-json_escape}
use foo_bar.Strings.Base64.{
  to_base64, from_base64, base64_char, base64_index, sextet, triple, clean, groups,
  index_or_padding, join_sextets, pushed_bytes,
}
use foo_bar.Strings.Base64.RoundTrip.{from_base64-to_base64}

abbrev sample : Bytes
sample = codes "a b/<&>\"+="

sample-bytes : All IsByte sample
sample-bytes = omega arith

json_unescape-json_escape_example : json_unescape (json_escape sample) ≡ some sample
json_unescape-json_escape_example = json_unescape-json_escape sample

from_base64-to_base64_example : from_base64 (to_base64 sample) ≡ some sample
from_base64-to_base64_example = from_base64-to_base64 sample sample-bytes

-- "Man" from RFC 4648.
to_base64_man : to_base64 (codes "Man") ≡ codes "TWFu"
unfolding to_base64 sextet triple base64_char
to_base64_man = refl

-- Padding in the middle of a text is accepted.
from_base64_inner : from_base64 (codes "TQ==TQ==") ≡ some (codes "MM")
unfolding from_base64 clean groups base64_index index_or_padding join_sextets pushed_bytes
    is_whitespace
from_base64_inner = refl

abbrev listed : Bytes
listed = codes ",a,,b"

levenshtein_distance-Edits_example :
    Edits
      (levenshtein_distance (codes "kitten") (codes "sitting"))
      (codes "kitten")
      (codes "sitting")
levenshtein_distance-Edits_example = levenshtein_distance-Edits (codes "kitten") (codes "sitting")

levenshtein_distance_le_example : levenshtein_distance (codes "ab") (codes "b") ≤ 1
levenshtein_distance_le_example =
    levenshtein_distance_le 1 (codes "ab") (codes "b") (delete b'a' (keep b'b' done))
