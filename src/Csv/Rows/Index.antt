-- ===== src/Csv/Rows/Index.antt =====
-- `build_header_index` maps each header to its position.
use native.Mathlib.Nat.{add-zero}
use foo_bar.Base.{
  ℕ, zero, suc, ◌+◌, List, [], ◌∷◌, Bytes, bytes_eq, bytes_eq_sound, bytes_eq_self, ok, ◌≡◌, ◌⊎◌,
  ap, arith, get_elem?, none, some, inl, inr, Bool-cases,
}
use foo_bar.Csv.Types.{Row}
use foo_bar.Csv.Rows.{find_header, index_headers}

index_headers-cons :
    (x : Bytes) (hs : Row) (i : ℕ) (m index : List (Bytes × ℕ))
    → index_headers (x ∷ hs) i m ≡ ok index
    → (find_header x m ≡ none) × (index_headers hs (i + 1) ((x, i) ∷ m) ≡ ok index)
unfolding index_headers
index_headers-cons x hs i m index h = ground arith

-- What is in the map stays there.
index_headers-old :
    (hs : Row) (i : ℕ) (m index : List (Bytes × ℕ)) (k : Bytes) (j : ℕ)
    → index_headers hs i m ≡ ok index
    → find_header k m ≡ some j
    → find_header k index ≡ some j
unfolding index_headers find_header
index_headers-old [] i m index k j h found = ground arith
index_headers-old (x ∷ hs) i m index k j h found =
    let (new, rest) = index_headers-cons x hs i m index h in
    elim (Bool-cases (bytes_eq x k)) [
      | inl e ↦ let same = bytes_eq_sound x k e in absurd (ground arith)
      | inr e ↦ index_headers-old hs (i + 1) ((x, i) ∷ m) index k j rest (rw e found)
    ]

pub index_headers-find :
    (hs : Row) (i n : ℕ) (m index : List (Bytes × ℕ)) (k : Bytes)
    → index_headers hs i m ≡ ok index
    → get_elem? hs n ≡ some k
    → find_header k index ≡ some (i + n)
unfolding find_header
index_headers-find [] i n m index k h at_n = cc
index_headers-find (x ∷ hs) i zero m index k h at_n =
    let (new, rest) = index_headers-cons x hs i m index h in
    rw (add-zero)
      (index_headers-old hs (i + 1) ((x, i) ∷ m) index k i rest (ground (arith, bytes_eq_self k)))
index_headers-find (x ∷ hs) i (suc n) m index k h at_n =
    let (new, rest) = index_headers-cons x hs i m index h in
    ground (arith, index_headers-find hs (i + 1) n ((x, i) ∷ m) index k rest at_n)

-- Conversely, an entry of the map is an old one, or a header at its position.
pub index_headers-only :
    (hs : Row) (i : ℕ) (m index : List (Bytes × ℕ)) (k : Bytes) (j : ℕ)
    → index_headers hs i m ≡ ok index
    → find_header k index ≡ some j
    → (find_header k m ≡ some j) ⊎ ((n : ℕ) × (j ≡ i + n) × (get_elem? hs n ≡ some k))
unfolding index_headers find_header
index_headers-only [] i m index k j h found = inl (ground arith)
index_headers-only (x ∷ hs) i m index k j h found =
    let (new, rest) = index_headers-cons x hs i m index h in
    elim (index_headers-only hs (i + 1) ((x, i) ∷ m) index k j rest found) [
      | inl old ↦ elim (Bool-cases (bytes_eq x k)) [
        | inl e ↦ inr (0, ground arith, ap some (bytes_eq_sound x k e))
        | inr e ↦ inl (rw e at old)
      ]
      | inr (n, e, at_n) ↦ inr (suc n, omega arith, at_n)
    ]
