-- ===== src/Csv/Parser/RoundTrip.antt =====
-- Reading what the writer puts out.
use foo_bar.Base.{
  Result_ok, ℕ, Bool, false, List, [], ◌∷◌, ◌++◌, append_assoc, Bytes, ok, if◌then◌else◌,
  >>=-returns, ◌≡◌, ◌≢◌, ◌∙◌, ap, refl, subst, arith, Bool-cases, inl, inr, All,
}
use foo_bar.Csv.Types.{Config, Row, Parser, fresh, field_start}
use foo_bar.Csv.Fields.{comma, carriage_return}
use foo_bar.Csv.Rows.{finalize_row, build_header_index, index_headers}
use foo_bar.Csv.Rows.Replay.{
  written, Replays, Replays-fresh, finalize_row-Replays, finalize_all, finalize_row-config,
  finalize_row-line, finalize_all-cons, finalize_all-nil,
}
use foo_bar.Csv.Scan.{Scanner, scan, at_end_of_file}
use foo_bar.Csv.Scan.Steps.{
  scan-stay, scan_crlf, at, Ended, Ended-comma, Ended-crlf, scan-write_field,
}
use foo_bar.Csv.Scan.Keeps.{scan-keeps}
use foo_bar.Csv.Parser.{
  parse, start, skip_bom, write_field, write_fields, write_row, write_rows, to_rfc_4180,
}

module _ (p : Parser) (commas : p.config.delimiter ≡ comma)
    (untrimmed : p.config.trim_whitespace ≡ false) where
  -- The fields behind field `f`, and the end of the line.
  scan-write_fields :
      (r : Row) (f : Bytes) (row : Row) (rest : Bytes) (p' : Parser) (s : Scanner)
      → Ended p commas untrimmed row f s
      → ((k : ℕ) → finalize_row p (row ++ f ∷ r) k ≡ ok p')
      → (n : ℕ) × (m : ℕ) × (scan (write_fields r ++ rest) s
          ≡ scan rest (at p' field_start n m [] []))
  unfolding write_fields write_field
  scan-write_fields [] f row rest p' s e fin =
      let (n, m, one) = Ended-crlf p commas untrimmed e fin in
      (n, m, scan_crlf carriage_return rest s _ one)
  scan-write_fields (g ∷ r) f row rest p' s e fin =
      let (n, m, one) = Ended-comma p commas untrimmed e in
      let (t, et, field) =
        scan-write_field p commas untrimmed g (write_fields r ++ rest) n m (row ++ f ∷ []) in
      let (n', m', all) =
        scan-write_fields r g (row ++ f ∷ []) rest p' t et (λ k. rw append_assoc (fin k)) in
      (n', m', rw append_assoc (scan-stay comma _ s _ one ∙ field ∙ all))

  scan-write_row :
      (r : Row) (rest : Bytes) (n m : ℕ) (p' : Parser)
      → r ≢ []
      → ((k : ℕ) → finalize_row p r k ≡ ok p')
      → (n' : ℕ) × (m' : ℕ) × (scan (write_row r ++ rest) (at p field_start n m [] [])
          ≡ scan rest (at p' field_start n' m' [] []))
  unfolding write_row write_field
  scan-write_row [] rest n m p' full fin = absurd (full refl)
  scan-write_row (f ∷ r) rest n m p' full fin =
      let (s, es, field) = scan-write_field p commas untrimmed f (write_fields r ++ rest) n m [] in
      let (n', m', all) = scan-write_fields r f [] rest p' s es fin in
      (n', m', rw append_assoc (field ∙ all))

-- The scanner finalizes the written rows one after the other.
scan-write_rows :
    (rs : List Row) (p q : Parser) (n m : ℕ)
    → p.config.delimiter ≡ comma
    → p.config.trim_whitespace ≡ false
    → All (λ r. r ≢ []) rs
    → finalize_all p rs 0 ≡ ok q
    → (n' : ℕ) × (m' : ℕ) × (scan (write_rows rs) (at p field_start n m [] [])
        ≡ ok (at q field_start n' m' [] []))
unfolding write_rows scan
scan-write_rows [] p q n m d t full h =
    (n, m, ap (λ x. ok (at x field_start n m [] [])) (finalize_all-nil p q 0 h))
scan-write_rows (r ∷ rs) p q n m d t (full, fulls) h =
    let (p', first, others) = finalize_all-cons p q r rs 0 h in
    let same = finalize_row-config p r 0 first in
    let (n', m', row) =
      scan-write_row p d t r (write_rows rs) n m p' full (λ k. finalize_row-line p r 0 k first) in
    let (n'', m'', all) =
      scan-write_rows rs p' q n' m' (ap (λ (c : Config). c.delimiter) same ∙ d)
        (ap (λ (c : Config). c.trim_whitespace) same ∙ t) fulls others in
    (n'', m'', row ∙ all)

-- What `parse` returns comes from a parser that replays, by the header index alone.
parse_parts :
    (cfg : Config) (stream : Bytes) (p : Parser)
    → parse cfg stream ≡ ok p
    → (q : Parser) × Replays (fresh cfg) q
      × ((if cfg.has_headers then build_header_index q else ok q) ≡ ok p)
unfolding parse
parse_parts cfg stream p h =
    let (t, scanned, h₁) = >>=-returns (scan (skip_bom stream) (start (fresh cfg))) _ h in
    let (q, ended, h₂) = >>=-returns (at_end_of_file t) _ h₁ in
    let keep =
      λ (a b : Parser) (r : Row) (n : ℕ). finalize_row-Replays {start = fresh cfg} a b r n in
    (q, scan-keeps (Replays (fresh cfg)) keep _ _ t q (Replays-fresh cfg) scanned ended, h₂)

-- The writer does not look at the header index.
to_rfc_4180-written : (p : Parser) → to_rfc_4180 p ≡ write_rows (written p)
unfolding to_rfc_4180 written write_rows
to_rfc_4180-written p = ground arith

indexed-written :
    (b : Bool) (q p : Parser)
    → (if b then build_header_index q else ok q) ≡ ok p
    → written p ≡ written q
unfolding build_header_index written
indexed-written b q p h = elim (Bool-cases b) [
  | inl e ↦
      let (index, _, built) =
        >>=-returns (index_headers q.headers 0 q.header_index) _ (rw e at h) in
      subst (λ x. written x ≡ written q) (Result_ok built) refl
  | inr e ↦ subst (λ x. written x ≡ written q) (Result_ok (rw e at h)) refl
]

-- If a text is parsed with the comma as delimiter and without trimming, and the writer's output
-- for the result does not begin with a byte order mark, then parsing that output with the same
-- configuration gives the same parser: headers, rows, header index and column count.
pub parse-to_rfc_4180 :
    (cfg : Config) (stream : Bytes) (p : Parser)
    → cfg.delimiter ≡ comma
    → cfg.trim_whitespace ≡ false
    → parse cfg stream ≡ ok p
    → skip_bom (to_rfc_4180 p) ≡ to_rfc_4180 p
    → parse cfg (to_rfc_4180 p) ≡ ok p
unfolding parse
parse-to_rfc_4180 cfg stream p d t h no_bom =
    let (q, v, index) = parse_parts cfg stream p h in
    let same = indexed-written cfg.has_headers q p index in
    let (n, m, scanned) = scan-write_rows (written q) (fresh cfg) q 1 1 d t v.no_empty v.again in
    rw (no_bom, to_rfc_4180-written, same, scanned) (unfold at_end_of_file in index)
