-- ===== src/Csv/Parser/Built.antt =====
-- What holds of each parser that `parse` returns.
use foo_bar.Base.{
  ℕ, Bool, true, false, List, [], Bytes, ok, if◌then◌else◌, >>=-returns, ◌≡◌, ◌↔◌, ◌∙◌, ap, refl,
  subst, arith, inl, inr, get_elem?, some,
}
use foo_bar.Csv.Types.{Config, Row, Parser, fresh}
use foo_bar.Csv.Rows.{finalize_row, build_header_index, index_headers, find_header}
use foo_bar.Csv.Rows.Replay.{written, finalize_row-config}
use foo_bar.Csv.Rows.Table.{IsTable, IsTable-fresh, finalize_row-IsTable}
use foo_bar.Csv.Rows.Index.{index_headers-find, index_headers-only}
use foo_bar.Csv.Scan.{scan, at_end_of_file}
use foo_bar.Csv.Scan.Keeps.{scan-keeps}
use foo_bar.Csv.Parser.{parse, start, skip_bom}
use foo_bar.Csv.Access.{column_index_for_header, get_cell, get_cell_by_header}

-- What holds before the header index is built.
record IsUnindexed (cfg : Config) (q : Parser) : Type 0 where
  table : IsTable q
  config : q.config ≡ cfg
  no_index : q.header_index ≡ []

finalize_row-header_index :
    (p p' : Parser) (r : Row) (n : ℕ)
    → finalize_row p r n ≡ ok p'
    → p'.header_index ≡ p.header_index
unfolding finalize_row
finalize_row-header_index p p' r n h = ground arith

finalize_row-IsUnindexed :
    (cfg : Config) (p p' : Parser) (r : Row) (n : ℕ)
    → finalize_row p r n ≡ ok p'
    → IsUnindexed cfg p
    → IsUnindexed cfg p'
finalize_row-IsUnindexed cfg p p' r n h v = record {
  table = finalize_row-IsTable p p' r n h v.table;
  config = finalize_row-config p r n h ∙ v.config;
  no_index = finalize_row-header_index p p' r n h ∙ v.no_index;
}

-- The parser at the end of the stream, before the header index.
parse-IsUnindexed :
    (cfg : Config) (stream : Bytes) (p : Parser)
    → parse cfg stream ≡ ok p
    → (q : Parser) × IsUnindexed cfg q
      × ((if cfg.has_headers then build_header_index q else ok q) ≡ ok p)
unfolding parse
parse-IsUnindexed cfg stream p h =
    let (t, scanned, h₁) = >>=-returns (scan (skip_bom stream) (start (fresh cfg))) _ h in
    let (q, ended, h₂) = >>=-returns (at_end_of_file t) _ h₁ in
    let v : IsUnindexed cfg (fresh cfg) = record {
      table = IsTable-fresh cfg;
      config = refl;
      no_index = refl;
    } in
    (q, scan-keeps (IsUnindexed cfg) (finalize_row-IsUnindexed cfg) _ _ t q v scanned ended, h₂)

IsTable-reindex :
    (q : Parser) (index : List (Bytes × ℕ))
    → IsTable q
    → IsTable (record q { header_index = index })
unfolding written
IsTable-reindex q index v = record {
  not_empty = v.not_empty;
  not_blank = v.not_blank;
  fits = v.fits;
  uniform = v.uniform;
  checked = v.checked;
}

-- `build_header_index` sets the index alone.
indexed-IsTable :
    (b : Bool) (cfg : Config) (q p : Parser)
    → (if b then build_header_index q else ok q) ≡ ok p
    → IsUnindexed cfg q
    → IsTable p × (p.config ≡ cfg)
unfolding build_header_index
indexed-IsTable true cfg q p h v =
    let (index, _, built) = >>=-returns (index_headers q.headers 0 q.header_index) _ h in
    subst (λ x. IsTable x × (x.config ≡ cfg)) (cc) (IsTable-reindex q index v.table, v.config)
indexed-IsTable false cfg q p h v =
    subst (λ x. IsTable x × (x.config ≡ cfg)) (cc) (v.table, v.config)

find_header-headers :
    (hs : Row) (index : List (Bytes × ℕ)) (name : Bytes) (i : ℕ)
    → index_headers hs 0 [] ≡ ok index
    → (find_header name index ≡ some i) ↔ (get_elem? hs i ≡ some name)
unfolding find_header
find_header-headers hs index name i h = (
  λ found. elim (index_headers-only hs 0 [] index name i h found) [
    | inl none_yet ↦ cc
    | inr (n, e, at_n) ↦ subst (λ k. get_elem? hs k ≡ some name) (omega arith) at_n
  ],
  λ at_i. index_headers-find hs 0 i [] index name h at_i ∙ ap some (omega arith),
)

column_index-find_header :
    (p : Parser) (name : Bytes) (i : ℕ)
    → p.config.has_headers ≡ true
    → (column_index_for_header p name ≡ ok i) ↔ (find_header name p.header_index ≡ some i)
unfolding column_index_for_header
column_index-find_header p name i on = (λ h. ground arith, λ h. ground arith)

lookup-built :
    (q p : Parser) (name : Bytes) (i : ℕ)
    → build_header_index q ≡ ok p
    → q.header_index ≡ []
    → (find_header name p.header_index ≡ some i) ↔ (get_elem? p.headers i ≡ some name)
unfolding build_header_index
lookup-built q p name i h empty =
    let (index, indexed, built) = >>=-returns (index_headers q.headers 0 q.header_index) _ h in
    let same : record q { header_index = index } ≡ p = cc in
    subst
      (λ (x : Parser).
        (find_header name x.header_index ≡ some i) ↔ (get_elem? x.headers i ≡ some name))
      same
      (find_header-headers q.headers index name i
        (subst (λ m. index_headers q.headers 0 m ≡ ok index) empty indexed))

build_if :
    (b : Bool) (q p : Parser)
    → b ≡ true
    → (if b then build_header_index q else ok q) ≡ ok p
    → build_header_index q ≡ ok p
build_if true q p on h = h
build_if false q p on h = cc

-- Each parser that `parse` returns holds a table: no row is empty or one empty field, no row is
-- longer than the column count, in strict mode each row has exactly that length, and with UTF-8
-- validation each field passes the check. The header row, if there is one, is a row of the table.
-- The configuration is the given one.
pub parse-IsTable :
    (cfg : Config) (stream : Bytes) (p : Parser)
    → parse cfg stream ≡ ok p
    → IsTable p × (p.config ≡ cfg)
parse-IsTable cfg stream p h =
    let (q, v, built) = parse-IsUnindexed cfg stream p h in
    indexed-IsTable cfg.has_headers cfg q p built v

-- With headers enabled, `column_index_for_header` returns `i` for a name exactly if the name is
-- the `i`-th header.
pub parse-column_index_for_header :
    (cfg : Config) (stream : Bytes) (p : Parser) (name : Bytes) (i : ℕ)
    → parse cfg stream ≡ ok p
    → cfg.has_headers ≡ true
    → (column_index_for_header p name ≡ ok i) ↔ (get_elem? p.headers i ≡ some name)
parse-column_index_for_header cfg stream p name i h on =
    let (q, v, built) = parse-IsUnindexed cfg stream p h in
    let (_, same) = indexed-IsTable cfg.has_headers cfg q p built v in
    let (to_index, from_index) =
      column_index-find_header p name i (ap (λ (c : Config). c.has_headers) same ∙ on) in
    let (to_headers, from_headers) =
      lookup-built q p name i (build_if cfg.has_headers q p on built) v.no_index in
    (λ e. to_headers (to_index e), λ e. from_index (from_headers e))

-- With headers enabled, reading a cell by a header's name is reading it by that header's position.
pub get_cell_by_header-get_cell :
    (cfg : Config) (stream : Bytes) (p : Parser) (name : Bytes) (row i : ℕ)
    → parse cfg stream ≡ ok p
    → cfg.has_headers ≡ true
    → get_elem? p.headers i ≡ some name
    → get_cell_by_header p row name ≡ get_cell p row i
unfolding get_cell_by_header
get_cell_by_header-get_cell cfg stream p name row i h on at_i =
    rw ((parse-column_index_for_header cfg stream p name i h on).1 at_i)
