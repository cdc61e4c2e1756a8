-- ===== src/Services/Content/Rows.antt =====
-- The rows of src/services/content.rs, with values that go over several lines.
use rsadb.Base.{
  suc, All-append, ◌≡◌, ◌≢◌, refl, sym, ap, ◌∙◌, Bytes, ascii, bytes_eq_ne, false, ◌==◌, some, none,
  All, map, length, List, [], ◌∷◌, ◌++◌, arith,
}
use rsadb.Error.{ok, ◌>>=◌}
use rsadb.Text.{strip_prefix, trim_end}
use rsadb.Text.Laws.{
  Without, strip_prefix-append, split_once-append, trim_end_absent, print_lines, IsLine,
  lines-print_lines, starts_with-none, starts_with-append,
}
use rsadb.Text.TextMap.{TextMap, insert, lookup-insert_self, insert-insert_self}
use rsadb.Services.Content.{
  parse_fields, fields_from, last_of, continued, other_line, row_line, content_line, put_before,
  row_mark, scan, parse_rows, count_lines, count_rows,
}
use rsadb.Services.Content.Fields.{print_fields, columns, insert_all, fields_from-print_fields}

-- A row: its number, the columns in front of the last one, the first line of the last value, and the
-- lines behind that.
pub record Row : Type 0 where
  pub index : Bytes
  pub front : List (Bytes × Bytes)
  pub first : Bytes
  pub more : List Bytes

module _ (k : Bytes) where
  abbrev pub first_line : Row → Bytes
  first_line r = row_mark ++ (r.index ++ (b' ' ∷ print_fields r.front k r.first))

  abbrev pub row_lines : Row → List Bytes
  row_lines r = first_line r ∷ r.more

  abbrev pub all_lines : List Row → List Bytes
  all_lines [] = []
  all_lines (r ∷ rs) = row_lines r ++ all_lines rs

  abbrev pub whole : Bytes → List Bytes → Bytes
  whole v [] = v
  whole v (l ∷ ls) = whole (v ++ (b'\n' ∷ l)) ls

  abbrev pub row_map : Row → TextMap
  row_map r = insert k (whole r.first r.more) (insert_all r.front [])

-- A line behind the first one of a value: the parser takes no other view of it.
abbrev pub IsMore : Bytes → Type 0
IsMore l = (l ≢ []) × (l ≢ ascii "No result found.") × (strip_prefix row_mark l ≡ none)

-- A row of the projection that `content` prints without ambiguity.
pub record IsRow (k : Bytes) (projection : List Bytes) (r : Row) : Type 0 where
  pub index_no_space : Without b' ' r.index
  pub front_no_comma : All (λ p. Without b',' p.1) r.front
  pub same_columns : columns r.front k ≡ projection
  pub more_lines : All IsMore r.more
  pub are_lines : All IsLine (row_lines k r)

trim_returns : (l : Bytes) → Without b'\r' l → trim_end (λ c. c == b'\r') l ≡ l
trim_returns l h = trim_end_absent (λ c. c == b'\r') l (no_returns l h)
  where
    no_returns : (xs : Bytes) → Without b'\r' xs → All (λ c. (c == b'\r') ≡ false) xs
    no_returns [] x = tt
    no_returns (c ∷ xs) (n, x) = (ground arith, no_returns xs x)

last_of-columns : (ps : List (Bytes × Bytes)) (k : Bytes) → last_of (columns ps k) ≡ some k
last_of-columns [] k = refl
last_of-columns (p ∷ []) k = refl
last_of-columns (p ∷ q ∷ ps) k = last_of-columns (q ∷ ps) k

module _ (k : Bytes) (projection : List Bytes) (last : last_of projection ≡ some k) where
  other_line-more :
      (l v : Bytes) (m : TextMap) (rows : List TextMap)
      → IsMore l
      → other_line projection l (insert k v m ∷ rows) ≡ ok (insert k (v ++ (b'\n' ∷ l)) m ∷ rows)
  unfolding other_line continued
  other_line-more [] v m rows (ne, _, _) = absurd (ne refl)
  other_line-more (c ∷ l) v m rows (_, notice, _) =
      rw (bytes_eq_ne (c ∷ l) (ascii "No result found.") notice, last, lookup-insert_self k v m)
        (ap (λ x. ok (x ∷ rows)) (insert-insert_self k (v ++ (b'\n' ∷ (c ∷ l))) v m))

  scan-more :
      (ls : List Bytes) (v : Bytes) (m : TextMap) (rows : List TextMap) (behind : List Bytes)
      → All IsMore ls
      → All IsLine ls
      → scan projection (ls ++ behind) (insert k v m ∷ rows)
        ≡ scan projection behind (insert k (whole k v ls) m ∷ rows)
  unfolding scan content_line
  scan-more [] v m rows behind _ _ = refl
  scan-more (l ∷ ls) v m rows behind (h, hs) (line, are) =
      rw (trim_returns l line.1, h.2, other_line-more l v m rows h)
        (scan-more ls (v ++ (b'\n' ∷ l)) m rows behind hs are)

  row_line-first :
      (r : Row) (rows : List TextMap)
      → IsRow k projection r
      → content_line projection (first_line k r) (strip_prefix row_mark (first_line k r)) rows
        ≡ ok (insert k r.first (insert_all r.front []) ∷ rows)
  unfolding content_line row_line parse_fields
  row_line-first r rows h =
      let fields : Bytes = print_fields r.front k r.first in
      ap (λ o. content_line projection (first_line k r) o rows)
        (strip_prefix-append row_mark (r.index ++ (b' ' ∷ fields)))
      ∙ ap (λ o. row_line projection (first_line k r) o rows)
          (split_once-append b' ' [] r.index fields h.index_no_space)
      ∙ ap (λ cs. fields_from fields cs fields [] >>= λ row. ok (row ∷ rows)) (sym h.same_columns)
      ∙ ap (λ x. x >>= λ row. ok (row ∷ rows))
          (fields_from-print_fields fields r.front k r.first [] h.front_no_comma)

  scan-all_lines :
      (rs : List Row) (rows : List TextMap)
      → All (IsRow k projection) rs
      → scan projection (all_lines k rs) rows ≡ ok (put_before rows (map (row_map k) rs))
  unfolding scan
  scan-all_lines [] rows h = refl
  scan-all_lines (r ∷ rs) rows (h, hs) =
      rw (trim_returns (first_line k r) h.are_lines.0.1, row_line-first r rows h)
        (scan-more r.more r.first (insert_all r.front []) rows (all_lines k rs) h.more_lines
            h.are_lines.1
          ∙ scan-all_lines rs (row_map k r ∷ rows) hs)

  all_lines-IsLine : (rs : List Row) → All (IsRow k projection) rs → All IsLine (all_lines k rs)
  all_lines-IsLine [] h = tt
  all_lines-IsLine (r ∷ rs) (h, hs) =
      All-append IsLine (row_lines k r) (all_lines k rs) h.are_lines (all_lines-IsLine rs hs)

  count-more :
      (ls behind : List Bytes) → All IsMore ls → count_lines (ls ++ behind) ≡ count_lines behind
  unfolding count_lines
  count-more [] behind h = refl
  count-more (l ∷ ls) behind (h, hs) =
      rw (starts_with-none row_mark l h.2) (count-more ls behind hs)

  count-all_lines :
      (rs : List Row) → All (IsRow k projection) rs → count_lines (all_lines k rs) ≡ length rs
  unfolding count_lines
  count-all_lines [] h = refl
  count-all_lines (r ∷ rs) (h, hs) =
      rw (starts_with-append row_mark (r.index ++ (b' ' ∷ print_fields r.front k r.first)))
        (ap suc (count-more r.more (all_lines k rs) h.more_lines ∙ count-all_lines rs hs))

  -- Rows that are printed without ambiguity are parsed back, with the lines that their last values
  -- go over, and the cross-check counts as many. No comma stands in front of the last value, no
  -- carriage return anywhere, and a line behind the first of a value is not empty, no notice and no
  -- row.
  pub parse_rows-print_lines :
      (rs : List Row)
      → All (IsRow k projection) rs
      → (parse_rows (print_lines (all_lines k rs)) projection ≡ ok (map (row_map k) rs))
        × (count_rows (print_lines (all_lines k rs)) ≡ length rs)
  unfolding parse_rows count_rows
  parse_rows-print_lines rs h =
      let same = lines-print_lines (all_lines k rs) (all_lines-IsLine rs h) in
      (
        ap (λ ls. scan projection ls []) same ∙ scan-all_lines rs [] h,
        ap count_lines same ∙ count-all_lines rs h,
      )
