-- ===== src/Services/Content.antt =====
-- src/services/content.rs: the command and the output of `content query`.
pub mod Fields
pub mod Rows
use rsadb.Base.{
  ℕ, zero, suc, Bytes, ascii, bytes_eq, Bool, true, false, ◌||◌, if◌then◌else◌, Option, none, some,
  List, [], ◌∷◌, ◌++◌, ◌==◌,
}
use rsadb.Error.{
  Result, ok, err, Error, parse, unexpected_line, row_without_fields, expected_column,
  missing_column, ◌>>=◌, ok_or,
}
use rsadb.Text.{strip_prefix, split_once, trim_end, is_empty, join, lines, starts_with}
use rsadb.Text.TextMap.{TextMap, insert, lookup}
use rsadb.Services.Shell.{quote}

quoted_args : List Bytes → Bytes
quoted_args [] = []
quoted_args (a ∷ as') = b' ' ∷ (quote a ++ quoted_args as')

projection_arg : List Bytes → Bytes
projection_arg [] = []
projection_arg (c ∷ cs) = ascii " --projection " ++ quote (join (b':' ∷ []) (c ∷ cs))

unfoldable pub command : Bytes → List Bytes → List Bytes → Bytes
unfolding quoted_args projection_arg
command uri projection extra =
    ascii "content query --uri " ++ (quote uri ++ (projection_arg projection ++ quoted_args extra))

-- `rest.strip_prefix("{column}=")`
unfoldable pub after_name : Bytes → Bytes → Bytes → Result Bytes
after_name fields column rest =
    ok_or (strip_prefix (column ++ (b'=' ∷ [])) rest) (parse (expected_column column fields))

-- The value in front of the next column, and the text from that column on.
cut_found : Bytes → Bytes → Option (Bytes × Bytes) → Result (Bytes × Bytes)
cut_found fields next none = err (parse (missing_column next fields))
cut_found fields next (some (value, behind)) = ok (value, (next ++ (b'=' ∷ [])) ++ behind)

unfoldable pub cut_value : Bytes → Bytes → Bytes → Result (Bytes × Bytes)
unfolding cut_found
cut_value fields next rest =
    cut_found fields next (split_once (b',' ∷ b' ' ∷ (next ++ (b'=' ∷ []))) rest)

-- The loop of `parse_fields`, on the columns to come.
pub fields_from : Bytes → List Bytes → Bytes → TextMap → Result TextMap
fields_from fields [] rest row = ok row
fields_from fields (c ∷ []) rest row = after_name fields c rest >>= λ value. ok (insert c value row)
fields_from fields (c ∷ next ∷ cs) rest row = do
  from_value ← after_name fields c rest
  (value, from_next) ← cut_value fields next from_value
  fields_from fields (next ∷ cs) from_next (insert c value row)

unfoldable pub parse_fields : Bytes → List Bytes → Result TextMap
unfolding fields_from
parse_fields fields projection = fields_from fields projection fields []

abbrev pub last_of : List Bytes → Option Bytes
last_of [] = none
last_of (c ∷ []) = some c
last_of (c ∷ d ∷ cs) = last_of (d ∷ cs)

abbrev pub or_empty : Option Bytes → Bytes
or_empty none = []
or_empty (some v) = v

-- A line that is no row belongs to the last column of the row before it. The newest row comes first.
pub continued : Option Bytes → Bytes → List TextMap → Result (List TextMap)
continued (some c) line (row ∷ rows) =
    ok (insert c (or_empty (lookup c row) ++ (b'\n' ∷ line)) row ∷ rows)
continued _ line _ = err (parse (unexpected_line line))

other_line : List Bytes → Bytes → List TextMap → Result (List TextMap)
unfolding continued
other_line projection line rows =
    if is_empty line || bytes_eq line (ascii "No result found.")
    then ok rows
    else continued (last_of projection) line rows

row_line : List Bytes → Bytes → Option (Bytes × Bytes) → List TextMap → Result (List TextMap)
row_line projection line none rows = err (parse (row_without_fields line))
row_line projection line (some (_, fields)) rows =
    parse_fields fields projection >>= λ row. ok (row ∷ rows)

-- One line, without the `\r` behind it.
content_line : List Bytes → Bytes → Option Bytes → List TextMap → Result (List TextMap)
unfolding other_line row_line
content_line projection line none rows = other_line projection line rows
content_line projection line (some rest) rows =
    row_line projection line (split_once (b' ' ∷ []) rest) rows

abbrev pub put_before : List TextMap → List TextMap → List TextMap
put_before [] out = out
put_before (r ∷ rs) out = put_before rs (r ∷ out)

abbrev pub row_mark : Bytes
row_mark = ascii "Row: "

-- The loop of `parse_rows`.
pub scan : List Bytes → List Bytes → List TextMap → Result (List TextMap)
unfolding content_line
scan projection [] rows = ok (put_before rows [])
scan projection (l ∷ ls) rows =
    let line = trim_end (λ c. c == b'\r') l in
    content_line projection line (strip_prefix row_mark line) rows >>= scan projection ls

unfoldable pub parse_rows : Bytes → List Bytes → Result (List TextMap)
unfolding scan
parse_rows output projection = scan projection (lines output) []

count_lines : List Bytes → ℕ
count_lines [] = 0
count_lines (l ∷ ls) =
    let more = count_lines ls in if starts_with row_mark l then suc more else more

unfoldable pub count_rows : Bytes → ℕ
unfolding count_lines
count_rows output = count_lines (lines output)
