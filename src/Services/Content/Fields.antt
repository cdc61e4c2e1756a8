-- ===== src/Services/Content/Fields.antt =====
-- The fields of one row in src/services/content.rs.
use rsadb.Base.{◌≡◌, refl, ap, Bytes, All, List, [], ◌∷◌, ◌++◌}
use rsadb.Error.{ok, ◌>>=◌}
use rsadb.Text.Laws.{Without, strip_prefix-append, split_once-append}
use rsadb.Text.TextMap.{TextMap, insert}
use rsadb.Services.Content.{after_name, cut_found, cut_value, fields_from}

-- The columns in front of the last one, with their values, as `content` prints them.
abbrev pub print_fields : List (Bytes × Bytes) → Bytes → Bytes → Bytes
print_fields [] k v = (k ++ (b'=' ∷ [])) ++ v
print_fields ((c, w) ∷ ps) k v = (c ++ (b'=' ∷ [])) ++ (w ++ (b',' ∷ b' ' ∷ print_fields ps k v))

abbrev pub columns : List (Bytes × Bytes) → Bytes → List Bytes
columns [] k = k ∷ []
columns ((c, w) ∷ ps) k = c ∷ columns ps k

abbrev pub insert_all : List (Bytes × Bytes) → TextMap → TextMap
insert_all [] row = row
insert_all ((c, w) ∷ ps) row = insert_all ps (insert c w row)

after_name-name :
    (fields c rest : Bytes) → after_name fields c ((c ++ (b'=' ∷ [])) ++ rest) ≡ ok rest
unfolding after_name
after_name-name fields c rest = rw (strip_prefix-append (c ++ (b'=' ∷ [])) rest) refl

cut_value-value :
    (fields next w behind : Bytes)
    → Without b',' w
    → cut_value fields next (w ++ (b',' ∷ b' ' ∷ ((next ++ (b'=' ∷ [])) ++ behind)))
      ≡ ok (w, (next ++ (b'=' ∷ [])) ++ behind)
unfolding cut_value cut_found
cut_value-value fields next w behind h =
    ap (cut_found fields next) (split_once-append b',' (b' ' ∷ (next ++ (b'=' ∷ []))) w behind h)

pub fields_from-print_fields :
    (fields : Bytes) (ps : List (Bytes × Bytes)) (k v : Bytes) (row : TextMap)
    → All (λ p. Without b',' p.1) ps
    → fields_from fields (columns ps k) (print_fields ps k v) row
      ≡ ok (insert k v (insert_all ps row))
unfolding fields_from
fields_from-print_fields fields [] k v row h =
    ap (λ r. r >>= λ value. ok (insert k value row)) (after_name-name fields k v)
fields_from-print_fields fields ((c, w) ∷ []) k v row (h, hs) =
    rw
      (
        after_name-name fields c (w ++ (b',' ∷ b' ' ∷ print_fields [] k v)),
        cut_value-value fields k w v h,
      )
      (fields_from-print_fields fields [] k v (insert c w row) hs)
fields_from-print_fields fields ((c, w) ∷ (d, x) ∷ ps) k v row (h, hs) =
    rw
      (
        after_name-name fields c (w ++ (b',' ∷ b' ' ∷ print_fields ((d, x) ∷ ps) k v)),
        cut_value-value fields d w (x ++ (b',' ∷ b' ' ∷ print_fields ps k v)) h,
      )
      (fields_from-print_fields fields ((d, x) ∷ ps) k v (insert c w row) hs)
