-- ===== src/Session/Banner/RoundTrip.antt =====
-- `Banner::parse` undoes `Banner::to_wire` (src/session/banner.rs).
use mathlib.Core.List.{append-nil, append_assoc}
use Prim.Native.Nat.{Ordering}
use rsadb.Base.{
  ℕ, ◌≡◌, ◌≢◌, refl, sym, ap, ◌∙◌, Bytes, false, ascii, ◌==◌, bytes_eq_ne, All, All-append, List,
  [], ◌∷◌, ◌++◌, map, arith,
}
use rsadb.Text.{split, trim_end, non_empty, join}
use rsadb.Text.Laws.{
  Without, split_once-append, split-append, split_absent, split-join, non_empty-All, non_empty-cons,
  trim_end_absent,
}
use rsadb.Text.TextMap.{
  TextMap, insert, insert-last, bytes_cmp, bytes_cmp_flip, Below, Above, IsSorted,
}
use rsadb.Session.Banner.{
  Banner, parse, to_wire, add_pair, add_pairs, add_property, parse_halves, halves, property_texts,
  feature_text,
}

-- A key and a value that the format can carry: the key is not the one of the feature list.
pub record IsPair (p : Bytes × Bytes) : Type 0 where
  pub key_no_nul : Without 0 p.0
  pub value_no_nul : Without 0 p.1
  pub key_no_equals : Without b'=' p.0
  pub key_no_semicolon : Without b';' p.0
  pub value_no_semicolon : Without b';' p.1
  pub not_features : p.0 ≢ ascii "features"

pub record IsFeature (f : Bytes) : Type 0 where
  pub no_nul : Without 0 f
  pub no_comma : Without b',' f
  pub no_semicolon : Without b';' f
  pub non_empty : f ≢ []

pub record IsBanner (b : Banner) : Type 0 where
  pub kind_no_nul : Without 0 b.kind
  pub kind_no_colon : Without b':' b.kind
  pub sorted : IsSorted b.properties
  pub pairs : All IsPair b.properties
  pub features : All IsFeature b.features

abbrev pair_text : Bytes × Bytes → Bytes
pair_text (k, v) = k ++ (b'=' ∷ v)

append-ne-nil : (xs : Bytes) (y : ℕ) (ys : Bytes) → xs ++ (y ∷ ys) ≢ []
append-ne-nil [] y ys h = cc
append-ne-nil (x ∷ xs) y ys h = cc

Without-join :
    (d : ℕ) (fs : List Bytes) → b',' ≢ d → All (Without d) fs → Without d (join (ascii ",") fs)
unfolding join
Without-join d [] h a = tt
Without-join d (f ∷ []) h a = a.0
Without-join d (f ∷ g ∷ fs) h a =
    All-append (λ c. c ≢ d) f (b',' ∷ join (ascii ",") (g ∷ fs)) a.0
      (h, Without-join d (g ∷ fs) h a.1)

All-IsFeature :
    (fs : List Bytes)
    → All IsFeature fs
    → All (Without 0) fs × All (Without b',') fs × All (Without b';') fs × All (λ f. f ≢ []) fs
All-IsFeature [] a = (tt, tt, tt, tt)
All-IsFeature (f ∷ fs) a =
    let (z, c, s, n) = All-IsFeature fs a.1 in
    ((a.0.no_nul, z), (a.0.no_comma, c), (a.0.no_semicolon, s), (a.0.non_empty, n))

Without-feature_text :
    (d : ℕ) (fs : List Bytes)
    → Without d (ascii "features=")
    → b',' ≢ d
    → All (Without d) fs
    → Without d (feature_text fs)
unfolding feature_text
Without-feature_text d [] k h a = tt
Without-feature_text d (f ∷ fs) k h a =
    All-append (λ c. c ≢ d) (ascii "features=") (join (ascii ",") (f ∷ fs)) k
      (Without-join d (f ∷ fs) h a)

Without-property_texts : (m : TextMap) → All IsPair m → Without 0 (property_texts m)
unfolding property_texts
Without-property_texts [] a = tt
Without-property_texts ((k, v) ∷ m) a =
    All-append (λ c. c ≢ 0) k _ a.0.key_no_nul
      (
        omega arith,
        All-append (λ c. c ≢ 0) v _ a.0.value_no_nul (omega arith, Without-property_texts m a.1),
      )

-- The pieces between the semicolons.
split-property_texts :
    (m : TextMap) (rest : Bytes)
    → All IsPair m
    → Without b';' rest
    → split b';' (property_texts m ++ rest) ≡ map pair_text m ++ (rest ∷ [])
unfolding property_texts
split-property_texts [] rest a h = split_absent b';' rest h
split-property_texts ((k, v) ∷ m) rest a h =
    ap (split b';') (regroup k v (property_texts m))
    ∙ split-append b';' (pair_text (k, v)) (property_texts m ++ rest) (
        All-append (λ c. c ≢ b';') k (b'=' ∷ v) a.0.key_no_semicolon
          (omega arith, a.0.value_no_semicolon))
    ∙ ap (◌∷◌ (pair_text (k, v))) (split-property_texts m rest a.1 h)
  where
    regroup :
        (k v t : Bytes)
        → (k ++ (b'=' ∷ (v ++ (b';' ∷ t)))) ++ rest ≡ (k ++ (b'=' ∷ v)) ++ (b';' ∷ (t ++ rest))
    regroup k v t = simp append_assoc

non_empty-pairs :
    (m : TextMap) (rest : List Bytes)
    → non_empty (map pair_text m ++ rest) ≡ map pair_text m ++ non_empty rest
non_empty-pairs [] rest = refl
non_empty-pairs ((k, v) ∷ m) rest =
    non_empty-cons (pair_text (k, v)) (map pair_text m ++ rest) (append-ne-nil k b'=' v)
    ∙ ap (◌∷◌ (pair_text (k, v))) (non_empty-pairs m rest)

halves-append :
    (d : ℕ) (p xs ys : Bytes) → Without d xs → halves (d ∷ p) (xs ++ ((d ∷ p) ++ ys)) ≡ (xs, ys)
halves-append d p xs ys h = rw (split_once-append d p xs ys h, halves)

add_pair-property :
    (b : Banner) (k v : Bytes)
    → IsPair (k, v)
    → add_pair b (pair_text (k, v)) ≡ record b { properties = insert k v b.properties }
unfolding add_pair
add_pair-property b k v h =
    ap (add_property b) (halves-append b'=' [] k v h.key_no_equals)
    ∙ rw (bytes_eq_ne k (ascii "features") h.not_features)

-- Keys that stand above all of a sorted map's earlier ones still do when the least is moved over.
Above-last :
    (k v : Bytes) (acc m : TextMap)
    → Below k m
    → All (λ p. Above p.0 acc) m
    → All (λ p. Above p.0 (acc ++ ((k, v) ∷ []))) m
Above-last k v acc [] s u = tt
Above-last k v acc ((j, w) ∷ m) s u = (
  All-append (λ p. bytes_cmp j p.0 ≡ Ordering.gt) acc ((k, v) ∷ []) u.0
      (bytes_cmp_flip k j s.0, tt),
  Above-last k v acc m s.1 u.1,
)

add_pairs-properties :
    (m : TextMap) (b : Banner) (rest : List Bytes)
    → All IsPair m
    → IsSorted m
    → All (λ p. Above p.0 b.properties) m
    → add_pairs b (map pair_text m ++ rest)
      ≡ add_pairs (record b { properties = b.properties ++ m }) rest
unfolding add_pairs
add_pairs-properties [] b rest a s u =
    ap (λ ps. add_pairs (record b { properties = ps }) rest) (sym (append-nil b.properties))
add_pairs-properties ((k, v) ∷ m) b rest a s u =
    ap (λ c. add_pairs c (map pair_text m ++ rest))
      (add_pair-property b k v a.0
        ∙ ap (λ ps. record b { properties = ps }) (insert-last k v b.properties u.0))
    ∙ add_pairs-properties m _ rest a.1 s.1 (Above-last k v b.properties m s.0 u.1)
    ∙ ap (λ ps. add_pairs (record b { properties = ps }) rest)
        (append_assoc b.properties ((k, v) ∷ []) m)

add_pair-features :
    (b : Banner) (f : Bytes) (fs : List Bytes)
    → All IsFeature (f ∷ fs)
    → add_pair b (feature_text (f ∷ fs)) ≡ record b { features = f ∷ fs }
unfolding add_pair feature_text
add_pair-features b f fs a =
    let (z, c, s, n) = All-IsFeature (f ∷ fs) a in
    ap (add_property b)
      (halves-append b'=' [] (ascii "features") (join (ascii ",") (f ∷ fs)) (omega arith))
    ∙ ap (λ ps. record b { features = ps })
        (ap non_empty (split-join b',' f fs c) ∙ non_empty-All (f ∷ fs) n)

add_pairs-features :
    (b : Banner) (fs : List Bytes)
    → All IsFeature fs
    → b.features ≡ []
    → add_pairs b (non_empty (feature_text fs ∷ [])) ≡ record b { features = fs }
unfolding add_pairs non_empty
add_pairs-features b [] a e = unfold feature_text in ap (λ ps. record b { features = ps }) e
add_pairs-features b (f ∷ fs) a e =
    ap (add_pairs b) (non_empty-cons (feature_text (f ∷ fs)) [] (unfold feature_text in λ h. cc))
    ∙ add_pair-features b f fs a

trim_nul : (t : Bytes) → Without 0 t → trim_end (λ c. c == 0) t ≡ t
trim_nul t h = trim_end_absent (λ c. c == 0) t (tests t h)
  where
    tests : (t : Bytes) → Without 0 t → All (λ c. (c == 0) ≡ false) t
    tests [] h = tt
    tests (c ∷ t) h = (ground arith, tests t h.1)

parse_body :
    (b : Banner)
    → IsBanner b
    → All (Without b';') b.features
    → parse_halves (b.kind, property_texts b.properties ++ feature_text b.features) ≡ b
unfolding parse_halves
parse_body b h s =
    let empty : Banner = record { kind = b.kind; properties = []; features = [] } in
    let last : List Bytes = feature_text b.features ∷ [] in
    ap (λ ps. add_pairs empty (non_empty ps))
      (split-property_texts b.properties (feature_text b.features) h.pairs
        (Without-feature_text b';' b.features (omega arith) (omega arith) s))
    ∙ ap (add_pairs empty) (non_empty-pairs b.properties last)
    ∙ add_pairs-properties b.properties empty (non_empty last) h.pairs h.sorted
        (all_above b.properties)
    ∙ add_pairs-features (record empty { properties = b.properties }) b.features h.features refl
  where
    all_above : (m : TextMap) → All (λ p. Above p.0 []) m
    all_above [] = tt
    all_above (p ∷ m) = (tt, all_above m)

-- Every banner that the format can carry is parsed back from its wire form.
pub parse-to_wire : (b : Banner) → IsBanner b → parse (to_wire b) ≡ b
unfolding parse to_wire
parse-to_wire b h =
    let body : Bytes = property_texts b.properties ++ feature_text b.features in
    let (z, _, s, _) = All-IsFeature b.features h.features in
    let body_no_nul : Without 0 body =
      All-append (λ c. c ≢ 0) (property_texts b.properties) (feature_text b.features)
        (Without-property_texts b.properties h.pairs)
        (Without-feature_text 0 b.features (omega arith) (omega arith) z) in
    let text_no_nul : Without 0 (to_wire b) =
      All-append (λ c. c ≢ 0) b.kind (b':' ∷ b':' ∷ body) h.kind_no_nul
        (omega arith, (omega arith, body_no_nul)) in
    ap (λ t. parse_halves (halves (ascii "::") t)) (trim_nul (to_wire b) text_no_nul)
    ∙ ap parse_halves (halves-append b':' (ascii ":") b.kind body h.kind_no_colon)
    ∙ parse_body b h s
