-- ===== src/Session/Banner.antt =====
-- src/session/banner.rs: the identity string of `A_CNXN`.
pub mod RoundTrip
use rsadb.Base.{
  ℕ, Bytes, ascii, bytes_eq, Bool, ◌==◌, if◌then◌else◌, Option, none, some, List, [], ◌∷◌, ◌++◌,
}
use rsadb.Text.{split_once, split, trim_end, non_empty, join, any_eq, is_empty}
use rsadb.Text.TextMap.{TextMap, insert}

abbrev pub host_features : Bytes
host_features =
    ascii
      "shell_v2,cmd,stat_v2,ls_v2,apex,abb,abb_exec,fixed_push_mkdir,fixed_push_symlink_timestamp"

pub record Banner : Type 0 where
  pub kind : Bytes
  pub properties : TextMap
  pub features : List Bytes

-- `split_once(…).unwrap_or((text, ""))`
abbrev pub halves : Bytes → Bytes → Bytes × Bytes
halves pat text = elim (split_once pat text) [ none ↦ (text, []) | some p ↦ p ]

pub add_property : Banner → Bytes × Bytes → Banner
add_property b (key, value) =
    if bytes_eq key (ascii "features")
    then record b { features = non_empty (split b',' value) }
    else record b { properties = insert key value b.properties }

pub add_pair : Banner → Bytes → Banner
unfolding add_property
add_pair b pair = add_property b (halves (ascii "=") pair)

pub add_pairs : Banner → List Bytes → Banner
add_pairs b [] = b
add_pairs b (p ∷ ps) = add_pairs (add_pair b p) ps

pub parse_halves : Bytes × Bytes → Banner
unfolding add_pairs
parse_halves (kind, rest) =
    add_pairs (record { kind = kind; properties = []; features = [] }) (non_empty (split b';' rest))

unfoldable pub parse : Bytes → Banner
unfolding parse_halves add_pair
parse text = parse_halves (halves (ascii "::") (trim_end (λ c. c == 0) text))

unfoldable pub host : Bytes
host = ascii "host::features=" ++ host_features

unfoldable pub has_feature : Banner → Bytes → Bool
has_feature b feature = any_eq b.features feature

pub property_texts : TextMap → Bytes
property_texts [] = []
property_texts ((k, v) ∷ m) = k ++ (ascii "=" ++ (v ++ (ascii ";" ++ property_texts m)))

pub feature_text : List Bytes → Bytes
feature_text [] = []
feature_text (f ∷ fs) = ascii "features=" ++ join (ascii ",") (f ∷ fs)

unfoldable pub to_wire : Banner → Bytes
unfolding property_texts feature_text
to_wire b = b.kind ++ (ascii "::" ++ (property_texts b.properties ++ feature_text b.features))
