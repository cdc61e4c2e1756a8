-- ===== src/Text.antt =====
-- What the source uses of Rust's strings, over the bytes of their UTF-8 encoding. Each pattern that
-- the source looks for is ASCII, so a search by bytes finds what a search by characters finds.
pub mod Laws
pub mod Count
pub mod Lossy
pub mod TextMap
pub mod White
pub mod Decimal
use rsadb.Base.{
  ℕ, zero, suc, Bytes, Bool, true, false, not, ◌&&◌, ◌||◌, ◌==◌, leb, if◌then◌else◌, Option, none,
  some, List, [], ◌∷◌, ◌++◌, length, bytes_eq,
}

unfoldable pub strip_prefix : Bytes → Bytes → Option Bytes
strip_prefix [] s = some s
strip_prefix (p ∷ ps) [] = none
strip_prefix (p ∷ ps) (c ∷ s) = if p == c then strip_prefix ps s else none

pub prepend : ℕ → Option (Bytes × Bytes) → Option (Bytes × Bytes)
prepend c none = none
prepend c (some (xs, ys)) = some (c ∷ xs, ys)

found_at : Option Bytes → Option (Bytes × Bytes) → Option (Bytes × Bytes)
found_at (some rest) later = some ([], rest)
found_at none later = later

-- `split_once`: the parts before and behind the first occurrence of the pattern.
unfoldable pub split_once : Bytes → Bytes → Option (Bytes × Bytes)
unfolding strip_prefix prepend found_at
split_once pat [] = found_at (strip_prefix pat []) none
split_once pat (c ∷ s) = found_at (strip_prefix pat (c ∷ s)) (prepend c (split_once pat s))

found_last : Bool → ℕ → Bytes → Option (Bytes × Bytes) → Option (Bytes × Bytes)
found_last here c s (some later) = prepend c (some later)
found_last true c s none = some ([], s)
found_last false c s none = none

-- `rsplit_once` at a one-byte pattern: the parts around its last occurrence.
unfoldable pub rsplit_once : ℕ → Bytes → Option (Bytes × Bytes)
unfolding found_last prepend
rsplit_once d [] = none
rsplit_once d (c ∷ s) = found_last (c == d) c s (rsplit_once d s)

cons_head : ℕ → List Bytes → List Bytes
cons_head c [] = (c ∷ []) ∷ []
cons_head c (p ∷ ps) = (c ∷ p) ∷ ps

-- `split` at a one-byte pattern: one piece more than there are separators.
unfoldable pub split : ℕ → Bytes → List Bytes
unfolding cons_head
split d [] = [] ∷ []
split d (c ∷ s) = let rest = split d s in if c == d then [] ∷ rest else cons_head c rest

-- `trim_end_matches` with a predicate on bytes.
abbrev trim_step : Bool → ℕ → Bytes → Bytes
trim_step true c [] = []
trim_step true c (x ∷ xs) = c ∷ x ∷ xs
trim_step false c xs = c ∷ xs

unfoldable pub trim_end : (ℕ → Bool) → Bytes → Bytes
trim_end p [] = []
trim_end p (c ∷ s) = trim_step (p c) c (trim_end p s)

abbrev pub is_empty : Bytes → Bool
is_empty [] = true
is_empty (c ∷ s) = false

unfoldable pub non_empty : List Bytes → List Bytes
non_empty [] = []
non_empty ([] ∷ ps) = non_empty ps
non_empty ((c ∷ p) ∷ ps) = (c ∷ p) ∷ non_empty ps

unfoldable pub contains_byte : ℕ → Bytes → Bool
contains_byte d [] = false
contains_byte d (c ∷ s) = c == d || contains_byte d s

-- `join`
unfoldable pub join : Bytes → List Bytes → Bytes
join sep [] = []
join sep (p ∷ []) = p
join sep (p ∷ q ∷ ps) = p ++ (sep ++ join sep (q ∷ ps))

-- `iter().any(|f| f == name)`
unfoldable pub any_eq : List Bytes → Bytes → Bool
any_eq [] name = false
any_eq (f ∷ fs) name = bytes_eq f name || any_eq fs name

-- `u8::is_ascii_alphanumeric`
unfoldable pub is_alphanumeric : ℕ → Bool
is_alphanumeric c =
    (leb b'0' c && leb c b'9') || ((leb b'A' c && leb c b'Z') || (leb b'a' c && leb c b'z'))

-- A `\r` at the end of a line that a `\n` has ended.
strip_return : Bytes → Bytes
strip_return [] = []
strip_return (c ∷ []) = if c == b'\r' then [] else c ∷ []
strip_return (c ∷ d ∷ s) = c ∷ strip_return (d ∷ s)

lines_of : List Bytes → List Bytes
unfolding strip_return
lines_of [] = []
lines_of ([] ∷ []) = []
lines_of ((c ∷ l) ∷ []) = (c ∷ l) ∷ []
lines_of (l ∷ m ∷ ls) = strip_return l ∷ lines_of (m ∷ ls)

-- `lines`: without the line ends, and no empty line behind the last one.
unfoldable pub lines : Bytes → List Bytes
unfolding lines_of
lines s = lines_of (split b'\n' s)

is_found : Option Bytes → Bool
is_found none = false
is_found (some _) = true

-- `starts_with`
unfoldable pub starts_with : Bytes → Bytes → Bool
unfolding is_found
starts_with pat s = is_found (strip_prefix pat s)
