-- ===== src/Text/Lossy.antt =====
-- `String::from_utf8_lossy`: each maximal invalid part of a byte string becomes U+FFFD.
use rsadb.Base.{
  ℕ, zero, suc, ◌<◌, ◌≡◌, refl, Bytes, bytes_eq, Bool, ◌&&◌, ◌==◌, leb, ltb, if◌then◌else◌, All, [],
  ◌∷◌, ◌++◌, arith,
}

-- Inside a character: the bytes so far, the range of the next one, and how many follow that.
pub data Scan : Type 0 where
  start : Scan
  inside : Bytes → ℕ → ℕ → ℕ → Scan

abbrev pub replacement : Bytes
replacement = 0xEF ∷ 0xBF ∷ 0xBD ∷ []

abbrev in_range : ℕ → ℕ → ℕ → Bool
in_range lo hi b = leb lo b && leb b hi

-- The first byte of a character: what it emits, and the state behind it.
lead : ℕ → Bytes × Scan
lead b =
    if ltb b 0x80
    then (b ∷ [], start)
    else if in_range 0xC2 0xDF b
    then ([], inside (b ∷ []) 0x80 0xBF 0)
    else if b == 0xE0
    then ([], inside (b ∷ []) 0xA0 0xBF 1)
    else if b == 0xED
    then ([], inside (b ∷ []) 0x80 0x9F 1)
    else if in_range 0xE1 0xEF b
    then ([], inside (b ∷ []) 0x80 0xBF 1)
    else if b == 0xF0
    then ([], inside (b ∷ []) 0x90 0xBF 2)
    else if b == 0xF4
    then ([], inside (b ∷ []) 0x80 0x8F 2)
    else if in_range 0xF1 0xF3 b
    then ([], inside (b ∷ []) 0x80 0xBF 2)
    else (replacement, start)

more : Bytes → ℕ → ℕ → Bytes × Scan
more seen b zero = (seen ++ (b ∷ []), start)
more seen b (suc n) = ([], inside (seen ++ (b ∷ [])) 0x80 0xBF n)

scan : Scan → ℕ → Bytes × Scan
scan start b = lead b
scan (inside seen lo hi n) b =
    if in_range lo hi b then more seen b n else (replacement ++ (lead b).0, (lead b).1)

finish : Scan → Bytes
finish start = []
finish (inside seen lo hi n) = replacement

lossy_from : Scan → Bytes → Bytes
lossy_from s [] = finish s
lossy_from s (b ∷ bs) = let (out, t) = scan s b in out ++ lossy_from t bs

unfoldable pub from_utf8_lossy : Bytes → Bytes
unfolding lossy_from scan lead more finish
from_utf8_lossy = lossy_from start

-- `from_utf8` accepts what the lossy reading leaves as it is.
abbrev pub is_utf8 : Bytes → Bool
is_utf8 bytes = bytes_eq (from_utf8_lossy bytes) bytes

abbrev pub IsAscii : Bytes → Type 0
IsAscii = All (λ b. b < 0x80)

lossy_from-ascii : (bs : Bytes) → IsAscii bs → lossy_from start bs ≡ bs
unfolding lossy_from scan lead finish
lossy_from-ascii [] h = refl
lossy_from-ascii (b ∷ bs) h = ground (arith, lossy_from-ascii bs h.1)

-- ASCII text is unchanged.
pub from_utf8_lossy-ascii : (bs : Bytes) → IsAscii bs → from_utf8_lossy bs ≡ bs
unfolding from_utf8_lossy
from_utf8_lossy-ascii = lossy_from-ascii
