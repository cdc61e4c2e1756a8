-- ===== src/Wire/Message/Checksum.antt =====
-- `checksum` of src/wire/codec.rs against the plain sum of the bytes.
use mathlib.Core.List.{foldl}
use rsadb.Base.{ℕ, ◌+◌, ◌%◌, ◌^◌, ◌<◌, ◌≡◌, ◌∙◌, Bytes, IsU32, [], ◌∷◌, ◌++◌, arith}
use rsadb.Wire.Message.{checksum}

abbrev pub sum : Bytes → ℕ
sum [] = 0
sum (b ∷ bs) = b + sum bs

foldl-sum :
    (bs : Bytes) (acc : ℕ)
    → acc < 2 ^ 32
    → foldl (λ a b. (a + b) % 2 ^ 32) acc bs ≡ (acc + sum bs) % 2 ^ 32
foldl-sum [] acc h = omega arith
foldl-sum (b ∷ bs) acc h = foldl-sum bs ((acc + b) % 2 ^ 32) (omega arith) ∙ omega arith

-- The checksum of a payload is the sum of its bytes, reduced once at the end.
pub checksum-sum : (bs : Bytes) → checksum bs ≡ sum bs % 2 ^ 32
unfolding checksum
checksum-sum bs = foldl-sum bs 0 (omega arith) ∙ omega arith

pub checksum-IsU32 : (bs : Bytes) → IsU32 (checksum bs)
checksum-IsU32 bs = omega (arith, checksum-sum bs)

sum-append : (xs ys : Bytes) → sum (xs ++ ys) ≡ sum xs + sum ys
sum-append [] ys = omega arith
sum-append (x ∷ xs) ys = omega (arith, sum-append xs ys)

-- The checksum of two byte strings, one behind the other, is the sum of their checksums modulo 2^32.
pub checksum-append : (xs ys : Bytes) → checksum (xs ++ ys) ≡ (checksum xs + checksum ys) % 2 ^ 32
checksum-append xs ys =
    omega (arith, checksum-sum (xs ++ ys), checksum-sum xs, checksum-sum ys, sum-append xs ys)
