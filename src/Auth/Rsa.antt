-- ===== src/Auth/Rsa.antt =====
-- What src/auth relies on of the crates `num-bigint`, `rsa` and `base64`. They are not part of the
-- repository: their functions are parameters, with the documented behaviour as laws.
use rsadb.Base.{
  ℕ, ◌*◌, ◌%◌, ◌^◌, ◌≤◌, ◌<◌, ◌≡◌, Bytes, IsByte, IsU32, from_le_bytes, length, All, [],
}
use rsadb.Error.{Result, ok}
use rsadb.Text.White.{IsWordByte}

-- `BigUint`, with the number that a value stands for.
pub record BigUint : Type 1 where
  pub Number : Type 0
  pub value : Number → ℕ
  pub bits : Number → ℕ
  pub to_bytes_le : Number → Bytes
  pub from_bytes_le : Bytes → Number
  pub from_u32 : ℕ → Number
  pub shl : Number → ℕ → Number
  pub mul : Number → Number → Number
  pub rem : Number → Number → Number
  -- Numbers of the same value are equal.
  pub value_injective : (x y : Number) → value x ≡ value y → x ≡ y
  -- So many bits hold the number, and no byte more than it needs; zero takes one.
  pub bits_lem : (x : Number) → value x < 2 ^ bits x
  pub to_bytes_le_lem : (x : Number) → from_le_bytes (to_bytes_le x) ≡ value x
  pub to_bytes_le-IsByte : (x : Number) → All IsByte (to_bytes_le x)
  pub length-to_bytes_le :
      (x : Number) (k : ℕ) → 0 < k → value x < 2 ^ (8 * k) → length (to_bytes_le x) ≤ k
  pub from_bytes_le_lem : (bs : Bytes) → All IsByte bs → value (from_bytes_le bs) ≡ from_le_bytes bs
  pub from_u32_lem : (n : ℕ) → IsU32 n → value (from_u32 n) ≡ n
  pub shl_lem : (x : Number) (k : ℕ) → value (shl x k) ≡ value x * 2 ^ k
  pub mul_lem : (x y : Number) → value (mul x y) ≡ value x * value y
  pub rem_lem : (x y : Number) → 0 < value y → value (rem x y) ≡ value x % value y

-- `RsaPublicKey`: `new` checks the two numbers, and the key gives them back.
pub record PublicKeys (B : BigUint) : Type 1 where
  pub Key : Type 0
  pub n : Key → B.Number
  pub e : Key → B.Number
  pub new : B.Number → B.Number → Result Key
  pub new_lem : (x y : B.Number) (k : Key) → new x y ≡ ok k → (n k ≡ x) × (e k ≡ y)

-- The standard engine of `base64`.
pub record Base64 : Type 0 where
  pub encode : Bytes → Bytes
  pub decode : Bytes → Result Bytes
  pub decode-encode : (bs : Bytes) → All IsByte bs → decode (encode bs) ≡ ok bs
  pub encode-IsWordByte : (bs : Bytes) → All IsWordByte (encode bs)
  pub encode_nonempty : (bs : Bytes) → encode bs ≡ [] → bs ≡ []
