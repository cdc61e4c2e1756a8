-- ===== src/Auth/Pubkey.antt =====
-- src/auth/pubkey.rs: Android's layout of a public key.
pub mod Montgomery
pub mod Encoded
pub mod RoundTrip
use rsadb.Base.{
  ℕ, zero, suc, ◌+◌, ◌-◌, ◌*◌, ◌%◌, ◌^◌, Bytes, ascii, bytes_eq, Bool, not, ltb, ◌==◌,
  if◌then◌else◌, length, take, drop, u32_le, from_le_bytes, List, [], ◌∷◌, ◌++◌,
}
use rsadb.Error.{
  Result, ok, err, Error, key, value_too_long, modulus_bits, modulus_even, exponent_too_long,
  encoded_length, modulus_length, fields_mismatch, empty_key_line, ◌>>=◌,
}
use rsadb.Auth.Rsa.{BigUint, PublicKeys, Base64}
use rsadb.Text.White.{split_whitespace}

-- `wrapping_mul` and `wrapping_sub` of u32; the numbers are below 2^32.
abbrev pub wrapping_mul : ℕ → ℕ → ℕ
wrapping_mul a b = (a * b) % 2 ^ 32

abbrev pub wrapping_sub : ℕ → ℕ → ℕ
wrapping_sub a b = (a + 2 ^ 32 - b) % 2 ^ 32

-- The loop of `n0inv`, for so many rounds.
pub newton : ℕ → ℕ → ℕ → ℕ
newton zero n0 inv = inv
newton (suc rounds) n0 inv =
    newton rounds n0 (wrapping_mul inv (wrapping_sub 2 (wrapping_mul n0 inv)))

unfoldable pub n0inv : ℕ → ℕ
unfolding newton
n0inv n0 = wrapping_sub 0 (newton 5 n0 n0)

abbrev pub modulus_bytes : ℕ
modulus_bytes = 256

abbrev pub modulus_words : ℕ
modulus_words = 64

abbrev pub encoded_len : ℕ
encoded_len = 4 + 4 + modulus_bytes + modulus_bytes + 4

abbrev pub zeros : ℕ → Bytes
zeros zero = []
zeros (suc n) = 0 ∷ zeros n

-- An array of so many bytes with the given ones at its front.
abbrev pub padded : ℕ → Bytes → Bytes
padded n bytes = bytes ++ zeros (n - length bytes)

module _ (B : BigUint) where
  open B use {Number, to_bytes_le, from_u32, shl, mul, rem}

  unfoldable pub to_le_padded : Number → Result Bytes
  to_le_padded x =
      if ltb modulus_bytes (length (to_bytes_le x))
      then err (key (value_too_long (length (to_bytes_le x))))
      else ok (padded modulus_bytes (to_bytes_le x))

  -- R^2 mod n, where R is 2^2048.
  unfoldable pub montgomery_square : Number → Number
  montgomery_square n = let r = shl (from_u32 1) (modulus_bytes * 8) in rem (mul r r) n

  unfoldable pub exponent : Number → Result ℕ
  exponent e =
      if ltb 4 (length (to_bytes_le e))
      then err (key exponent_too_long)
      else ok (from_le_bytes (padded 4 (to_bytes_le e)))

-- The structure of the encoded key.
abbrev pub layout : Bytes → Bytes → ℕ → Bytes
layout n_le rr e =
    u32_le modulus_words
    ++ (u32_le (n0inv (from_le_bytes (take 4 n_le))) ++ (n_le ++ (rr ++ u32_le e)))

module _ (B : BigUint) (P : PublicKeys B) where
  open P use {Key, n, e, new}

  encode_parts : Key → Result Bytes
  encode_parts k = do
    n_le ← to_le_padded B (n k)
    rr ← to_le_padded B (montgomery_square B (n k))
    exp ← exponent B (e k)
    ok (layout n_le rr exp)

  -- The low byte of the modulus must be odd.
  encode_odd : Key → Bytes → Result Bytes
  unfolding encode_parts
  encode_odd k [] = err (key modulus_even)
  encode_odd k (b ∷ _) = if b % 2 == 0 then err (key modulus_even) else encode_parts k

  unfoldable pub encode : Key → Result Bytes
  unfolding encode_odd
  encode k =
      if not (B.bits (n k) == modulus_bytes * 8)
      then err (key (modulus_bits (B.bits (n k))))
      else encode_odd k (B.to_bytes_le (n k))

  decode_fields : Bytes → Result Key
  decode_fields bytes = do
    k ←
        new (B.from_bytes_le (take modulus_bytes (drop 8 bytes)))
          (B.from_u32 (from_le_bytes (take 4 (drop (8 + 2 * modulus_bytes) bytes))))
    expected ← encode k
    if bytes_eq expected bytes then ok k else err (key fields_mismatch)

  unfoldable pub decode : Bytes → Result Key
  unfolding decode_fields
  decode bytes =
      if not (length bytes == encoded_len)
      then err (key (encoded_length (length bytes)))
      else if not (from_le_bytes (take 4 bytes) == modulus_words)
      then err (key (modulus_length (from_le_bytes (take 4 bytes))))
      else decode_fields bytes

  module _ (S : Base64) where
    unfoldable pub encode_line : Key → Bytes → Result Bytes
    encode_line k comment = do bytes ← encode k; ok (S.encode bytes ++ (b' ' ∷ comment))

    decode_first : List Bytes → Result Key
    decode_first [] = err (key empty_key_line)
    decode_first (b64 ∷ _) = S.decode b64 >>= decode

    unfoldable pub decode_line : Bytes → Result Key
    unfolding decode_first
    decode_line line = decode_first (split_whitespace line)
