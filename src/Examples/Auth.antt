-- ===== src/Examples/Auth.antt =====
-- src/auth/pubkey.rs over concrete integers, keys and a concrete text encoding.
use rsadb.Base.{
  ℕ, IsU32, zero, suc, ◌+◌, ◌-◌, ◌*◌, ◌/◌, ◌%◌, ◌^◌, ◌≤◌, ◌<◌, ◌≡◌, refl, sym, Bytes, IsByte, ascii,
  true, false, ltb, ltb→lt, ltb→le, ◌==◌, Bool-cases, inl, inr, ap, ◌∙◌, lt→ltb, ==_iff, length,
  from_le_bytes, All, [], ◌∷◌, ◌++◌, arith,
}
use native.Mathlib.Nat.{two-pow-succ}
use rsadb.Error.{Result, ok, ◌>>=◌}
use rsadb.Text.White.{IsWordByte}
use rsadb.Auth.Rsa.{BigUint, PublicKeys, Base64}
use rsadb.Auth.Pubkey.{
  n0inv, encode, decode, encode_line, decode_line, layout, padded, modulus_bytes, to_le_padded,
  montgomery_square, exponent,
}
use rsadb.Auth.Pubkey.Montgomery.{n0inv-IsInverse}
use rsadb.Auth.Pubkey.RoundTrip.{decode-encode_key, decode_line-encode_line}

n0inv-IsInverse_example :
    ((0x1234_5679 * n0inv 0x1234_5679) % 2 ^ 32 ≡ 2 ^ 32 - 1) × IsU32 (n0inv 0x1234_5679)
n0inv-IsInverse_example = n0inv-IsInverse 0x1234_5679 refl

-- The bytes of a number, as few as it needs; fuel for every unit of it is enough.
bytes_of : ℕ → ℕ → Bytes
bytes_of zero n = n ∷ []
bytes_of (suc fuel) n = elim (ltb n 256) [
  | true ↦ n ∷ []
  | false ↦ n % 256 ∷ bytes_of fuel (n / 256)
]

bytes_of-value : (fuel n : ℕ) → from_le_bytes (bytes_of fuel n) ≡ n
unfolding bytes_of
bytes_of-value zero n = omega arith
bytes_of-value (suc fuel) n = elim (Bool-cases (ltb n 256)) [
  | inl small ↦ rw (bytes_of, small) (omega arith)
  | inr big ↦ rw (bytes_of, big) (omega (arith, bytes_of-value fuel (n / 256)))
]

bytes_of-IsByte : (fuel n : ℕ) → n ≤ fuel → All IsByte (bytes_of fuel n)
unfolding bytes_of
bytes_of-IsByte zero n h = (omega arith, tt)
bytes_of-IsByte (suc fuel) n h = elim (Bool-cases (ltb n 256)) [
  | inl small ↦ rw (bytes_of, small) (ltb→lt n 256 small, tt)
  | inr big ↦
      rw (bytes_of, big)
        (omega arith, bytes_of-IsByte fuel (n / 256) (omega (arith, ltb→le n 256 big)))
]

doubled : (j : ℕ) → 2 ^ suc (suc (suc (suc (suc (suc (suc (suc j))))))) ≡ 256 * 2 ^ j
doubled j = omega (
  arith,
  two-pow-succ j,
  two-pow-succ (suc j),
  two-pow-succ (suc (suc j)),
  two-pow-succ (suc (suc (suc j))),
  two-pow-succ (suc (suc (suc (suc j)))),
  two-pow-succ (suc (suc (suc (suc (suc j))))),
  two-pow-succ (suc (suc (suc (suc (suc (suc j)))))),
  two-pow-succ (suc (suc (suc (suc (suc (suc (suc j))))))),
)

eight_bits : (k : ℕ) → 2 ^ (8 * suc k) ≡ 256 * 2 ^ (8 * k)
eight_bits k =
    ap (λ e. 2 ^ e) {x = 8 * suc k} {y = suc (suc (suc (suc (suc (suc (suc (suc (8 * k))))))))}
      (omega arith)
    ∙ doubled (8 * k)

length-bytes_of : (fuel n k : ℕ) → n ≤ fuel → 0 < k → n < 2 ^ (8 * k) → length (bytes_of fuel n) ≤ k
unfolding bytes_of
length-bytes_of zero n k h p l = omega arith
length-bytes_of (suc fuel) n zero h p l = absurd (omega arith)
length-bytes_of (suc fuel) n (suc zero) h p l = rw (bytes_of, lt→ltb n 256 l) (omega arith)
length-bytes_of (suc fuel) n (suc (suc k)) h p l = elim (Bool-cases (ltb n 256)) [
  | inl small ↦ rw (bytes_of, small) (omega arith)
  | inr big ↦
      rw (bytes_of, big)
        (omega (
          arith,
          ltb→le n 256 big,
          length-bytes_of fuel (n / 256) (suc k) (omega (arith, ltb→le n 256 big)) (omega arith)
              (omega (arith, eight_bits (suc k))),
        ))
]

bits_of : ℕ → ℕ → ℕ
bits_of zero n = 0
bits_of (suc fuel) n = elim (n == 0) [ true ↦ 0 | false ↦ suc (bits_of fuel (n / 2)) ]

nonzero : (n : ℕ) → (n == 0) ≡ false → 0 < n
nonzero n h = ground arith

bits_of_lem : (fuel n : ℕ) → n ≤ fuel → n < 2 ^ bits_of fuel n
unfolding bits_of
bits_of_lem zero n h = omega arith
bits_of_lem (suc fuel) n h = elim (Bool-cases (n == 0)) [
  | inl zero_eq ↦ rw (bits_of, zero_eq) (omega (arith, (==_iff n 0).0 zero_eq))
  | inr other ↦
      rw (bits_of, other)
        (omega (
          arith,
          two-pow-succ (bits_of fuel (n / 2)),
          bits_of_lem fuel (n / 2) (omega (arith, nonzero n other)),
        ))
]

abbrev integers : BigUint
integers = record {
  Number = ℕ;
  value = λ n. n;
  bits = λ n. bits_of n n;
  to_bytes_le = λ n. bytes_of n n;
  from_bytes_le = from_le_bytes;
  from_u32 = λ n. n;
  shl = λ n k. n * 2 ^ k;
  mul = λ a b. a * b;
  rem = λ a b. a % b;
  value_injective = λ x y e. e;
  bits_lem = λ n. bits_of_lem n n (omega arith);
  to_bytes_le_lem = λ n. bytes_of-value n n;
  to_bytes_le-IsByte = λ n. bytes_of-IsByte n n (omega arith);
  length-to_bytes_le = λ n k p l. length-bytes_of n n k (omega arith) p l;
  from_bytes_le_lem = λ bs h. refl;
  from_u32_lem = λ n h. refl;
  shl_lem = λ n k. refl;
  mul_lem = λ a b. refl;
  rem_lem = λ a b h. refl;
}

same_pair :
    (x y : ℕ) (k : ℕ × ℕ) → ◌≡◌ {A = Result (ℕ × ℕ)} (ok (x, y)) (ok k) → (k.0 ≡ x) × (k.1 ≡ y)
same_pair x y k h =
    let same : (x, y) ≡ k = cc in
    (ap (λ (p : ℕ × ℕ). p.0) (sym same), ap (λ (p : ℕ × ℕ). p.1) (sym same))

abbrev keys : PublicKeys integers
keys = record {
  Key = ℕ × ℕ;
  n = λ k. k.0;
  e = λ k. k.1;
  new = λ x y. ok (x, y);
  new_lem = same_pair;
}

abbrev test_key : ℕ × ℕ
test_key = (2 ^ 2047 + 5, 65537)

abbrev test_bytes : Bytes
test_bytes =
    layout (padded modulus_bytes (bytes_of test_key.0 test_key.0))
      (padded modulus_bytes
        (bytes_of (2 ^ 2048 * 2 ^ 2048 % test_key.0) (2 ^ 2048 * 2 ^ 2048 % test_key.0)))
      65537

test_key_encoded : encode integers keys test_key ≡ ok test_bytes
unfolding encode to_le_padded montgomery_square exponent bytes_of bits_of
test_key_encoded = refl

-- Two letters for a byte.
letters : Bytes → Bytes
letters [] = []
letters (b ∷ bs) = (b'a' + b / 16 % 16) ∷ (b'a' + b % 16) ∷ letters bs

bytes_back : Bytes → Result Bytes
bytes_back (a ∷ b ∷ s) = bytes_back s >>= λ bs. ok (((a - b'a') * 16 + (b - b'a')) ∷ bs)
bytes_back _ = ok []

bytes_back-letters : (bs : Bytes) → All IsByte bs → bytes_back (letters bs) ≡ ok bs
unfolding bytes_back letters
bytes_back-letters [] h = refl
bytes_back-letters (b ∷ bs) (h, hs) =
    ap (λ r. r >>= λ t. ok (((b'a' + b / 16 % 16 - b'a') * 16 + (b'a' + b % 16 - b'a')) ∷ t))
      (bytes_back-letters bs hs)
    ∙ ap (λ x. ok (x ∷ bs)) (omega arith)

letters-IsWordByte : (bs : Bytes) → All IsWordByte (letters bs)
unfolding letters
letters-IsWordByte [] = tt
letters-IsWordByte (b ∷ bs) =
    ((omega arith, ground arith), ((omega arith, ground arith), letters-IsWordByte bs))

letters_nonempty : (bs : Bytes) → letters bs ≡ [] → bs ≡ []
unfolding letters
letters_nonempty [] h = refl
letters_nonempty (b ∷ bs) h = cc

abbrev engine : Base64
engine = record {
  encode = letters;
  decode = bytes_back;
  decode-encode = bytes_back-letters;
  encode-IsWordByte = letters-IsWordByte;
  encode_nonempty = letters_nonempty;
}

decode-encode_key_example : decode integers keys test_bytes ≡ ok test_key
decode-encode_key_example =
    decode-encode_key integers keys test_key test_bytes test_key_encoded refl

abbrev test_line : Bytes
test_line = letters test_bytes ++ (b' ' ∷ ascii "me@host")

test_line_encoded : encode_line integers keys engine test_key (ascii "me@host") ≡ ok test_line
unfolding encode_line
test_line_encoded =
    ap (λ r. r >>= λ bytes. ok (letters bytes ++ (b' ' ∷ ascii "me@host"))) test_key_encoded

decode_line-encode_line_example : decode_line integers keys engine test_line ≡ ok test_key
decode_line-encode_line_example =
    decode_line-encode_line integers keys test_key test_bytes test_key_encoded engine
      (ascii "me@host") test_line refl test_line_encoded
