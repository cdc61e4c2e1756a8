-- ===== src/Auth/Pubkey/RoundTrip.antt =====
-- The encoded key and the key of src/auth/pubkey.rs.
use rsadb.Base.{
  ℕ, ◌+◌, ◌-◌, ◌*◌, ◌%◌, ◌^◌, ◌≡◌, refl, sym, ap, subst, ◌∙◌, Bytes, IsByte, IsU32, bytes_eq_refl,
  ==_iff, length, length-append, take, drop, take-append_le, to_le_bytes-IsByte, cut_at, drop-drop,
  u32_le, from_le_bytes, from_le_bytes-u32_le, All, All-append, [], ◌∷◌, ◌++◌, arith,
}
use native.Mathlib.Nat.{mul_comm}
use rsadb.Error.{ok, ◌>>=◌, bind_ok}
use rsadb.Auth.Rsa.{BigUint, PublicKeys, Base64}
use rsadb.Auth.Pubkey.{
  n0inv, modulus_bytes, modulus_words, encoded_len, padded, zeros, montgomery_square, layout,
  encode, decode_fields, decode, encode_line, decode_first, decode_line,
}
use rsadb.Auth.Pubkey.Montgomery.{n0inv-IsInverse}
use rsadb.Auth.Pubkey.Encoded.{
  IsWritten, modulus, square, exponent_bytes, encode-IsWritten, length-padded, from_le_bytes-padded,
  zeros-IsByte, four_bytes-IsU32,
}
use rsadb.Text.White.{split_whitespace, split_whitespace-word}

length-layout :
    (x y : Bytes) (m : ℕ)
    → length x ≡ modulus_bytes
    → length y ≡ modulus_bytes
    → length (layout x y m) ≡ encoded_len
length-layout x y m hx hy =
    omega (arith, length-append x (y ++ u32_le m), length-append y (u32_le m))

layout-modulus :
    (x y : Bytes) (m : ℕ)
    → length x ≡ modulus_bytes
    → take modulus_bytes (drop 8 (layout x y m)) ≡ x
layout-modulus x y m hx = (cut_at modulus_bytes x (y ++ u32_le m) refl (sym hx)).0

layout-exponent :
    (x y : Bytes) (m : ℕ)
    → length x ≡ modulus_bytes
    → length y ≡ modulus_bytes
    → take 4 (drop (8 + 2 * modulus_bytes) (layout x y m)) ≡ u32_le m
layout-exponent x y m hx hy = ap (take 4) (
    sym (drop-drop modulus_bytes modulus_bytes (2 * modulus_bytes) (x ++ (y ++ u32_le m)) refl)
    ∙ ap (drop modulus_bytes) ((cut_at modulus_bytes x (y ++ u32_le m) refl (sym hx)).1)
    ∙ (cut_at modulus_bytes y (u32_le m) refl (sym hy)).1)

module _ (B : BigUint) (P : PublicKeys B) (k : P.Key) (b : Bytes) (w : IsWritten B P k b) where
  abbrev n_le : Bytes
  n_le = padded modulus_bytes (modulus B P k)

  abbrev rr : Bytes
  rr = padded modulus_bytes (square B P k)

  abbrev exp : ℕ
  exp = from_le_bytes (padded 4 (exponent_bytes B P k))

  length-n_le : length n_le ≡ modulus_bytes
  length-n_le = length-padded modulus_bytes (modulus B P k) w.modulus_fits

  length-rr : length rr ≡ modulus_bytes
  length-rr = length-padded modulus_bytes (square B P k) w.square_fits

  number_back : B.from_bytes_le n_le ≡ P.n k
  number_back = B.value_injective (B.from_bytes_le n_le) (P.n k) (
      B.from_bytes_le_lem n_le (
        All-append IsByte (modulus B P k) (zeros (modulus_bytes - length (modulus B P k)))
          (B.to_bytes_le-IsByte (P.n k)) (zeros-IsByte (modulus_bytes - length (modulus B P k))))
      ∙ from_le_bytes-padded (modulus B P k) (modulus_bytes - length (modulus B P k))
      ∙ B.to_bytes_le_lem (P.n k))

  exp_value : exp ≡ B.value (P.e k)
  exp_value =
      from_le_bytes-padded (exponent_bytes B P k) (4 - length (exponent_bytes B P k))
      ∙ B.to_bytes_le_lem (P.e k)

  exp-IsU32 : IsU32 exp
  exp-IsU32 =
      subst IsU32
        (sym (from_le_bytes-padded (exponent_bytes B P k) (4 - length (exponent_bytes B P k))))
        (four_bytes-IsU32 (exponent_bytes B P k) (B.to_bytes_le-IsByte (P.e k)) w.exponent_fits)

  exponent_back : B.from_u32 exp ≡ P.e k
  exponent_back =
      B.value_injective (B.from_u32 exp) (P.e k) (B.from_u32_lem exp exp-IsU32 ∙ exp_value)

  read_modulus : B.from_bytes_le (take modulus_bytes (drop 8 b)) ≡ P.n k
  read_modulus =
      ap (λ x. B.from_bytes_le (take modulus_bytes (drop 8 x))) w.bytes_eq
      ∙ ap B.from_bytes_le (layout-modulus n_le rr exp length-n_le)
      ∙ number_back

  read_exponent : B.from_u32 (from_le_bytes (take 4 (drop (8 + 2 * modulus_bytes) b))) ≡ P.e k
  read_exponent =
      ap (λ x. B.from_u32 (from_le_bytes (take 4 (drop (8 + 2 * modulus_bytes) x)))) w.bytes_eq
      ∙ ap (λ x. B.from_u32 (from_le_bytes x)) (layout-exponent n_le rr exp length-n_le length-rr)
      ∙ ap B.from_u32 (from_le_bytes-u32_le exp exp-IsU32)
      ∙ exponent_back

  length_written : length b ≡ encoded_len
  length_written = ap length w.bytes_eq ∙ length-layout n_le rr exp length-n_le length-rr

  words_written : from_le_bytes (take 4 b) ≡ modulus_words
  words_written = ap (λ x. from_le_bytes (take 4 x)) w.bytes_eq

padded-IsByte : (m : ℕ) (bs : Bytes) → All IsByte bs → All IsByte (padded m bs)
padded-IsByte m bs h = All-append IsByte bs (zeros (m - length bs)) h (zeros-IsByte (m - length bs))

layout-IsByte : (x y : Bytes) (m : ℕ) → All IsByte x → All IsByte y → All IsByte (layout x y m)
layout-IsByte x y m hx hy =
    All-append IsByte (u32_le modulus_words)
      (u32_le (n0inv (from_le_bytes (take 4 x))) ++ (x ++ (y ++ u32_le m)))
      (to_le_bytes-IsByte 4 modulus_words)
      (All-append IsByte (u32_le (n0inv (from_le_bytes (take 4 x)))) (x ++ (y ++ u32_le m))
        (to_le_bytes-IsByte 4 (n0inv (from_le_bytes (take 4 x))))
        (All-append IsByte x (y ++ u32_le m) hx
          (All-append IsByte y (u32_le m) hy (to_le_bytes-IsByte 4 m))))

parity-take : (bs : Bytes) → from_le_bytes (take 4 bs) % 2 ≡ from_le_bytes bs % 2
parity-take [] = refl
parity-take (b ∷ bs) = omega arith

product_swap :
    {p q i l : ℕ} → p ≡ i → q ≡ l → (l * i) % 2 ^ 32 ≡ 2 ^ 32 - 1 → (p * q) % 2 ^ 32 ≡ 2 ^ 32 - 1
product_swap {p} {q} {i} {l} hp hq h = rw (hp, hq, mul_comm i l) h

module _ (B : BigUint) (P : PublicKeys B) (k : P.Key) (b : Bytes)
    (written : encode B P k ≡ ok b) where
  abbrev w : IsWritten B P k b
  w = encode-IsWritten B P k b written

  decode_fields-encode : P.new (P.n k) (P.e k) ≡ ok k → decode_fields B P b ≡ ok k
  unfolding decode_fields
  decode_fields-encode valid =
      rw (read_modulus B P k b w, read_exponent B P k b w, valid, written, bytes_eq_refl b) refl

  -- Where `encode` gives bytes for a key, and `RsaPublicKey::new` accepts the key's two numbers,
  -- `decode` gives the key back from the bytes.
  pub decode-encode_key : P.new (P.n k) (P.e k) ≡ ok k → decode B P b ≡ ok k
  unfolding decode
  decode-encode_key valid =
      rw
        (
          (==_iff (length b) encoded_len).1 (length_written B P k b w),
          (==_iff (from_le_bytes (take 4 b)) modulus_words).1 (words_written B P k b w),
        )
        (decode_fields-encode valid)

  encoded-IsByte : All IsByte b
  encoded-IsByte = subst (All IsByte) (sym w.bytes_eq) (
      layout-IsByte (n_le B P k b w) (rr B P k b w) (exp B P k b w)
        (padded-IsByte modulus_bytes (modulus B P k) (B.to_bytes_le-IsByte (P.n k)))
        (padded-IsByte modulus_bytes (square B P k)
          (B.to_bytes_le-IsByte (montgomery_square B (P.n k)))))

  -- The constant behind the length in an encoded key is the negated inverse of the modulus's low
  -- word: their product is 2^32 - 1 modulo 2^32.
  pub encode-IsInverse :
      (from_le_bytes (take 4 (drop 4 b)) * from_le_bytes (take 4 (drop 8 b))) % 2 ^ 32 ≡ 2 ^ 32 - 1
  encode-IsInverse =
      let low : ℕ = from_le_bytes (take 4 (n_le B P k b w)) in
      let odd : low % 2 ≡ 1 =
        parity-take (n_le B P k b w)
        ∙ ap (λ x. x % 2)
            (from_le_bytes-padded (modulus B P k) (modulus_bytes - length (modulus B P k)))
        ∙ w.odd in
      let (product, small) = n0inv-IsInverse low odd in
      let inverse =
        ap (λ x. from_le_bytes (take 4 (drop 4 x))) w.bytes_eq
        ∙ from_le_bytes-u32_le (n0inv low) small in
      let word =
        ap (λ x. from_le_bytes (take 4 (drop 8 x))) w.bytes_eq
        ∙ ap from_le_bytes (
            take-append_le 4 (n_le B P k b w) (rr B P k b w ++ u32_le (exp B P k b w))
              (omega (arith, length-n_le B P k b w))) in
      product_swap inverse word product

  module _ (S : Base64) where
    -- Where `encode` gives bytes for a key, and `RsaPublicKey::new` accepts the key's two numbers, the
    -- key is decoded from the line that `encode_line` writes for it, whatever the comment is.
    pub decode_line-encode_line :
        (comment line : Bytes)
        → P.new (P.n k) (P.e k) ≡ ok k
        → encode_line B P S k comment ≡ ok line
        → decode_line B P S line ≡ ok k
    unfolding encode_line decode_line decode_first
    decode_line-encode_line comment line valid h =
        let word : Bytes = S.encode b in
        let (c, hc, hl) =
          bind_ok (encode B P k) (λ bytes. ok (S.encode bytes ++ (b' ' ∷ comment))) line h in
        let same : line ≡ word ++ (b' ' ∷ comment) = cc in
        let full = λ (e : word ≡ []).
          absurd (omega (arith, ap length (S.encode_nonempty b e), length_written B P k b w)) in
        ap (decode_first B P S) (
          ap split_whitespace same
          ∙ split_whitespace-word word comment full (S.encode-IsWordByte b))
        ∙ ap (λ r. r >>= decode B P) (S.decode-encode b encoded-IsByte)
        ∙ decode-encode_key valid
