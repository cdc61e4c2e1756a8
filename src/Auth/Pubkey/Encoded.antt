-- ===== src/Auth/Pubkey/Encoded.antt =====
-- What an encoded key of src/auth/pubkey.rs holds.
use rsadb.Base.{
  ℕ, zero, suc, ◌-◌, ◌*◌, ◌%◌, ◌≤◌, ◌≡◌, refl, sym, ap, subst, ◌∙◌, Bytes, IsByte, IsU32, not, ltb,
  ltb→le, ◌==◌, length, length-append, from_le_bytes, All, [], ◌∷◌, ◌++◌, arith,
}
use rsadb.Error.{
  ok, key, modulus_even, modulus_bits, value_too_long, exponent_too_long, ◌>>=◌, bind_ok, guard_ok,
}
use rsadb.Auth.Rsa.{BigUint, PublicKeys}
use rsadb.Auth.Pubkey.{
  modulus_bytes, zeros, padded, to_le_padded, montgomery_square, exponent, layout, encode_parts,
  encode_odd, encode,
}

length-zeros : (n : ℕ) → length (zeros n) ≡ n
length-zeros zero = refl
length-zeros (suc n) = omega (arith, length-zeros n)

pub length-padded : (n : ℕ) (bs : Bytes) → length bs ≤ n → length (padded n bs) ≡ n
length-padded n bs h =
    omega (arith, length-append bs (zeros (n - length bs)), length-zeros (n - length bs))

from_le_bytes-zeros : (n : ℕ) → from_le_bytes (zeros n) ≡ 0
from_le_bytes-zeros zero = refl
from_le_bytes-zeros (suc n) = omega (arith, from_le_bytes-zeros n)

pub from_le_bytes-padded : (bs : Bytes) (n : ℕ) → from_le_bytes (bs ++ zeros n) ≡ from_le_bytes bs
from_le_bytes-padded [] n = from_le_bytes-zeros n
from_le_bytes-padded (b ∷ bs) n = omega (arith, from_le_bytes-padded bs n)

pub zeros-IsByte : (n : ℕ) → All IsByte (zeros n)
zeros-IsByte zero = tt
zeros-IsByte (suc n) = (omega arith, zeros-IsByte n)

pub four_bytes-IsU32 : (bs : Bytes) → All IsByte bs → length bs ≤ 4 → IsU32 (from_le_bytes bs)
four_bytes-IsU32 [] h l = omega arith
four_bytes-IsU32 (a ∷ []) h l = omega arith
four_bytes-IsU32 (a ∷ b ∷ []) h l = omega arith
four_bytes-IsU32 (a ∷ b ∷ c ∷ []) h l = omega arith
four_bytes-IsU32 (a ∷ b ∷ c ∷ d ∷ []) h l = omega arith
four_bytes-IsU32 (a ∷ b ∷ c ∷ d ∷ e ∷ bs) h l = absurd (omega arith)

module _ (B : BigUint) (P : PublicKeys B) where
  open P use {Key, n, e, new}
  open B use {value, to_bytes_le}

  abbrev pub modulus : Key → Bytes
  modulus k = to_bytes_le (n k)

  abbrev pub square : Key → Bytes
  square k = to_bytes_le (montgomery_square B (n k))

  abbrev pub exponent_bytes : Key → Bytes
  exponent_bytes k = to_bytes_le (e k)

  -- What an encoded key went through, and what it holds.
  pub record IsWritten (k : Key) (b : Bytes) : Type 0 where
    pub odd : from_le_bytes (modulus k) % 2 ≡ 1
    pub modulus_fits : length (modulus k) ≤ modulus_bytes
    pub square_fits : length (square k) ≤ modulus_bytes
    pub exponent_fits : length (exponent_bytes k) ≤ 4
    pub bytes_eq :
        b
        ≡ layout
            (padded modulus_bytes (modulus k))
            (padded modulus_bytes (square k))
            (from_le_bytes (padded 4 (exponent_bytes k)))

  to_le_padded_ok :
      (x : B.Number) (bs : Bytes)
      → to_le_padded B x ≡ ok bs
      → (length (to_bytes_le x) ≤ modulus_bytes) × (padded modulus_bytes (to_bytes_le x) ≡ bs)
  unfolding to_le_padded
  to_le_padded_ok x bs h =
      let (small, found) =
        guard_ok (ltb modulus_bytes (length (to_bytes_le x)))
          (key (value_too_long (length (to_bytes_le x))))
          (ok (padded modulus_bytes (to_bytes_le x))) bs h in
      (ltb→le modulus_bytes (length (to_bytes_le x)) small, cc)

  exponent_ok :
      (x : B.Number) (m : ℕ)
      → exponent B x ≡ ok m
      → (length (to_bytes_le x) ≤ 4) × (from_le_bytes (padded 4 (to_bytes_le x)) ≡ m)
  unfolding exponent
  exponent_ok x m h =
      let (small, found) =
        guard_ok (ltb 4 (length (to_bytes_le x))) (key exponent_too_long)
          (ok (from_le_bytes (padded 4 (to_bytes_le x)))) m h in
      (ltb→le 4 (length (to_bytes_le x)) small, cc)

  parts-IsWritten :
      (k : Key) (b : Bytes)
      → from_le_bytes (modulus k) % 2 ≡ 1
      → encode_parts B P k ≡ ok b
      → IsWritten k b
  unfolding encode_parts
  parts-IsWritten k b odd h =
      let (n_le, hn, h1) =
        bind_ok (to_le_padded B (n k))
          (λ n_le. to_le_padded B (montgomery_square B (n k)) >>= λ rr.
            exponent B (e k) >>= λ m. ok (layout n_le rr m))
          b h in
      let (rr, hr, h2) =
        bind_ok (to_le_padded B (montgomery_square B (n k)))
          (λ rr. exponent B (e k) >>= λ m. ok (layout n_le rr m)) b h1 in
      let (m, hm, h3) = bind_ok (exponent B (e k)) (λ m. ok (layout n_le rr m)) b h2 in
      let (fits, en) = to_le_padded_ok (n k) n_le hn in
      let (square, er) = to_le_padded_ok (montgomery_square B (n k)) rr hr in
      let (small, em) = exponent_ok (e k) m hm in
      let built : layout n_le rr m ≡ b = cc in
      record {
        odd = odd;
        modulus_fits = fits;
        square_fits = square;
        exponent_fits = small;
        bytes_eq =
            sym built
            ∙ ap (λ x. layout x rr m) (sym en)
            ∙ ap (λ x. layout (padded modulus_bytes (modulus k)) x m) (sym er)
            ∙ ap
                (layout (padded modulus_bytes (modulus k))
                  (padded modulus_bytes (to_bytes_le (montgomery_square B (n k)))))
                (sym em);
      }

  odd-IsWritten :
      (k : Key) (b : Bytes) (bs : Bytes)
      → bs ≡ modulus k
      → encode_odd B P k bs ≡ ok b
      → IsWritten k b
  unfolding encode_odd
  odd-IsWritten k b [] eq h = cc
  odd-IsWritten k b (c ∷ bs) eq h =
      let (odd, found) = guard_ok (c % 2 == 0) (key modulus_even) (encode_parts B P k) b h in
      parts-IsWritten k b (subst (λ x. from_le_bytes x % 2 ≡ 1) eq (ground arith)) found

  pub encode-IsWritten : (k : Key) (b : Bytes) → encode B P k ≡ ok b → IsWritten k b
  unfolding encode
  encode-IsWritten k b h =
      let (_, found) =
        guard_ok (not (B.bits (n k) == modulus_bytes * 8)) (key (modulus_bits (B.bits (n k))))
          (encode_odd B P k (modulus k)) b h in
      odd-IsWritten k b (modulus k) refl found
