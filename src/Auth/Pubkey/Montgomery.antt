-- ===== src/Auth/Pubkey/Montgomery.antt =====
-- The Newton iteration of `n0inv` in src/auth/pubkey.rs.
use rsadb.Base.{
  ℕ, zero, suc, ◌+◌, ◌-◌, ◌*◌, ◌/◌, ◌%◌, ◌^◌, ◌≤◌, ◌<◌, ◌≡◌, refl, ap, IsU32, arith, ltb,
  Bool-cases, inl, inr, ltb→lt, ltb→le,
}
use native.Mathlib.Nat.{mul-le-mul_right}
use rsadb.Auth.Pubkey.{newton, n0inv, wrapping_mul, wrapping_sub}

-- The number is 1 up to a multiple of `d`.
abbrev pub IsOne : ℕ → ℕ → Type 0
IsOne d b = (r : ℕ) × (b ≡ 1 + r * d)

-- The difference of the multiples, one way round or the other.
difference_eq :
    (b u v d k j : ℕ) → 1 < d → b + u * d ≡ 1 + v * d → u + k ≡ v + j → b + j * d ≡ 1 + k * d
difference_eq b u v d k j h e c = omega (arith, ap (λ (s : ℕ). s * d) c)

difference : (b u v d : ℕ) → 1 < d → b + u * d ≡ 1 + v * d → IsOne d b
difference b u v d h e = elim (Bool-cases (ltb v u)) [
  | inl less ↦
      let eq = difference_eq b u v d 0 (u - v) h e (omega (arith, ltb→lt v u less)) in
      let one : 1 ≤ u - v = omega (arith, ltb→lt v u less) in
      absurd (omega (arith, mul-le-mul_right d one))
  | inr more ↦
      let eq = difference_eq b u v d (v - u) 0 h e (omega (arith, ltb→le v u more)) in
      (v - u, omega arith)
]

-- One round on the plain numbers: from 1 up to a multiple of d to 1 up to a multiple of D, where D
-- divides d * d and the modulus.
round-IsOne :
    (d D e m M n x q y t w z : ℕ)
    → 1 < D
    → D * e ≡ d * d
    → D * m ≡ M
    → n * x ≡ 1 + q * d
    → y + n * x ≡ 2 + t * M
    → x * y ≡ z + w * M
    → IsOne D (n * z)
round-IsOne d D e m M n x q y t w z big hd hm hx hy hz =
    difference (n * z) (n * w * m + q * q * e) (n * x * t * m) D big (
      omega (
        arith,
        hx,
        ap (λ (s : ℕ). n * s) hz,
        ap (λ (s : ℕ). s * (n * x)) hy,
        ap (λ (s : ℕ). s * s) hx,
        ap (λ (s : ℕ). n * w * s) hm,
        ap (λ (s : ℕ). t * n * x * s) hm,
        ap (λ (s : ℕ). q * q * s) hd,
      ))

-- What `2 - a` wraps to, up to a multiple of the modulus.
sub_two :
    (a : ℕ)
    → wrapping_sub 2 (a % 2 ^ 32) + a
      ≡ 2 + (a / 2 ^ 32 + 1 - (2 + 2 ^ 32 - a % 2 ^ 32) / 2 ^ 32) * 2 ^ 32
sub_two a = omega arith

next_inv : ℕ → ℕ → ℕ
next_inv n x = wrapping_mul x (wrapping_sub 2 (wrapping_mul n x))

-- One round of the loop.
wrapped-IsOne :
    (d D e m n x : ℕ)
    → 1 < D
    → D * e ≡ d * d
    → D * m ≡ 2 ^ 32
    → IsOne d (n * x)
    → IsOne D (n * next_inv n x)
unfolding next_inv
wrapped-IsOne d D e m n x big hd hm (q, hx) =
    let y : ℕ = wrapping_sub 2 (wrapping_mul n x) in
    round-IsOne d D e m (2 ^ 32) n x q y
      (n * x / 2 ^ 32 + 1 - (2 + 2 ^ 32 - n * x % 2 ^ 32) / 2 ^ 32) (x * y / 2 ^ 32) (next_inv n x)
      big hd hm hx (sub_two (n * x)) (omega arith)

-- An odd square is 1 modulo 8.
square-IsOne : (n : ℕ) → n % 2 ≡ 1 → IsOne 8 (n * n)
square-IsOne n odd =
    let k : ℕ = n / 4 in
    let e : n ≡ 4 * k + n % 4 = omega arith in
    elim (Bool-cases (ltb (n % 4) 2)) [
      | inl low ↦ (
        2 * k * k + k,
        let f : n ≡ 4 * k + 1 = omega (arith, ltb→lt (n % 4) 2 low) in
            omega (arith, ap (λ (s : ℕ). s * s) f),
      )
      | inr high ↦ (
        2 * k * k + 3 * k + 1,
        let f : n ≡ 4 * k + 3 = omega (arith, ltb→le (n % 4) 2 high) in
            omega (arith, ap (λ (s : ℕ). s * s) f),
      )
    ]

newton-IsOne : (n : ℕ) → n % 2 ≡ 1 → IsOne (2 ^ 32) (n * newton 5 n n)
unfolding newton next_inv
newton-IsOne n odd =
    let a =
      wrapped-IsOne (2 ^ 3) (2 ^ 6) 1 (2 ^ 26) n n (omega arith) refl refl (square-IsOne n odd) in
    let b = wrapped-IsOne (2 ^ 6) (2 ^ 12) 1 (2 ^ 20) n _ (omega arith) refl refl a in
    let c = wrapped-IsOne (2 ^ 12) (2 ^ 24) 1 (2 ^ 8) n _ (omega arith) refl refl b in
    let d = wrapped-IsOne (2 ^ 24) (2 ^ 32) (2 ^ 16) 1 n _ (omega arith) refl refl c in
    wrapped-IsOne (2 ^ 32) (2 ^ 32) (2 ^ 32) 1 n _ (omega arith) refl refl d

newton-IsU32 : (k n x : ℕ) → IsU32 (newton (suc k) n x)
unfolding newton
newton-IsU32 zero n x = omega arith
newton-IsU32 (suc k) n x = newton-IsU32 k n _

negated :
    (n x r : ℕ)
    → x < 2 ^ 32
    → n * x ≡ 1 + r * 2 ^ 32
    → ((n * wrapping_sub 0 x) % 2 ^ 32 ≡ 2 ^ 32 - 1) × IsU32 (wrapping_sub 0 x)
negated n zero r small e = absurd (omega arith)
negated n (suc x) r small e =
    let z : ℕ = wrapping_sub 0 (suc x) in
    let sum : z + suc x ≡ 2 ^ 32 = omega arith in
    let product = ap (λ (s : ℕ). n * s) sum in
    let total : n * z + 1 + r * 2 ^ 32 ≡ n * 2 ^ 32 = omega arith in (omega arith, omega arith)

-- For an odd word, `n0inv` is the negated inverse modulo 2^32: the product of the two is 2^32 - 1, and
-- the result is a word.
pub n0inv-IsInverse : (n : ℕ) → n % 2 ≡ 1 → ((n * n0inv n) % 2 ^ 32 ≡ 2 ^ 32 - 1) × IsU32 (n0inv n)
unfolding n0inv
n0inv-IsInverse n odd =
    let x : ℕ = newton 5 n n in
    let (r, e) = newton-IsOne n odd in
    let small : x < 2 ^ 32 = newton-IsU32 4 n n in negated n x r small e
