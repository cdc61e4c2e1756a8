-- ===== src/Text/Decimal/Laws.antt =====
-- The decimal text of a number, parsed.
use rsadb.Base.{
  ℕ, zero, suc, ◌+◌, ◌*◌, ◌/◌, ◌%◌, ◌≤◌, ◌<◌, ◌≡◌, ◌≢◌, refl, ap, ◌∙◌, Bytes, All, All-append, ltb,
  if_holds, ltb→le, ltb→lt, Option, some, [], ◌∷◌, ◌++◌, arith,
}
use rsadb.Text.Decimal.{
  digits, decimal, digit_value, add_digit, digits_value, some_digits, parse_unsigned,
}

digits_value-append :
    (bound : ℕ) (o : Option ℕ) (xs ys : Bytes)
    → digits_value bound o (xs ++ ys) ≡ digits_value bound (digits_value bound o xs) ys
unfolding digits_value
digits_value-append bound o [] ys = refl
digits_value-append bound o (x ∷ xs) ys = digits_value-append bound (add_digit bound o x) xs ys

add_digit_lem :
    (bound m d : ℕ)
    → d < 10
    → m * 10 + d ≤ bound
    → add_digit bound (some m) (b'0' + d) ≡ some (m * 10 + d)
unfolding add_digit digit_value
add_digit_lem bound m d h k = ground arith

digits_lem :
    (bound fuel n : ℕ) → n < fuel → n ≤ bound → digits_value bound (some 0) (digits fuel n) ≡ some n
unfolding digits
digits_lem bound zero n h k = absurd (omega arith)
digits_lem bound (suc fuel) n h k =
    if_holds (λ s. digits_value bound (some 0) s ≡ some n) (ltb n 10) ((b'0' + n) ∷ [])
      (digits fuel (n / 10) ++ ((b'0' + n % 10) ∷ []))
      (λ small.
        unfold digits_value in
        add_digit_lem bound 0 n (ltb→lt n 10 small) (omega arith) ∙ ap some (omega arith))
      (λ large.
        let much : 10 ≤ n = ltb→le n 10 large in
        digits_value-append bound (some 0) (digits fuel (n / 10)) ((b'0' + n % 10) ∷ [])
        ∙ (rw (digits_lem bound fuel (n / 10) (omega (arith, much)) (omega arith)) (
            unfold digits_value in
            (add_digit_lem bound (n / 10) (n % 10) (omega arith) (omega arith)
              ∙ ap some (omega arith)))))

-- The digits of a decimal text.
abbrev pub IsDigit : ℕ → Type 0
IsDigit c = (b'0' ≤ c) × (c ≤ b'9')

digits-IsDigit : (fuel n : ℕ) → All IsDigit (digits fuel n)
unfolding digits
digits-IsDigit zero n = tt
digits-IsDigit (suc fuel) n =
    if_holds (All IsDigit) (ltb n 10) ((b'0' + n) ∷ [])
      (digits fuel (n / 10) ++ ((b'0' + n % 10) ∷ []))
      (λ small. let few : n < 10 = ltb→lt n 10 small in ((omega arith, omega (arith, few)), tt))
      (λ _.
        All-append IsDigit (digits fuel (n / 10)) ((b'0' + n % 10) ∷ [])
          (digits-IsDigit fuel (n / 10)) ((omega arith, omega arith), tt))

pub decimal-IsDigit : (n : ℕ) → All IsDigit (decimal n)
unfolding decimal
decimal-IsDigit n = digits-IsDigit (suc n) n

digits_nonempty : (fuel n : ℕ) → digits (suc fuel) n ≢ []
unfolding digits
digits_nonempty fuel n =
    if_holds (λ s. s ≢ []) (ltb n 10) ((b'0' + n) ∷ [])
      (digits fuel (n / 10) ++ ((b'0' + n % 10) ∷ [])) (λ _ e. cc)
      (λ _ e. nonempty (digits fuel (n / 10)) (b'0' + n % 10) e)
  where
    nonempty : (xs : Bytes) (x : ℕ) → xs ++ (x ∷ []) ≢ []
    nonempty [] x e = cc
    nonempty (y ∷ xs) x e = cc

pub decimal_nonempty : (n : ℕ) → decimal n ≢ []
unfolding decimal
decimal_nonempty n = digits_nonempty n n

-- Digits without a sign in front.
unsigned_digits :
    (bound : ℕ) (s : Bytes)
    → s ≢ []
    → All IsDigit s
    → parse_unsigned bound s ≡ digits_value bound (some 0) s
unfolding parse_unsigned some_digits
unsigned_digits bound [] ne h = absurd (ne refl)
unsigned_digits bound (c ∷ s) ne (h, hs) = ground arith

pub parse_unsigned-decimal : (bound n : ℕ) → n ≤ bound → parse_unsigned bound (decimal n) ≡ some n
parse_unsigned-decimal bound n h =
    unsigned_digits bound (decimal n) (decimal_nonempty n) (decimal-IsDigit n)
    ∙ (unfold decimal in digits_lem bound (suc n) n (omega arith) h)
