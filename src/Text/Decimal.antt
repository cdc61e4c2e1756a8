-- ===== src/Text/Decimal.antt =====
-- The decimal text of a number, as `{}` writes it, and the parse of one by `str::parse`.
pub mod Laws
use rsadb.Base.{
  ℕ, zero, suc, ◌+◌, ◌/◌, ◌%◌, ◌*◌, Bytes, ltb, leb, ◌&&◌, ◌==◌, ◌-◌, Option, none, some,
  if◌then◌else◌, [], ◌∷◌, ◌++◌,
}

abbrev pub u16_max : ℕ
u16_max = 0xFFFF

-- A step divides by ten, so the number is fuel enough.
digits : ℕ → ℕ → Bytes
digits zero n = []
digits (suc fuel) n =
    let front = digits fuel (n / 10) in
    if ltb n 10 then (b'0' + n) ∷ [] else front ++ ((b'0' + n % 10) ∷ [])

unfoldable pub decimal : ℕ → Bytes
unfolding digits
decimal n = digits (suc n) n

unfoldable pub digit_value : ℕ → Option ℕ
digit_value c = if leb b'0' c && leb c b'9' then some (c - b'0') else none

-- The digits behind those that have given `n`; none beyond the bound.
pub add_digit : ℕ → Option ℕ → ℕ → Option ℕ
unfolding digit_value
add_digit bound none c = none
add_digit bound (some n) c = elim (digit_value c) [
  | none ↦ none
  | some d ↦ if ltb bound (n * 10 + d) then none else some (n * 10 + d)
]

pub digits_value : ℕ → Option ℕ → Bytes → Option ℕ
unfolding add_digit
digits_value bound n [] = n
digits_value bound n (c ∷ s) = digits_value bound (add_digit bound n c) s

pub some_digits : ℕ → Bytes → Option ℕ
unfolding digits_value
some_digits bound [] = none
some_digits bound (c ∷ s) = digits_value bound (some 0) (c ∷ s)

-- `parse` of an unsigned type with that bound: one `+` may stand in front.
unfoldable pub parse_unsigned : ℕ → Bytes → Option ℕ
unfolding some_digits
parse_unsigned bound [] = none
parse_unsigned bound (c ∷ s) = if c == b'+' then some_digits bound s else some_digits bound (c ∷ s)
