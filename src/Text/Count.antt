-- ===== src/Text/Count.antt =====
-- How often a byte stands in a text, and what `rsplit_once` takes away.
use rsadb.Base.{
  ℕ, ◌+◌, ◌≡◌, refl, Bytes, false, Bool-cases, inl, inr, ◌==◌, if◌then◌else◌, Option, none, some,
  [], ◌∷◌, arith,
}
use rsadb.Text.{rsplit_once, found_last, prepend, contains_byte}

-- How often a byte stands in a text.
unfoldable pub count : ℕ → Bytes → ℕ
count d [] = 0
count d (c ∷ s) = let rest = count d s in if c == d then rest + 1 else rest

-- `rsplit_once` takes away one occurrence, where there is one.
unfoldable pub IsSplit : ℕ → Bytes → Option (Bytes × Bytes) → Type 0
unfolding count
IsSplit d s none = count d s ≡ 0
IsSplit d s (some (front, back)) = count d s ≡ count d front + 1

found_last-IsSplit :
    (d c : ℕ) (s : Bytes) (o : Option (Bytes × Bytes))
    → IsSplit d s o
    → IsSplit d (c ∷ s) (found_last (c == d) c s o)
unfolding IsSplit count found_last prepend
found_last-IsSplit d c s none h = elim (Bool-cases (c == d)) [
  | inl e ↦ rw (e, e, h) (omega arith)
  | inr e ↦ rw (e, e) h
]
found_last-IsSplit d c s (some (front, back)) h = elim (Bool-cases (c == d)) [
  | inl e ↦ rw (e, h) (omega arith)
  | inr e ↦ rw e h
]

pub rsplit_once-IsSplit : (d : ℕ) (s : Bytes) → IsSplit d s (rsplit_once d s)
unfolding rsplit_once
rsplit_once-IsSplit d [] = unfold IsSplit count in refl
rsplit_once-IsSplit d (c ∷ s) = found_last-IsSplit d c s (rsplit_once d s) (rsplit_once-IsSplit d s)

pub count_absent : (d : ℕ) (s : Bytes) → contains_byte d s ≡ false → count d s ≡ 0
unfolding count contains_byte
count_absent d [] h = refl
count_absent d (c ∷ s) h = elim (Bool-cases (c == d)) [
  | inl e ↦ absurd (ground (arith, rw e at h))
  | inr e ↦ rw e (count_absent d s (rw e at h))
]
