-- ===== src/Text/Laws.antt =====
-- The laws of the string functions that the components share.
use rsadb.Base.{
  ℕ, ◌≡◌, ◌≢◌, refl, ap, ◌∙◌, Bytes, Bool, true, false, All, none, some, List, [], ◌∷◌, ◌++◌, arith,
}
use rsadb.Text.{
  strip_prefix, split_once, split, trim_end, non_empty, join, lines, lines_of, strip_return,
  starts_with, is_found,
}

-- A byte string without a given byte.
abbrev pub Without : ℕ → Bytes → Type 0
Without d = All (λ c. c ≢ d)

pub strip_prefix-append : (p s : Bytes) → strip_prefix p (p ++ s) ≡ some s
unfolding strip_prefix
strip_prefix-append [] s = refl
strip_prefix-append (c ∷ p) s = ground (arith, strip_prefix-append p s)

pub strip_prefix_ne :
    (d : ℕ) (p : Bytes) (c : ℕ) (s : Bytes) → c ≢ d → strip_prefix (d ∷ p) (c ∷ s) ≡ none
unfolding strip_prefix
strip_prefix_ne d p c s h = ground arith

-- The first occurrence is found where the text in front of it lacks the pattern's first byte.
pub split_once-append :
    (d : ℕ) (p xs ys : Bytes)
    → Without d xs
    → split_once (d ∷ p) (xs ++ ((d ∷ p) ++ ys)) ≡ some (xs, ys)
unfolding split_once
split_once-append d p [] ys h = rw (strip_prefix-append (d ∷ p) ys)
split_once-append d p (c ∷ xs) ys h =
    rw (strip_prefix_ne d p c (xs ++ ((d ∷ p) ++ ys)) h.0, split_once-append d p xs ys h.1)

pub split_once_absent : (d : ℕ) (p xs : Bytes) → Without d xs → split_once (d ∷ p) xs ≡ none
unfolding split_once
split_once_absent d p [] h = unfold strip_prefix in refl
split_once_absent d p (c ∷ xs) h = rw (strip_prefix_ne d p c xs h.0, split_once_absent d p xs h.1)

pub split_absent : (d : ℕ) (xs : Bytes) → Without d xs → split d xs ≡ xs ∷ []
unfolding split
split_absent d [] h = refl
split_absent d (c ∷ xs) h = ground (arith, split_absent d xs h.1, h.0)

pub split-append :
    (d : ℕ) (xs ys : Bytes) → Without d xs → split d (xs ++ (d ∷ ys)) ≡ xs ∷ split d ys
unfolding split
split-append d [] ys h = ground arith
split-append d (c ∷ xs) ys h = ground (arith, split-append d xs ys h.1, h.0)

-- `split` undoes `join` on pieces without the separator.
pub split-join :
    (d : ℕ) (p : Bytes) (ps : List Bytes)
    → All (Without d) (p ∷ ps)
    → split d (join (d ∷ []) (p ∷ ps)) ≡ p ∷ ps
unfolding join
split-join d p [] h = split_absent d p h.0
split-join d p (q ∷ ps) h =
    split-append d p (join (d ∷ []) (q ∷ ps)) h.0 ∙ ap (◌∷◌ p) (split-join d q ps h.1)

pub non_empty-cons : (p : Bytes) (ps : List Bytes) → p ≢ [] → non_empty (p ∷ ps) ≡ p ∷ non_empty ps
unfolding non_empty
non_empty-cons [] ps h = absurd (h refl)
non_empty-cons (c ∷ p) ps h = refl

pub non_empty-All : (ps : List Bytes) → All (λ p. p ≢ []) ps → non_empty ps ≡ ps
unfolding non_empty
non_empty-All [] h = refl
non_empty-All ([] ∷ ps) h = absurd (h.0 refl)
non_empty-All ((c ∷ p) ∷ ps) h = rw (non_empty-All ps h.1)

-- Text with no byte to trim is unchanged.
pub trim_end_absent : (p : ℕ → Bool) (xs : Bytes) → All (λ c. p c ≡ false) xs → trim_end p xs ≡ xs
unfolding trim_end
trim_end_absent p [] h = refl
trim_end_absent p (c ∷ xs) h = rw (h.0, trim_end_absent p xs h.1)

abbrev pub print_lines : List Bytes → Bytes
print_lines [] = []
print_lines (l ∷ ls) = l ++ (b'\n' ∷ print_lines ls)

-- No line end inside.
abbrev pub IsLine : Bytes → Type 0
IsLine l = Without b'\n' l × Without b'\r' l

strip_return_absent : (l : Bytes) → Without b'\r' l → strip_return l ≡ l
unfolding strip_return
strip_return_absent [] h = refl
strip_return_absent (c ∷ []) h = ground (arith, h.0)
strip_return_absent (c ∷ d ∷ l) h = ap (◌∷◌ c) (strip_return_absent (d ∷ l) h.1)

split-print_lines :
    (ls : List Bytes) → All IsLine ls → split b'\n' (print_lines ls) ≡ ls ++ ([] ∷ [])
unfolding split
split-print_lines [] h = refl
split-print_lines (l ∷ ls) (h, hs) =
    split-append b'\n' l (print_lines ls) h.0 ∙ ap (◌∷◌ l) (split-print_lines ls hs)

lines_of-append : (ls : List Bytes) → All IsLine ls → lines_of (ls ++ ([] ∷ [])) ≡ ls
unfolding lines_of
lines_of-append [] h = refl
lines_of-append (l ∷ []) h = ap (λ x. x ∷ []) (strip_return_absent l h.0.1)
lines_of-append (l ∷ m ∷ ls) (h, hs) =
    ap (λ x. x ∷ lines_of (m ∷ (ls ++ ([] ∷ [])))) (strip_return_absent l h.1)
    ∙ ap (◌∷◌ l) (lines_of-append (m ∷ ls) hs)

-- Printed lines are read back.
pub lines-print_lines : (ls : List Bytes) → All IsLine ls → lines (print_lines ls) ≡ ls
unfolding lines
lines-print_lines ls h = ap lines_of (split-print_lines ls h) ∙ lines_of-append ls h

pub starts_with-none : (p s : Bytes) → strip_prefix p s ≡ none → starts_with p s ≡ false
unfolding starts_with is_found
starts_with-none p s h = ap is_found h

pub starts_with-append : (p s : Bytes) → starts_with p (p ++ s) ≡ true
unfolding starts_with is_found
starts_with-append p s = ap is_found (strip_prefix-append p s)
