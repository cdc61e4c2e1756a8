-- ===== src/Text/TextMap.antt =====
-- `BTreeMap<String, String>`: an association list in the byte order of its keys.
use Prim.Native.Nat.{compare, Ordering}
use rsadb.Base.{
  ◌≡◌, ◌≢◌, refl, sym, ap, ◌∙◌, Bytes, Option, none, some, All, List, [], ◌∷◌, ◌++◌, arith,
}

-- The order of strings, byte by byte.
abbrev pub bytes_cmp : Bytes → Bytes → Ordering
bytes_cmp [] [] = Ordering.eq
bytes_cmp [] (b ∷ bs) = Ordering.lt
bytes_cmp (a ∷ as') [] = Ordering.gt
bytes_cmp (a ∷ as') (b ∷ bs) = elim (compare a b) [
  | Ordering.lt ↦ Ordering.lt
  | Ordering.gt ↦ Ordering.gt
  | Ordering.eq ↦ bytes_cmp as' bs
]

abbrev pub TextMap : Type 0
TextMap = List (Bytes × Bytes)

unfoldable pub insert : Bytes → Bytes → TextMap → TextMap
insert k v [] = (k, v) ∷ []
insert k v ((j, w) ∷ m) = elim (bytes_cmp k j) [
  | Ordering.lt ↦ (k, v) ∷ (j, w) ∷ m
  | Ordering.eq ↦ (k, v) ∷ m
  | Ordering.gt ↦ (j, w) ∷ insert k v m
]

unfoldable pub lookup : Bytes → TextMap → Option Bytes
lookup k [] = none
lookup k ((j, w) ∷ m) = elim (bytes_cmp k j) [ Ordering.eq ↦ some w | _ ↦ lookup k m ]

pub bytes_cmp_flip : (xs ys : Bytes) → bytes_cmp xs ys ≡ Ordering.lt → bytes_cmp ys xs ≡ Ordering.gt
bytes_cmp_flip [] [] h = cc
bytes_cmp_flip [] (y ∷ ys) h = refl
bytes_cmp_flip (x ∷ xs) [] h = cc
bytes_cmp_flip (x ∷ xs) (y ∷ ys) h = ground (arith, bytes_cmp_flip xs ys)

abbrev pub Below : Bytes → TextMap → Type 0
Below k = All (λ p. bytes_cmp k p.0 ≡ Ordering.lt)

-- The keys rise along the list.
abbrev pub IsSorted : TextMap → Type 0
IsSorted [] = Unit {0}
IsSorted ((k, v) ∷ m) = Below k m × IsSorted m

abbrev pub Above : Bytes → TextMap → Type 0
Above k = All (λ p. bytes_cmp k p.0 ≡ Ordering.gt)

-- A key above all others goes to the end.
pub insert-last : (k v : Bytes) (m : TextMap) → Above k m → insert k v m ≡ m ++ ((k, v) ∷ [])
unfolding insert
insert-last k v [] h = refl
insert-last k v ((j, w) ∷ m) h = ground (arith, insert-last k v m h.1)

bytes_cmp_refl : (xs : Bytes) → bytes_cmp xs xs ≡ Ordering.eq
bytes_cmp_refl [] = refl
bytes_cmp_refl (x ∷ xs) = ground (arith, bytes_cmp_refl xs)

pub lookup-insert_self : (k v : Bytes) (m : TextMap) → lookup k (insert k v m) ≡ some v
unfolding lookup insert
lookup-insert_self k v [] = ground (arith, bytes_cmp_refl k)
lookup-insert_self k v ((j, w) ∷ m) = ground (arith, bytes_cmp_refl k, lookup-insert_self k v m)

pub insert-insert_self : (k v w : Bytes) (m : TextMap) → insert k v (insert k w m) ≡ insert k v m
unfolding insert
insert-insert_self k v w [] = ground (arith, bytes_cmp_refl k)
insert-insert_self k v w ((j, u) ∷ m) = ground (arith, bytes_cmp_refl k, insert-insert_self k v w m)

bytes_cmp→eq : (xs ys : Bytes) → bytes_cmp xs ys ≡ Ordering.eq → xs ≡ ys
bytes_cmp→eq [] [] h = refl
bytes_cmp→eq [] (y ∷ ys) h = cc
bytes_cmp→eq (x ∷ xs) [] h = cc
bytes_cmp→eq (x ∷ xs) (y ∷ ys) h = ground (arith, bytes_cmp→eq xs ys)

lookup-cons : (k j v : Bytes) (m : TextMap) → k ≢ j → lookup k ((j, v) ∷ m) ≡ lookup k m
unfolding lookup
lookup-cons k j v m h = skip (bytes_cmp k j) (λ e. h (bytes_cmp→eq k j e))
  where
    skip :
        (o : Ordering)
        → o ≢ Ordering.eq
        → elim o [ Ordering.eq ↦ some v | _ ↦ lookup k m ] ≡ lookup k m
    skip Ordering.lt ne = refl
    skip Ordering.eq ne = absurd (ne refl)
    skip Ordering.gt ne = refl

lookup_below :
    (k i w : Bytes) (m n : TextMap)
    → lookup k m ≡ lookup k n
    → lookup k ((i, w) ∷ m) ≡ lookup k ((i, w) ∷ n)
unfolding lookup
lookup_below k i w m n h = ap (λ l. elim (bytes_cmp k i) [ Ordering.eq ↦ some w | _ ↦ l ]) h

-- Another key keeps its value.
pub lookup-insert_ne : (k j v : Bytes) (m : TextMap) → k ≢ j → lookup k (insert j v m) ≡ lookup k m
unfolding insert
lookup-insert_ne k j v [] h = lookup-cons k j v [] h
lookup-insert_ne k j v ((i, w) ∷ m) h =
    split (bytes_cmp j i) (λ e. bytes_cmp→eq j i e)
      (lookup_below k i w (insert j v m) m (lookup-insert_ne k j v m h))
  where
    split :
        (o : Ordering)
        → (o ≡ Ordering.eq → j ≡ i)
        → lookup k ((i, w) ∷ insert j v m) ≡ lookup k ((i, w) ∷ m)
        → lookup k (elim o [
          | Ordering.lt ↦ (j, v) ∷ (i, w) ∷ m
          | Ordering.eq ↦ (j, v) ∷ m
          | Ordering.gt ↦ (i, w) ∷ insert j v m
        ])
          ≡ lookup k ((i, w) ∷ m)
    split Ordering.lt same below = lookup-cons k j v ((i, w) ∷ m) h
    split Ordering.eq same below =
        lookup-cons k j v m h ∙ sym (lookup-cons k i w m (λ e. h (e ∙ sym (same refl))))
    split Ordering.gt same below = below
