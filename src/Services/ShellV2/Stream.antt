-- ===== src/Services/ShellV2/Stream.antt =====
-- The parser of src/services/shell_v2.rs on bytes that arrive in chunks.
use rsadb.Base.{
  subst, ℕ, zero, suc, ◌+◌, ◌≤◌, ◌≡◌, refl, sym, ap, ◌∙◌, inl, inr, Bytes, ltb, ltb→le, le→ltb,
  Bool-cases, Option, none, some, length, length-append, length-drop, take-append_le,
  drop-append_le, from_le_bytes, List, [], ◌∷◌, ◌++◌, append_assoc, arith,
}
use rsadb.Error.{ok, err, protocol, unknown_frame}
use rsadb.Services.ShellV2.{
  FrameId, Frame, Next, whole, unknown, wait, cut_frame, with_id, next_frame, from_byte, Parsed,
  cons_frame, parse, push, proceed,
}

-- What more bytes do to the next frame: a frame and an unknown id stay, with the bytes behind them.
abbrev Extends : Bytes → Next → Next → Type 0
Extends y (whole f rest) m = m ≡ whole f (rest ++ y)
Extends y (unknown i) m = m ≡ unknown i
Extends y wait m = Unit {0}

cut_frame-Extends :
    (id : FrameId) (len : ℕ) (body y : Bytes)
    → Extends y (cut_frame id len body) (cut_frame id len (body ++ y))
unfolding cut_frame
cut_frame-Extends id len body y = elim (Bool-cases (ltb (length body) len)) [
  | inl short ↦ rw short tt
  | inr enough ↦
      let l : len ≤ length body = ltb→le _ _ enough in
      rw (
        enough,
        le→ltb (length (body ++ y)) len (omega (arith, length-append body y)),
        take-append_le len body y l,
        drop-append_le len body y l,
      )
]

with_id-Extends :
    (i : ℕ) (o : Option FrameId) (len : ℕ) (body y : Bytes)
    → Extends y (with_id i o len body) (with_id i o len (body ++ y))
unfolding with_id
with_id-Extends i none len body y = refl
with_id-Extends i (some id) len body y = cut_frame-Extends id len body y

next_frame-Extends : (x y : Bytes) → Extends y (next_frame x) (next_frame (x ++ y))
unfolding next_frame
next_frame-Extends (i ∷ a ∷ b ∷ c ∷ d ∷ body) y =
    with_id-Extends i (from_byte i) (from_le_bytes (a ∷ b ∷ c ∷ d ∷ [])) body y
next_frame-Extends _ y = tt

-- A frame takes five bytes at least.
abbrev Shrinks : ℕ → Next → Type 0
Shrinks n (whole f rest) = length rest + 5 ≤ n
Shrinks n _ = Unit {0}

cut_frame-Shrinks :
    (id : FrameId) (len : ℕ) (body : Bytes) → Shrinks (length body + 5) (cut_frame id len body)
unfolding cut_frame
cut_frame-Shrinks id len body = elim (Bool-cases (ltb (length body) len)) [
  | inl short ↦ rw short tt
  | inr enough ↦ rw enough (omega (arith, length-drop len body))
]

with_id-Shrinks :
    (i : ℕ) (o : Option FrameId) (len : ℕ) (body : Bytes)
    → Shrinks (length body + 5) (with_id i o len body)
unfolding with_id
with_id-Shrinks i none len body = tt
with_id-Shrinks i (some id) len body = cut_frame-Shrinks id len body

pub next_frame-Shrinks : (x : Bytes) → Shrinks (length x) (next_frame x)
unfolding next_frame
next_frame-Shrinks (i ∷ a ∷ b ∷ c ∷ d ∷ body) =
    subst (λ n. Shrinks n (with_id i (from_byte i) (from_le_bytes (a ∷ b ∷ c ∷ d ∷ [])) body))
      (omega arith) (with_id-Shrinks i (from_byte i) (from_le_bytes (a ∷ b ∷ c ∷ d ∷ [])) body)
next_frame-Shrinks _ = tt

pub parse-whole :
    (n : ℕ) (x : Bytes) (f : Frame) (rest : Bytes)
    → next_frame x ≡ whole f rest
    → parse (suc n) x ≡ cons_frame f (parse n rest)
unfolding parse proceed
parse-whole n x f rest e = ap (λ a. proceed a x (parse n)) e

parse-unknown :
    (n : ℕ) (x : Bytes) (i : ℕ)
    → next_frame x ≡ unknown i
    → parse (suc n) x ≡ (err (protocol (unknown_frame i)), x)
unfolding parse proceed
parse-unknown n x i e = ap (λ a. proceed a x (parse n)) e

pub parse-wait : (n : ℕ) (x : Bytes) → next_frame x ≡ wait → parse n x ≡ (ok [], x)
unfolding parse proceed
parse-wait zero x _ = refl
parse-wait (suc n) x e = ap (λ a. proceed a x (parse n)) e

parse_empty : (n : ℕ) → parse n [] ≡ (ok [], [])
unfolding next_frame
parse_empty n = parse-wait n [] refl

fuel_step :
    (m n : ℕ) (x : Bytes)
    → ((rest : Bytes) → length rest ≤ m → length rest ≤ n → parse m rest ≡ parse n rest)
    → length x ≤ suc m
    → length x ≤ suc n
    → (a : Next) → next_frame x ≡ a
    → Shrinks (length x) a
    → parse (suc m) x ≡ parse (suc n) x
fuel_step m n x ih l k (whole f rest) e s =
    parse-whole m x f rest e
    ∙ ap (cons_frame f) (ih rest (omega arith) (omega arith))
    ∙ sym (parse-whole n x f rest e)
fuel_step m n x ih l k (unknown i) e s = parse-unknown m x i e ∙ sym (parse-unknown n x i e)
fuel_step m n x ih l k wait e s = parse-wait (suc m) x e ∙ sym (parse-wait (suc n) x e)

-- Fuel for every byte is enough: more of it changes nothing.
pub parse-fuel : (m n : ℕ) (x : Bytes) → length x ≤ m → length x ≤ n → parse m x ≡ parse n x
parse-fuel m n [] _ _ = parse_empty m ∙ sym (parse_empty n)
parse-fuel zero n (b ∷ x) l _ = absurd (omega arith)
parse-fuel (suc m) zero (b ∷ x) _ l = absurd (omega arith)
parse-fuel (suc m) (suc n) (b ∷ x) l k =
    fuel_step m n (b ∷ x) (parse-fuel m n) l k (next_frame (b ∷ x)) refl
      (next_frame-Shrinks (b ∷ x))

abbrev pub prepend_frames : List Frame → Parsed → Parsed
prepend_frames [] p = p
prepend_frames (f ∷ fs) p = cons_frame f (prepend_frames fs p)

-- A later `push`: its frames are behind those of the earlier one, and an error stays.
abbrev pub feed : Parsed → Bytes → Parsed
feed (ok fs, rest) y = prepend_frames fs (push rest y)
feed (err e, rest) y = (err e, rest ++ y)

feed-cons_frame :
    (f : Frame) (p : Parsed) (y : Bytes) → feed (cons_frame f p) y ≡ cons_frame f (feed p y)
feed-cons_frame f (ok fs, rest) y = refl
feed-cons_frame f (err e, rest) y = refl

feed_step :
    (m n : ℕ) (x y : Bytes)
    → ((rest : Bytes)
        → length rest ≤ n
        → length (rest ++ y) ≤ m
        → parse m (rest ++ y) ≡ feed (parse n rest) y)
    → length x ≤ suc n
    → length (x ++ y) ≤ suc m
    → (a : Next) → next_frame x ≡ a
    → Shrinks (length x) a
    → Extends y a (next_frame (x ++ y))
    → parse (suc m) (x ++ y) ≡ feed (parse (suc n) x) y
unfolding push
feed_step m n x y ih l k (whole f rest) e s h =
    parse-whole m (x ++ y) f (rest ++ y) h
    ∙ ap (cons_frame f)
        (ih rest (omega arith) (omega (arith, length-append x y, length-append rest y)))
    ∙ sym (feed-cons_frame f (parse n rest) y)
    ∙ ap (λ p. feed p y) (sym (parse-whole n x f rest e))
feed_step m n x y ih l k (unknown i) e s h =
    parse-unknown m (x ++ y) i h ∙ ap (λ p. feed p y) (sym (parse-unknown n x i e))
feed_step m n x y ih l k wait e s h =
    parse-fuel (suc m) (length (x ++ y)) (x ++ y) k (omega arith)
    ∙ ap (λ p. feed p y) (sym (parse-wait (suc n) x e))

parse-feed :
    (m n : ℕ) (x y : Bytes)
    → length x ≤ n
    → length (x ++ y) ≤ m
    → parse m (x ++ y) ≡ feed (parse n x) y
unfolding push
parse-feed m n [] y _ k =
    parse-fuel m (length y) y k (omega arith) ∙ ap (λ p. feed p y) (sym (parse_empty n))
parse-feed zero n (b ∷ x) y l k = absurd (omega arith)
parse-feed (suc m) zero (b ∷ x) y l k = absurd (omega arith)
parse-feed (suc m) (suc n) (b ∷ x) y l k =
    feed_step m n (b ∷ x) y (λ rest. parse-feed m n rest y) l k (next_frame (b ∷ x)) refl
      (next_frame-Shrinks (b ∷ x)) (next_frame-Extends (b ∷ x) y)

-- The parser does not depend on how the bytes are cut into chunks: to push y and z at once gives the
-- frames, the error and the buffer that y gives and then z.
pub push-feed : (buffer y z : Bytes) → push buffer (y ++ z) ≡ feed (push buffer y) z
unfolding push
push-feed buffer y z =
    ap (λ b. parse (length b) b) (sym (append_assoc buffer y z))
    ∙ parse-feed (length ((buffer ++ y) ++ z)) (length (buffer ++ y)) (buffer ++ y) z (omega arith)
        (omega arith)

-- No whole frame is left in the buffer.
abbrev pub Settled : Parsed → Type 0
Settled (ok fs, rest) = next_frame rest ≡ wait
Settled (err e, rest) = Unit {0}

cons_frame-Settled : (f : Frame) (p : Parsed) → Settled p → Settled (cons_frame f p)
cons_frame-Settled f (ok fs, rest) h = h
cons_frame-Settled f (err e, rest) h = h

settle_step :
    (n : ℕ) (x : Bytes)
    → ((rest : Bytes) → length rest ≤ n → Settled (parse n rest))
    → length x ≤ suc n
    → (a : Next) → next_frame x ≡ a
    → Shrinks (length x) a
    → Settled (parse (suc n) x)
settle_step n x ih l (whole f rest) e s =
    subst Settled (sym (parse-whole n x f rest e))
      (cons_frame-Settled f (parse n rest) (ih rest (omega arith)))
settle_step n x ih l (unknown i) e s = subst Settled (sym (parse-unknown n x i e)) tt
settle_step n x ih l wait e s = subst Settled (sym (parse-wait (suc n) x e)) e

parse-Settled : (n : ℕ) (x : Bytes) → length x ≤ n → Settled (parse n x)
unfolding next_frame
parse-Settled n [] _ = subst Settled (sym (parse_empty n)) refl
parse-Settled zero (b ∷ x) l = absurd (omega arith)
parse-Settled (suc n) (b ∷ x) l =
    settle_step n (b ∷ x) (parse-Settled n) l (next_frame (b ∷ x)) refl (next_frame-Shrinks (b ∷ x))

-- `push` gives every frame that is complete: where it succeeds, no whole frame is left in the buffer.
pub push-Settled : (buffer bytes : Bytes) → Settled (push buffer bytes)
unfolding push
push-Settled buffer bytes = parse-Settled (length (buffer ++ bytes)) (buffer ++ bytes) (omega arith)
