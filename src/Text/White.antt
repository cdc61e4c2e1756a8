-- ===== src/Text/White.antt =====
-- White space as Rust's strings see it: `char::is_whitespace`, `split_whitespace` and `trim`, over the
-- bytes of the UTF-8 encoding.
use rsadb.Base.{
  ℕ, zero, suc, ◌<◌, ◌≡◌, ◌≢◌, refl, ap, ◌∙◌, Bytes, false, ◌&&◌, ◌||◌, ◌==◌, leb, if◌then◌else◌,
  All, List, [], ◌∷◌, ◌++◌, arith,
}
use rsadb.Text.{cons_head, non_empty, join}

two_bytes : ℕ → ℕ → ℕ
two_bytes a b = if (a == 0xC2) && (b == 0x85 || b == 0xA0) then 2 else 0

three_bytes : ℕ → ℕ → ℕ → ℕ
three_bytes a b c =
    if (a == 0xE1 && (b == 0x9A && c == 0x80))
      || ((a == 0xE2
            && ((b == 0x80
                  && ((leb 0x80 c && leb c 0x8A) || (c == 0xA8 || (c == 0xA9 || c == 0xAF))))
                || (b == 0x81 && c == 0x9F)))
          || (a == 0xE3 && (b == 0x80 && c == 0x80)))
    then 3
    else 0

long_white : ℕ → Bytes → ℕ
unfolding two_bytes three_bytes
long_white a [] = 0
long_white a (b ∷ []) = two_bytes a b
long_white a (b ∷ c ∷ s) = if two_bytes a b == 2 then 2 else three_bytes a b c

-- The length of the white-space character at the front of the text; zero where there is none.
unfoldable pub white : Bytes → ℕ
unfolding long_white
white [] = 0
white (a ∷ s) =
    if a == 32 || (leb 9 a && leb a 13) then 1 else if leb a 0x7F then 0 else long_white a s

piece : ℕ → ℕ → (ℕ → List Bytes) → List Bytes
piece c zero behind = cons_head c (behind zero)
piece c (suc skip) behind = [] ∷ behind skip

-- The parts between the white-space characters; so many bytes of one are still to be skipped.
pieces : ℕ → Bytes → List Bytes
unfolding piece
pieces skip [] = [] ∷ []
pieces zero (c ∷ s) = piece c (white (c ∷ s)) (λ skip. pieces skip s)
pieces (suc skip) (c ∷ s) = pieces skip s

unfoldable pub split_whitespace : Bytes → List Bytes
unfolding pieces piece cons_head
split_whitespace s = non_empty (pieces 0 s)

front_of : ℕ → Bytes → (ℕ → Bytes) → Bytes
front_of zero s behind = s
front_of (suc skip) s behind = behind skip

trim_front : ℕ → Bytes → Bytes
unfolding front_of
trim_front skip [] = []
trim_front zero (c ∷ s) = front_of (white (c ∷ s)) (c ∷ s) (λ skip. trim_front skip s)
trim_front (suc skip) (c ∷ s) = trim_front skip s

-- A byte of a white-space character stays where something stays behind it.
keep_before : ℕ → Bytes → Bytes
keep_before c [] = []
keep_before c (d ∷ s) = c ∷ d ∷ s

back_of : ℕ → ℕ → (ℕ → Bytes) → Bytes
unfolding keep_before
back_of c zero behind = c ∷ behind zero
back_of c (suc skip) behind = keep_before c (behind skip)

trim_back : ℕ → Bytes → Bytes
unfolding back_of
trim_back skip [] = []
trim_back zero (c ∷ s) = back_of c (white (c ∷ s)) (λ skip. trim_back skip s)
trim_back (suc skip) (c ∷ s) = keep_before c (trim_back skip s)

unfoldable pub trim : Bytes → Bytes
unfolding trim_front trim_back
trim s = trim_back 0 (trim_front 0 s)

-- An ASCII byte that is no white space.
abbrev pub IsWordByte : ℕ → Type 0
IsWordByte c = (c < 0x80) × ((c == 32 || (leb 9 c && leb c 13)) ≡ false)

white-IsWordByte : (c : ℕ) (s : Bytes) → IsWordByte c → white (c ∷ s) ≡ 0
unfolding white
white-IsWordByte c s (ascii, word) = ground arith

pieces-word :
    (w rest : Bytes) → All IsWordByte w → pieces 0 (w ++ (b' ' ∷ rest)) ≡ w ∷ pieces 0 rest
unfolding pieces piece cons_head
pieces-word [] rest h = unfold white in refl
pieces-word (c ∷ w) rest (h, hs) =
    ap (λ k. piece c k (λ skip. pieces skip (w ++ (b' ' ∷ rest))))
      (white-IsWordByte c (w ++ (b' ' ∷ rest)) h)
    ∙ ap (cons_head c) (pieces-word w rest hs)

-- The first word of a text that begins with one.
pub split_whitespace-word :
    (w rest : Bytes)
    → w ≢ []
    → All IsWordByte w
    → split_whitespace (w ++ (b' ' ∷ rest)) ≡ w ∷ split_whitespace rest
unfolding split_whitespace non_empty
split_whitespace-word [] rest ne h = absurd (ne refl)
split_whitespace-word (c ∷ w) rest ne h = ap non_empty (pieces-word (c ∷ w) rest h)

pieces_word_end : (w : Bytes) → All IsWordByte w → pieces 0 w ≡ w ∷ []
unfolding pieces piece cons_head
pieces_word_end [] h = refl
pieces_word_end (c ∷ w) (h, hs) =
    ap (λ k. piece c k (λ skip. pieces skip w)) (white-IsWordByte c w h)
    ∙ ap (cons_head c) (pieces_word_end w hs)

-- A word of ASCII characters.
abbrev pub IsWord : Bytes → Type 0
IsWord w = (w ≢ []) × All IsWordByte w

-- Words with a space between them are split again.
pub split_whitespace-join :
    (ws : List Bytes) → All IsWord ws → split_whitespace (join (b' ' ∷ []) ws) ≡ ws
unfolding split_whitespace non_empty join pieces
split_whitespace-join [] h = refl
split_whitespace-join ([] ∷ []) ((ne, _), _) = absurd (ne refl)
split_whitespace-join ((c ∷ w) ∷ []) ((_, h), _) = ap non_empty (pieces_word_end (c ∷ w) h)
split_whitespace-join (w ∷ v ∷ ws) ((ne, h), hs) =
    split_whitespace-word w (join (b' ' ∷ []) (v ∷ ws)) ne h
    ∙ ap (◌∷◌ w) (split_whitespace-join (v ∷ ws) hs)

trim_back-word : (w : Bytes) → All IsWordByte w → trim_back 0 w ≡ w
unfolding trim_back back_of
trim_back-word [] h = refl
trim_back-word (c ∷ w) (h, hs) =
    ap (λ k. back_of c k (λ skip. trim_back skip w)) (white-IsWordByte c w h)
    ∙ ap (◌∷◌ c) (trim_back-word w hs)

-- A text without white space stays as it is.
pub trim-word : (w : Bytes) → All IsWordByte w → trim w ≡ w
unfolding trim trim_front front_of
trim-word [] h = trim_back-word [] h
trim-word (c ∷ w) (h, hs) =
    ap (λ k. trim_back 0 (front_of k (c ∷ w) (λ skip. trim_front skip w))) (white-IsWordByte c w h)
    ∙ trim_back-word (c ∷ w) (h, hs)
