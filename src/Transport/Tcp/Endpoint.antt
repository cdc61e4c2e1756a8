-- ===== src/Transport/Tcp/Endpoint.antt =====
-- The text of an endpoint, printed and parsed.
use rsadb.Base.{
  ℕ, ◌≤◌, ◌≡◌, ◌≢◌, refl, ap, ◌∙◌, Bytes, ascii, false, if◌then◌else◌, Bool-cases, inl, inr, All,
  All-append, Option, none, some, [], ◌∷◌, ◌++◌, arith,
}
use rsadb.Error.{ok}
use rsadb.Text.{strip_prefix, rsplit_once, contains_byte}
use rsadb.Text.Count.{count, IsSplit, rsplit_once-IsSplit, count_absent}
use rsadb.Text.Laws.{Without, strip_prefix_ne, strip_prefix-append, split_once-append}
use rsadb.Text.Decimal.{u16_max, decimal}
use rsadb.Text.Decimal.Laws.{IsDigit, decimal-IsDigit, parse_unsigned-decimal}
use rsadb.Text.White.{IsWordByte, trim-word}
use rsadb.Transport.Tcp.{
  parse_port, port_of, literal, plain, endpoint_of, trimmed_endpoint, parse_endpoint,
}

-- An address that holds colons stands in brackets.
abbrev pub print_endpoint : Bytes → ℕ → Bytes
print_endpoint host port =
    if contains_byte b':' host
    then b'[' ∷ (host ++ (ascii "]:" ++ decimal port))
    else host ++ (b':' ∷ decimal port)

parse_port-decimal : (port : ℕ) → port ≤ u16_max → parse_port (decimal port) ≡ ok port
unfolding parse_port
parse_port-decimal port h = rw (parse_unsigned-decimal u16_max port h)

-- No bracket in front, or one.
abbrev pub StartsPlain : Bytes → Type 0
StartsPlain [] = Unit {0}
StartsPlain (c ∷ s) = c ≢ b'['

rsplit_once_absent : (d : ℕ) (xs : Bytes) → Without d xs → rsplit_once d xs ≡ none
unfolding rsplit_once
rsplit_once_absent d [] h = refl
rsplit_once_absent d (c ∷ xs) (h, hs) = let e = rsplit_once_absent d xs hs in ground (arith, e, h)

rsplit_once-append :
    (d : ℕ) (xs ys : Bytes) → Without d ys → rsplit_once d (xs ++ (d ∷ ys)) ≡ some (xs, ys)
unfolding rsplit_once
rsplit_once-append d [] ys h = let e = rsplit_once_absent d ys h in ground (arith, e)
rsplit_once-append d (x ∷ xs) ys h = rw (rsplit_once-append d xs ys h)

digits-Without : (s : Bytes) → All IsDigit s → Without b':' s
digits-Without [] h = tt
digits-Without (c ∷ s) (h, hs) = ((λ e. omega (arith, h.1, e)), digits-Without s hs)

digits-IsWordByte : (s : Bytes) → All IsDigit s → All IsWordByte s
digits-IsWordByte [] h = tt
digits-IsWordByte (c ∷ s) (h, hs) = ((omega (arith, h.1), (ground arith)), digits-IsWordByte s hs)

parse_endpoint_trimmed :
    (c : ℕ) (s : Bytes)
    → All IsWordByte (c ∷ s)
    → parse_endpoint (c ∷ s) ≡ endpoint_of (c ∷ s) (strip_prefix (ascii "[") (c ∷ s))
unfolding parse_endpoint
parse_endpoint_trimmed c s h =
    ap trimmed_endpoint (trim-word (c ∷ s) h) ∙ (unfold trimmed_endpoint in refl)

colon_word : IsWordByte b':'
colon_word = (omega arith, refl)

port_words :
    (host : Bytes) (port : ℕ) → All IsWordByte host → All IsWordByte (host ++ (b':' ∷ decimal port))
port_words host port h =
    All-append IsWordByte host (b':' ∷ decimal port) h
      (colon_word, digits-IsWordByte (decimal port) (decimal-IsDigit port))

literal_lem :
    (spec host : Bytes) (port : ℕ)
    → Without b']' host
    → port ≤ u16_max
    → literal spec (host ++ (ascii "]:" ++ decimal port)) ≡ ok (host, port)
unfolding literal port_of
literal_lem spec host port h k = rw (
  split_once-append b']' [] host (b':' ∷ decimal port) h,
  strip_prefix-append (ascii ":") (decimal port),
  parse_port-decimal port k,
)

plain_lem :
    (host : Bytes) (port : ℕ)
    → contains_byte b':' host ≡ false
    → port ≤ u16_max
    → plain (host ++ (b':' ∷ decimal port)) (rsplit_once b':' (host ++ (b':' ∷ decimal port)))
      ≡ ok (host, port)
unfolding plain
plain_lem host port h k = rw (
  rsplit_once-append b':' host (decimal port)
      (digits-Without (decimal port) (decimal-IsDigit port)),
  h,
  parse_port-decimal port k,
)

parse_endpoint_plain :
    (host : Bytes) (port : ℕ)
    → StartsPlain host
    → All IsWordByte host
    → contains_byte b':' host ≡ false
    → port ≤ u16_max
    → parse_endpoint (host ++ (b':' ∷ decimal port)) ≡ ok (host, port)
unfolding endpoint_of
parse_endpoint_plain [] port s w h k =
    parse_endpoint_trimmed b':' (decimal port) (port_words [] port w)
    ∙ (rw (strip_prefix_ne b'[' [] b':' (decimal port) (λ e. omega (arith, e)))
        (plain_lem [] port h k))
parse_endpoint_plain (c ∷ host) port s w h k =
    parse_endpoint_trimmed c (host ++ (b':' ∷ decimal port)) (port_words (c ∷ host) port w)
    ∙ (rw (strip_prefix_ne b'[' [] c (host ++ (b':' ∷ decimal port)) s)
        (plain_lem (c ∷ host) port h k))

parse_endpoint_literal :
    (host : Bytes) (port : ℕ)
    → All IsWordByte host
    → Without b']' host
    → port ≤ u16_max
    → parse_endpoint (b'[' ∷ (host ++ (ascii "]:" ++ decimal port))) ≡ ok (host, port)
unfolding endpoint_of
parse_endpoint_literal host port w h k =
    let rest = host ++ (ascii "]:" ++ decimal port) in
    parse_endpoint_trimmed b'[' rest (
      (omega arith, refl),
      All-append IsWordByte host (ascii "]:" ++ decimal port) w (
        (omega arith, refl),
        (colon_word, digits-IsWordByte (decimal port) (decimal-IsDigit port)),
      ),
    )
    ∙ (rw (strip_prefix-append (ascii "[") rest) (literal_lem (b'[' ∷ rest) host port h k))

-- The text of an address of ASCII characters without white space, without a `]` and without a `[`
-- in front, and of a port of 16 bits is parsed to the two, whether the address holds colons and
-- stands in brackets or not.
pub parse_endpoint-print_endpoint :
    (host : Bytes) (port : ℕ)
    → StartsPlain host
    → All IsWordByte host
    → Without b']' host
    → port ≤ u16_max
    → parse_endpoint (print_endpoint host port) ≡ ok (host, port)
parse_endpoint-print_endpoint host port s w h k = elim (Bool-cases (contains_byte b':' host)) [
  | inl e ↦ rw e (parse_endpoint_literal host port w h k)
  | inr e ↦ rw e (parse_endpoint_plain host port s w e k)
]

plain_no_port :
    (spec : Bytes) (o : Option (Bytes × Bytes))
    → count b':' spec ≢ 1
    → IsSplit b':' spec o
    → plain spec o ≡ ok (spec, 5555)
unfolding plain IsSplit
plain_no_port spec none h k = refl
plain_no_port spec (some (front, back)) h k = elim (Bool-cases (contains_byte b':' front)) [
  | inl e ↦ rw e refl
  | inr e ↦ absurd (h (omega (arith, k, count_absent b':' front e)))
]

parse_endpoint_bare :
    (host : Bytes)
    → host ≢ []
    → StartsPlain host
    → All IsWordByte host
    → count b':' host ≢ 1
    → parse_endpoint host ≡ ok (host, 5555)
unfolding endpoint_of
parse_endpoint_bare [] ne s w h = absurd (ne refl)
parse_endpoint_bare (c ∷ host) ne s w h =
    parse_endpoint_trimmed c host w
    ∙ (rw (strip_prefix_ne b'[' [] c host s) (
        plain_no_port (c ∷ host) (rsplit_once b':' (c ∷ host)) h
          (rsplit_once-IsSplit b':' (c ∷ host))))

literal_no_port :
    (spec host : Bytes) → Without b']' host → literal spec (host ++ ascii "]") ≡ ok (host, 5555)
unfolding literal port_of strip_prefix
literal_no_port spec host h = rw (split_once-append b']' [] host [] h) refl

parse_endpoint_brackets :
    (host : Bytes)
    → All IsWordByte host
    → Without b']' host
    → parse_endpoint (b'[' ∷ (host ++ ascii "]")) ≡ ok (host, 5555)
unfolding endpoint_of
parse_endpoint_brackets host w h =
    let rest = host ++ ascii "]" in
    parse_endpoint_trimmed b'[' rest
      ((omega arith, refl), All-append IsWordByte host (ascii "]") w ((omega arith, refl), tt))
    ∙ (rw (strip_prefix-append (ascii "[") rest) (literal_no_port (b'[' ∷ rest) host h))

-- An address without a port gets the port 5555 and is kept as a whole, bare and in brackets. It is
-- non-empty, of ASCII characters without white space, without a `]` and without a `[` in front, and
-- does not hold exactly one colon: an IPv6 address needs no brackets.
pub parse_endpoint-no_port :
    (host : Bytes)
    → host ≢ []
    → StartsPlain host
    → All IsWordByte host
    → Without b']' host
    → count b':' host ≢ 1
    → (parse_endpoint host ≡ ok (host, 5555))
      × (parse_endpoint (b'[' ∷ (host ++ ascii "]")) ≡ ok (host, 5555))
parse_endpoint-no_port host ne s w h k =
    (parse_endpoint_bare host ne s w k, parse_endpoint_brackets host w h)
