-- ===== src/Host/Proto/RoundTrip.antt =====
-- The framing of src/host/proto.rs: what one side sends and the other reads.
use rsadb.Base.{
  ℕ, ◌+◌, ◌*◌, ◌/◌, ◌%◌, ◌≤◌, ◌<◌, ◌≡◌, refl, sym, ap, subst, ◌∙◌, Bytes, ascii, bytes_eq,
  bytes_eq_refl, false, le→ltb, ◌==◌, some, length, length-append, cut_at, [], ◌∷◌, ◌++◌,
  append_assoc, arith,
}
use rsadb.Error.{ok, err, remote_failure, ◌>>=◌}
use rsadb.Text.Lossy.{from_utf8_lossy, from_utf8_lossy-ascii, IsAscii}
use rsadb.Transport.Io.{done, AsyncRead, AsyncWrite}
use rsadb.Transport.Framed.{from_io}
use rsadb.Host.Proto.{
  hex_digit, hex4, hex_value, hex_digits, unsigned, from_hex, usize_max, parse_len, send_request,
  read_len, read_block, status_failed, status_of, read_status,
}

hex_value-hex_digit : (d : ℕ) → d < 16 → hex_value (hex_digit d) ≡ some d
unfolding hex_value hex_digit
hex_value-hex_digit d h = ground arith

hex_digits-step :
    (bound n d : ℕ) (s : Bytes)
    → d < 16
    → n * 16 + d ≤ bound
    → hex_digits bound n (hex_digit d ∷ s) ≡ hex_digits bound (n * 16 + d) s
unfolding hex_digits
hex_digits-step bound n d s h l =
    rw (hex_digits, hex_value-hex_digit d h, le→ltb bound (n * 16 + d) l) refl

hex_digit_ne_plus : (d : ℕ) → d < 16 → (hex_digit d == b'+') ≡ false
unfolding hex_digit
hex_digit_ne_plus d h = ground arith

hex_digit-IsAscii : (d : ℕ) → d < 16 → hex_digit d < 0x80
unfolding hex_digit
hex_digit-IsAscii d h = ground arith

-- Four digits give the number back.
from_hex-hex4 : (n : ℕ) → n ≤ 0xFFFF → from_hex usize_max (hex4 n) ≡ some n
unfolding from_hex hex4 unsigned hex_digits
from_hex-hex4 n h =
    let a : ℕ = n / 4096 % 16 in
    let b : ℕ = n / 256 % 16 in
    let c : ℕ = n / 16 % 16 in
    let d : ℕ = n % 16 in
    rw (hex_digit_ne_plus a (omega arith)) (
      hex_digits-step usize_max 0 a (hex_digit b ∷ hex_digit c ∷ hex_digit d ∷ []) (omega arith)
        (omega arith)
      ∙ hex_digits-step usize_max (0 * 16 + a) b (hex_digit c ∷ hex_digit d ∷ []) (omega arith)
          (omega arith)
      ∙ hex_digits-step usize_max ((0 * 16 + a) * 16 + b) c (hex_digit d ∷ []) (omega arith)
          (omega arith)
      ∙ hex_digits-step usize_max (((0 * 16 + a) * 16 + b) * 16 + c) d [] (omega arith)
          (omega arith)
      ∙ ap some (omega arith))

hex4-IsAscii : (n : ℕ) → IsAscii (hex4 n)
unfolding hex4
hex4-IsAscii n = (
  hex_digit-IsAscii _ (omega arith),
  (
    hex_digit-IsAscii _ (omega arith),
    (hex_digit-IsAscii _ (omega arith), (hex_digit-IsAscii _ (omega arith), tt)),
  ),
)

length-hex4 : (n : ℕ) → length (hex4 n) ≡ 4
unfolding hex4
length-hex4 n = refl

parse_len-hex4 : (n : ℕ) → n ≤ 0xFFFF → parse_len (hex4 n) ≡ ok n
unfolding parse_len
parse_len-hex4 n h =
    let same =
      ap (λ x. bytes_eq x (hex4 n)) (from_utf8_lossy-ascii (hex4 n) (hex4-IsAscii n))
      ∙ bytes_eq_refl (hex4 n) in
    rw (same, from_hex-hex4 n h) refl

-- A text behind its length.
abbrev pub framed : Bytes → Bytes
framed text = hex4 (length text) ++ text

module _ (W : AsyncWrite) where
  open W use {State, written, write_all_lem, flush_lem, IsHealthy}

  pub send_request_lem :
      (w : State) (request : Bytes)
      → IsHealthy w
      → length request ≤ 0xFFFF
      → (t : State) × (send_request W w request ≡ ok t)
        × (written t ≡ written w ++ framed request)
        × IsHealthy t
  unfolding send_request
  send_request_lem w request healthy fits =
      let (s, wrote, left, hs) = write_all_lem (framed request) w healthy in
      let (t, flushed, same, ht) = flush_lem s hs in
      (
        t,
        rw (le→ltb 0xFFFF (length request) fits)
            (ap (λ x. from_io x >>= λ y. from_io (W.flush y)) wrote ∙ ap from_io flushed),
        same ∙ left,
        ht,
      )

module _ (R : AsyncRead) where
  open R use {State, read_exact, pending, IsHealthy, read_exact_lem}

  -- A healthy stream before `rest`.
  abbrev pub Before : State → Bytes → Type 0
  Before s rest = IsHealthy s × (pending s ≡ rest)

  read_front :
      (s : State) (x rest : Bytes)
      → Before s (x ++ rest)
      → (t : State) × (read_exact (length x) s ≡ done (x, t)) × Before t rest
  read_front s x rest (healthy, e) =
      let (t, step, left, ht) =
        read_exact_lem (length x) s healthy (omega (arith, ap length e, length-append x rest)) in
      let (front, back) = cut_at (length x) x rest (sym e) refl in
      (t, step ∙ ap (λ y. done (y, t)) front, (ht, left ∙ back))

  read_len_lem :
      (s : State) (n : ℕ) (rest : Bytes)
      → n ≤ 0xFFFF
      → Before s (hex4 n ++ rest)
      → (t : State) × (read_len R s ≡ ok (n, t)) × Before t rest
  unfolding read_len hex4
  read_len_lem s n rest fits before =
      let (t, step, after) = read_front s (hex4 n) rest before in
      (t, rw step (ap (λ m. m >>= λ (k : ℕ). ok (k, t)) (parse_len-hex4 n fits)), after)

  -- A text of up to 65535 bytes behind its length is read as a block, and what follows it is left.
  pub read_block-framed :
      (s : State) (text rest : Bytes)
      → length text ≤ 0xFFFF
      → Before s (framed text ++ rest)
      → (t : State) × (read_block R s ≡ ok (from_utf8_lossy text, t)) × Before t rest
  unfolding read_block
  read_block-framed s text rest fits before =
      let (u, got, mid) =
        read_len_lem s (length text) (text ++ rest) fits
          (subst (Before s) (append_assoc (hex4 (length text)) text rest) before) in
      let (t, step, after) = read_front u text rest mid in (t, rw (got, step) refl, after)

  pub status_okay :
      (s : State) (rest : Bytes)
      → Before s (ascii "OKAY" ++ rest)
      → (t : State) × (read_status R s ≡ ok t) × Before t rest
  unfolding read_status status_of
  status_okay s rest before =
      let (t, step, after) = read_front s (ascii "OKAY") rest before in (t, rw step refl, after)

  -- A `FAIL` gives its message as the error.
  pub status_fail :
      (s : State) (message rest : Bytes)
      → length message ≤ 0xFFFF
      → Before s (ascii "FAIL" ++ (framed message ++ rest))
      → read_status R s ≡ err (remote_failure (from_utf8_lossy message))
  unfolding read_status status_of status_failed
  status_fail s message rest fits before =
      let (t, step, after) = read_front s (ascii "FAIL") (framed message ++ rest) before in
      let (u, got, _) = read_block-framed t message rest fits after in rw (step, got) refl
