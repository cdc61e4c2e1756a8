-- ===== src/Host/Proto.antt =====
-- src/host/proto.rs: requests and replies behind a length of four hexadecimal digits.
-- A stream is dropped after an error, so an operation gives the stream back with its result only.
pub mod RoundTrip
pub mod Devices
use rsadb.Base.{
  ℕ, zero, suc, ◌+◌, ◌-◌, ◌*◌, ◌/◌, ◌%◌, ◌^◌, Bytes, ascii, bytes_eq, Bool, true, false, not, ◌&&◌,
  ltb, leb, ◌==◌, if◌then◌else◌, Option, none, some, length, List, [], ◌∷◌, ◌++◌,
}
use rsadb.Error.{
  Result, ok, err, Error, disconnected, io, protocol, invalid_argument, remote_failure,
  request_too_long, length_not_ascii, bad_length, unexpected_status, ◌>>=◌, ok_or,
}
use rsadb.Text.{split_once, lines}
use rsadb.Text.Lossy.{from_utf8_lossy, is_utf8}
use rsadb.Text.White.{split_whitespace}
use rsadb.Transport.Io.{IoResult, done, eof, failed, AsyncRead, AsyncWrite}
use rsadb.Transport.Framed.{from_io}

-- `map_err(eof)`
abbrev pub from_eof {ℓ} : {A : Type ℓ} → IoResult A → Result A
from_eof (done a) = ok a
from_eof eof = err disconnected
from_eof (failed r) = err (io r)

unfoldable pub hex_digit : ℕ → ℕ
hex_digit n = if ltb n 10 then b'0' + n else b'a' + (n - 10)

-- `{:04x}` of a number below 2^16.
unfoldable pub hex4 : ℕ → Bytes
hex4 n =
    hex_digit (n / 4096 % 16)
    ∷ hex_digit (n / 256 % 16)
    ∷ hex_digit (n / 16 % 16)
    ∷ hex_digit (n % 16)
    ∷ []

unfoldable pub hex_value : ℕ → Option ℕ
hex_value c =
    if leb b'0' c && leb c b'9'
    then some (c - b'0')
    else if leb b'a' c && leb c b'f'
    then some (c - b'a' + 10)
    else if leb b'A' c && leb c b'F'
    then some (c - b'A' + 10)
    else none

-- The digits behind those that have given `n`; none beyond the bound.
pub hex_digits : ℕ → ℕ → Bytes → Option ℕ
unfolding hex_value
hex_digits bound n [] = some n
hex_digits bound n (c ∷ s) = elim (hex_value c) [
  | none ↦ none
  | some d ↦ if ltb bound (n * 16 + d) then none else hex_digits bound (n * 16 + d) s
]

unsigned : ℕ → Bytes → Option ℕ
unfolding hex_digits
unsigned bound [] = none
unsigned bound (c ∷ s) = hex_digits bound 0 (c ∷ s)

-- `from_str_radix(text, 16)` of an unsigned type with that bound: one `+` may stand in front.
unfoldable pub from_hex : ℕ → Bytes → Option ℕ
unfolding unsigned
from_hex bound [] = none
from_hex bound (c ∷ s) = if c == b'+' then unsigned bound s else unsigned bound (c ∷ s)

abbrev pub usize_max : ℕ
usize_max = 2 ^ 64 - 1

unfoldable pub parse_len : Bytes → Result ℕ
parse_len hex =
    if not (is_utf8 hex)
    then err (protocol length_not_ascii)
    else ok_or (from_hex usize_max hex) (protocol (bad_length hex))

module _ (W : AsyncWrite) where
  open W use {State, write_all, flush}

  unfoldable pub send_request : State → Bytes → Result State
  send_request w request =
      if ltb 0xFFFF (length request)
      then err (invalid_argument request_too_long)
      else from_io (write_all (hex4 (length request) ++ request) w) >>= λ s. from_io (flush s)

module _ (R : AsyncRead) where
  open R use {State, read_exact}

  unfoldable pub read_len : State → Result (ℕ × State)
  read_len r = do (hex, s) ← from_eof (read_exact 4 r); n ← parse_len hex; ok (n, s)

  unfoldable pub read_block : State → Result (Bytes × State)
  read_block r = do
    (n, s) ← read_len r
    (buf, t) ← from_eof (read_exact n s)
    ok (from_utf8_lossy buf, t)

  status_failed : Bytes × State → Result State
  status_failed (message, _) = err (remote_failure message)

  status_of : Bytes × State → Result State
  unfolding status_failed
  status_of (word, s) =
      if bytes_eq word (ascii "OKAY")
      then ok s
      else if bytes_eq word (ascii "FAIL")
      then (read_block s >>= status_failed)
      else err (protocol (unexpected_status (from_utf8_lossy word)))

  unfoldable pub read_status : State → Result State
  unfolding status_of
  read_status r = from_eof (read_exact 4 r) >>= status_of

pub record DeviceEntry : Type 0 where
  pub serial : Bytes
  pub state : Bytes
  pub attributes : List (Bytes × Bytes)

attributes_of : List Bytes → List (Bytes × Bytes)
attributes_of [] = []
attributes_of (p ∷ ps) = elim (split_once (b':' ∷ []) p) [
  | none ↦ attributes_of ps
  | some kv ↦ kv ∷ attributes_of ps
]

-- The device of a line, if it has two words.
entry_of : List Bytes → Option DeviceEntry
unfolding attributes_of
entry_of (serial ∷ state ∷ parts) =
    some (record { serial = serial; state = state; attributes = attributes_of parts })
entry_of _ = none

entries_of : List Bytes → List DeviceEntry
unfolding entry_of
entries_of [] = []
entries_of (l ∷ ls) = elim (entry_of (split_whitespace l)) [
  | none ↦ entries_of ls
  | some d ↦ d ∷ entries_of ls
]

unfoldable pub parse_devices : Bytes → List DeviceEntry
unfolding entries_of
parse_devices text = entries_of (lines text)
