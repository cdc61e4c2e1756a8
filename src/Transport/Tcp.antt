-- ===== src/Transport/Tcp.antt =====
-- src/transport/tcp.rs: the text of an endpoint. The connection itself is a parameter.
pub mod Endpoint
use rsadb.Base.{
  ℕ, Bytes, ascii, Bool, true, false, not, ◌==◌, if◌then◌else◌, Option, none, some, [], ◌∷◌,
}
use rsadb.Error.{
  Result, ok, err, Error, io, outside, invalid_argument, empty_address, unterminated_literal,
  unexpected_tail, bad_port, ◌>>=◌, ok_or,
}
use rsadb.Text.{strip_prefix, split_once, rsplit_once, contains_byte}
use rsadb.Text.Decimal.{u16_max, parse_unsigned}
use rsadb.Text.White.{trim}

abbrev pub default_port : ℕ
default_port = 5555

unfoldable pub parse_port : Bytes → Result ℕ
parse_port text = ok_or (parse_unsigned u16_max text) (invalid_argument (bad_port text))

-- The port behind the `]` of a literal.
port_of : Bytes → Option Bytes → Result ℕ
unfolding parse_port
port_of tail (some p) = parse_port p
port_of [] none = ok default_port
port_of (c ∷ tail) none = err (invalid_argument (unexpected_tail (c ∷ tail)))

literal : Bytes → Bytes → Result (Bytes × ℕ)
unfolding port_of
literal spec rest = do
  parts ← ok_or (split_once (ascii "]") rest) (invalid_argument (unterminated_literal spec))
  port ← port_of parts.1 (strip_prefix (ascii ":") parts.1)
  ok (parts.0, port)

-- The port behind a colon that is the only one.
plain : Bytes → Option (Bytes × Bytes) → Result (Bytes × ℕ)
unfolding parse_port
plain spec none = ok (spec, default_port)
plain spec (some (host, port)) =
    if contains_byte b':' host
    then ok (spec, default_port)
    else (parse_port port >>= λ p. ok (host, p))

endpoint_of : Bytes → Option Bytes → Result (Bytes × ℕ)
unfolding literal plain
endpoint_of spec (some rest) = literal spec rest
endpoint_of spec none = plain spec (rsplit_once b':' spec)

trimmed_endpoint : Bytes → Result (Bytes × ℕ)
unfolding endpoint_of
trimmed_endpoint [] = err (invalid_argument empty_address)
trimmed_endpoint (c ∷ spec) = endpoint_of (c ∷ spec) (strip_prefix (ascii "[") (c ∷ spec))

unfoldable pub parse_endpoint : Bytes → Result (Bytes × ℕ)
unfolding trimmed_endpoint
parse_endpoint spec = trimmed_endpoint (trim spec)
