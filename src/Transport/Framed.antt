-- ===== src/Transport/Framed.antt =====
-- src/transport/framed.rs: headers and payloads over a byte stream.
pub mod Laws
pub mod Truncation
use rsadb.Base.{
  ℕ, ◌+◌, ◌-◌, Bytes, Bool, not, ◌&&◌, ltb, ◌==◌, if◌then◌else◌, length, List, [], ◌∷◌, ◌++◌,
}
use rsadb.Error.{
  Result, ok, err, Error, Reason, disconnected, protocol, io, invalid_argument, payload_too_long,
  truncated_header, truncated_payload, checksum_mismatch, unexpected_eof, ◌>>=◌, ◌>>◌, ok_or,
}
use rsadb.Wire.Command.{code}
use rsadb.Wire.Message.{Message, Header, header, checksum_matches, with_payload}
use rsadb.Wire.Codec.{header_len, encode_header, decode_header}
use rsadb.Transport.Config.{WireConfig}
use rsadb.Transport.Io.{IoResult, done, eof, failed, AsyncRead, AsyncWrite}

-- The conversion that `?` makes.
abbrev pub from_io {ℓ} : {A : Type ℓ} → IoResult A → Result A
from_io (done a) = ok a
from_io eof = err (io unexpected_eof)
from_io (failed r) = err (io r)

-- `map_err(truncated(what))`
abbrev pub truncated {ℓ} : {A : Type ℓ} → Reason → IoResult A → Result A
truncated what (done a) = ok a
truncated what eof = err (protocol what)
truncated what (failed r) = err (io r)

module _ (W : AsyncWrite) where
  open W use {State, write_all, flush}

  pub record FramedWriter : Type 0 where
    pub inner : State
    pub config : WireConfig

  write_payload : Bytes → State → Result State
  write_payload [] s = ok s
  write_payload (b ∷ bs) s = from_io (write_all (b ∷ bs) s)

  unfoldable pub send : FramedWriter → Message → Result FramedWriter
  unfolding write_payload
  send w msg = do
    h ← ok_or (header msg w.config.compute_checksum) (invalid_argument payload_too_long)
    s ← from_io (write_all (encode_header h) w.inner)
    s' ← write_payload msg.payload s
    s'' ← from_io (flush s')
    ok (record w { inner = s'' })

  pub configure_writer : FramedWriter → WireConfig → FramedWriter
  configure_writer w c = record w { config = c }

module _ (R : AsyncRead) where
  open R use {State, read, read_exact}

  pub record FramedReader : Type 0 where
    pub inner : State
    pub config : WireConfig

  pub fill_rest : Bytes → State → Result (Bytes × State)
  fill_rest head s = do
    (more, t) ← truncated truncated_header (read_exact (header_len - length head) s)
    ok (head ++ more, t)

  -- The first `read` has brought `head`: an empty one is the end of the stream, a short one is
  -- filled up.
  pub fill_head : Bytes → State → Result (Bytes × State)
  unfolding fill_rest
  fill_head [] s = err disconnected
  fill_head (b ∷ bs) s =
      if ltb (length (b ∷ bs)) header_len then fill_rest (b ∷ bs) s else ok (b ∷ bs, s)

  read_payload : ℕ → State → Result (Bytes × State)
  read_payload len s =
      if ltb 0 len then truncated truncated_payload (read_exact len s) else ok ([], s)

  -- The reader is given back with the message; after an error no caller reads on.
  unfoldable pub recv : FramedReader → Result (Message × FramedReader)
  unfolding fill_head read_payload
  recv r = do
    (first, s) ← from_io (read header_len r.inner)
    (head, t) ← fill_head first s
    h ← decode_header head r.config.limit
    (payload, u) ← read_payload h.data_length t
    let msg = with_payload h payload
    if r.config.verify_checksum && not (checksum_matches msg h)
        then err (protocol (checksum_mismatch (code h.command)))
        else ok (msg, record r { inner = u })

  pub configure_reader : FramedReader → WireConfig → FramedReader
  configure_reader r c = record r { config = c }
