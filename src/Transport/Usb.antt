-- ===== src/Transport/Usb.antt =====
-- src/transport/usb/io.rs: messages over the bulk endpoints of a USB interface.
-- The endpoints belong to a USB library: an endpoint is the completions of its later transfers, and
-- keeps what was submitted to it. For the IN endpoint that is the sizes of the requests, for the OUT
-- endpoint the data. An endpoint's packet size is not zero: `send` divides by it.
pub mod Chunks
pub mod Nusb
pub mod Discovery
use rsadb.Base.{
  ℕ, zero, suc, ◌+◌, ◌-◌, ◌*◌, ◌/◌, ◌%◌, max, Bytes, Bool, true, false, not, ◌&&◌, ◌==◌, ltb,
  if◌then◌else◌, Option, none, some, length, List, [], ◌∷◌, ◌++◌,
}
use rsadb.Error.{
  Reason, Error, Result, ok, err, protocol, disconnected, usb, invalid_argument, payload_too_long,
  truncated_header_bytes, short_payload, expected_bytes, checksum_mismatch, ◌>>=◌, ok_or,
}
use rsadb.Wire.Command.{code}
use rsadb.Wire.Message.{Header, Message, header, checksum_matches, with_payload}
use rsadb.Wire.Codec.{header_len, encode_header, decode_header}
use rsadb.Transport.Config.{WireConfig}

pub data Completion : Type 0 where
  transferred : Bytes → Completion
  unplugged : Completion
  transfer_error : Reason → Completion

-- `completed`, with `map_transfer`
unfoldable pub completed : Completion → Result Bytes
completed (transferred bytes) = ok bytes
completed unplugged = err disconnected
completed (transfer_error e) = err (usb e)

-- No completion is left: the transfer succeeds.
pub record UsbSink : Type 0 where
  pub config : WireConfig
  pub max_packet_size : ℕ
  pub submitted : List Bytes
  pub completions : List Completion

unit_of : Result Bytes → Result (Unit {0})
unit_of (ok _) = ok tt
unit_of (err e) = err e

write_next : Bytes → UsbSink → List Completion → Result (Unit {0}) × UsbSink
unfolding unit_of completed
write_next bytes s [] = (ok tt, record s { submitted = s.submitted ++ (bytes ∷ []) })
write_next bytes s (c ∷ cs) =
    (unit_of (completed c), record s { submitted = s.submitted ++ (bytes ∷ []); completions = cs })

unfoldable pub write : Bytes → UsbSink → Result (Unit {0}) × UsbSink
unfolding write_next
write bytes s = write_next bytes s s.completions

-- The `?` behind a write.
abbrev then_write :
    (UsbSink → Result (Unit {0}) × UsbSink)
    → Result (Unit {0}) × UsbSink
    → Result (Unit {0}) × UsbSink
then_write next (ok _, s) = next s
then_write next (err e, s) = (err e, s)

-- A payload of whole packets is followed by an empty one.
finish_payload : ℕ → UsbSink → Result (Unit {0}) × UsbSink
finish_payload len s = if len % s.max_packet_size == 0 then write [] s else (ok tt, s)

send_payload : Bytes → UsbSink → Result (Unit {0}) × UsbSink
unfolding finish_payload
send_payload [] s = (ok tt, s)
send_payload (b ∷ bs) s = then_write (finish_payload (length (b ∷ bs))) (write (b ∷ bs) s)

send_with : Option Header → Message → UsbSink → Result (Unit {0}) × UsbSink
unfolding send_payload
send_with none msg s = (err (invalid_argument payload_too_long), s)
send_with (some h) msg s = then_write (send_payload msg.payload) (write (encode_header h) s)

unfoldable pub send : Message → UsbSink → Result (Unit {0}) × UsbSink
unfolding send_with
send msg s = send_with (header msg s.config.compute_checksum) msg s

pub record UsbSource : Type 0 where
  pub config : WireConfig
  pub max_packet_size : ℕ
  pub requested : List ℕ
  pub completions : List Completion

-- `none`: no completion is left, and the transfer still waits.
abbrev pub Awaits : Type 0 → Type 0
Awaits A = Option (Result A × UsbSource)

-- Whole packets, as the OS requires.
unfoldable pub request_size : ℕ → ℕ → ℕ
request_size packet len = let mps = max packet 1 in max ((len + (mps - 1)) / mps) 1 * mps

abbrev pub requesting : ℕ → List Completion → UsbSource → UsbSource
requesting len cs s = record s {
  requested = s.requested ++ (request_size s.max_packet_size len ∷ []);
  completions = cs;
}

-- The loop of `read_exact`, on the completions to come; `buffer` is what has been read.
pub fill : ℕ → List Completion → Bytes → UsbSource → Awaits Bytes
unfolding completed
fill len [] buffer s =
    if ltb (length buffer) len
    then none
    else if length buffer == len
    then some (ok buffer, s)
    else some (err (protocol (expected_bytes len (length buffer))), s)
fill len (c ∷ cs) buffer s =
    let after = requesting (len - length buffer) cs s in
    let more : Awaits Bytes = elim c [
      | transferred [] ↦ some (err (protocol (short_payload (length buffer) len)), after)
      | transferred (b ∷ bs) ↦ fill len cs (buffer ++ (b ∷ bs)) after
      | unplugged ↦ some (err disconnected, after)
      | transfer_error e ↦ some (err (usb e), after)
    ] in
    if ltb (length buffer) len
    then more
    else if length buffer == len
    then some (ok buffer, s)
    else some (err (protocol (expected_bytes len (length buffer))), s)

-- The first `read` of `read_exact`.
first_read : ℕ → UsbSource → List Completion → Awaits Bytes
unfolding fill completed
first_read len s [] = none
first_read len s (transferred bytes ∷ cs) = fill len cs bytes (requesting len cs s)
first_read len s (unplugged ∷ cs) = some (err disconnected, requesting len cs s)
first_read len s (transfer_error e ∷ cs) = some (err (usb e), requesting len cs s)

unfoldable pub read_exact : ℕ → UsbSource → Awaits Bytes
unfolding first_read
read_exact len s = first_read len s s.completions

-- The loop of `recv` that skips empty transfers.
pub read_head : List Completion → UsbSource → Awaits Bytes
read_head [] s = none
read_head (transferred [] ∷ cs) s = read_head cs (requesting header_len cs s)
read_head (transferred (b ∷ bs) ∷ cs) s = some (ok (b ∷ bs), requesting header_len cs s)
read_head (unplugged ∷ cs) s = some (err disconnected, requesting header_len cs s)
read_head (transfer_error e ∷ cs) s = some (err (usb e), requesting header_len cs s)

checked_message : Header → Bytes → UsbSource → Result Message × UsbSource
checked_message h payload s =
    if s.config.verify_checksum && not (checksum_matches (with_payload h payload) h)
    then (err (protocol (checksum_mismatch (code h.command))), s)
    else (ok (with_payload h payload), s)

with_read : Header → Awaits Bytes → Awaits Message
unfolding checked_message
with_read h none = none
with_read h (some (ok payload, s)) = some (checked_message h payload s)
with_read h (some (err e, s)) = some (err e, s)

recv_payload : UsbSource → Result Header → Awaits Message
unfolding with_read
recv_payload s (err e) = some (err e, s)
recv_payload s (ok h) =
    if h.data_length == 0
    then some (checked_message h [] s)
    else with_read h (read_exact h.data_length s)

-- `try_into` an array of a header's length
parse_head : Bytes → UsbSource → Result Header
parse_head head s =
    if length head == header_len
    then decode_header head s.config.limit
    else err (protocol (truncated_header_bytes (length head)))

recv_head : Awaits Bytes → Awaits Message
unfolding recv_payload parse_head
recv_head none = none
recv_head (some (err e, s)) = some (err e, s)
recv_head (some (ok head, s)) = recv_payload s (parse_head head s)

unfoldable pub recv : UsbSource → Awaits Message
unfolding recv_head read_head
recv s = recv_head (read_head s.completions s)
