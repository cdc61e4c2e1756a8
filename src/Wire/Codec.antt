-- ===== src/Wire/Codec.antt =====
-- src/wire/codec.rs: the 24-byte header.
pub mod Laws
use rsadb.Base.{
  ℕ, ◌+◌, ◌^◌, ◌≡◌, Bytes, Bool, not, ltb, ◌==◌, if◌then◌else◌, length, take, drop, List, ◌++◌, min,
  bit_xor, u32_le, from_le_bytes,
}
use rsadb.Error.{Result, ok, err, Error, protocol, bad_magic, unknown_command, payload_exceeds}
use rsadb.Error.{◌>>=◌, ok_or}
use rsadb.Wire.Command.{Command, code, from_code}
use rsadb.Wire.Message.{Header, max_payload}

abbrev pub header_len : ℕ
header_len = 24

-- `command ^ 0xFFFF_FFFF`
abbrev pub magic_of : ℕ → ℕ
magic_of c = bit_xor c 0xFFFF_FFFF

-- The six words of the buffer, in the order of their offsets.
unfoldable pub encode_header : Header → Bytes
encode_header h =
    u32_le (code h.command)
    ++ (u32_le h.arg0
        ++ (u32_le h.arg1
            ++ (u32_le h.data_length
                ++ (u32_le h.data_check ++ u32_le (magic_of (code h.command))))))

abbrev pub word : Bytes → ℕ → ℕ
word bytes at = from_le_bytes (take 4 (drop at bytes))

abbrev parsed : Command → Bytes → Header
parsed c bytes = record {
  command = c;
  arg0 = word bytes 4;
  arg1 = word bytes 8;
  data_length = word bytes 12;
  data_check = word bytes 16;
}

unfoldable pub decode_header : Bytes → ℕ → Result Header
decode_header bytes limit =
    let command_code = word bytes 0 in
    let magic = word bytes 20 in
    let bound = min limit max_payload in
    if not (magic == magic_of command_code)
    then err (protocol (bad_magic magic command_code))
    else do
      command ← ok_or (from_code command_code) (protocol (unknown_command command_code))
      if ltb bound (word bytes 12)
          then err (protocol (payload_exceeds (word bytes 12) bound))
          else ok (parsed command bytes)
