-- ===== src/Examples/Wire.antt =====
-- src/wire at concrete headers.
use rsadb.Base.{◌≡◌, ◌≤◌, refl, Bytes, [], ◌∷◌, min, arith}
use rsadb.Error.{ok}
use rsadb.Wire.Command.{Command, code, from_code}
use rsadb.Wire.Message.{Header, IsHeader, max_payload}
use rsadb.Wire.Codec.{encode_header, decode_header}
use rsadb.Wire.Codec.Laws.{decode-encode, encode-decode}

abbrev open_header : Header
open_header = record {
  command = Command.open_stream;
  arg0 = 1;
  arg1 = 0;
  data_length = 6;
  data_check = 99;
}

abbrev open_bytes : Bytes
open_bytes =
    0x4f ∷ 0x50 ∷ 0x45 ∷ 0x4e ∷ 1 ∷ 0 ∷ 0 ∷ 0 ∷ 0 ∷ 0 ∷ 0 ∷ 0 ∷ 6 ∷ 0 ∷ 0 ∷ 0 ∷ 99 ∷ 0 ∷ 0 ∷ 0
    ∷ 0xb0 ∷ 0xaf ∷ 0xba ∷ 0xb1 ∷ []

open_header-IsHeader : IsHeader open_header
open_header-IsHeader = omega arith

open_encoded : encode_header open_header ≡ open_bytes
unfolding encode_header code
open_encoded = refl

decode-encode_example : decode_header (encode_header open_header) max_payload ≡ ok open_header
decode-encode_example = decode-encode open_header max_payload open_header-IsHeader (omega arith)

open_decoded : decode_header open_bytes max_payload ≡ ok open_header
unfolding decode_header from_code code
open_decoded = refl

encode-decode_example :
    (encode_header open_header ≡ open_bytes)
    × IsHeader open_header
    × (open_header.data_length ≤ min max_payload max_payload)
encode-decode_example =
    encode-decode open_bytes max_payload open_header refl (omega arith) open_decoded
