-- ===== src/Wire/Message.antt =====
-- src/wire/mod.rs: the protocol's constants, headers and messages; `checksum` of src/wire/codec.rs.
pub mod Checksum
use rsadb.Base.{
  ℕ, ◌+◌, ◌*◌, ◌%◌, ◌^◌, ◌<◌, ◌≡◌, refl, Bytes, Option, none, some, Bool, ltb, ◌==◌, if◌then◌else◌,
  length, arith, List, [], ◌∷◌, ◌++◌, IsU32,
}
use mathlib.Core.List.{foldl}
use rsadb.Wire.Command.{Command}

abbrev pub version_offered : ℕ
version_offered = 0x0100_0001

abbrev pub version_min : ℕ
version_min = 0x0100_0000

abbrev pub version_skip_checksum : ℕ
version_skip_checksum = 0x0100_0001

abbrev pub max_payload : ℕ
max_payload = 1024 * 1024

abbrev pub legacy_max_payload : ℕ
legacy_max_payload = 256 * 1024

abbrev pub auth_token : ℕ
auth_token = 1

abbrev pub auth_signature : ℕ
auth_signature = 2

abbrev pub auth_rsapublickey : ℕ
auth_rsapublickey = 3

pub record Header : Type 0 where
  pub command : Command
  pub arg0 : ℕ
  pub arg1 : ℕ
  pub data_length : ℕ
  pub data_check : ℕ

pub record Message : Type 0 where
  pub command : Command
  pub arg0 : ℕ
  pub arg1 : ℕ
  pub payload : Bytes

abbrev pub message : Command → ℕ → ℕ → Bytes → Message
message c a b p = record { command = c; arg0 = a; arg1 = b; payload = p }

abbrev pub empty_message : Command → ℕ → ℕ → Message
empty_message c a b = message c a b []

-- The wrapping sum of all payload bytes.
unfoldable pub checksum : Bytes → ℕ
checksum = foldl (λ acc b. (acc + b) % 2 ^ 32) 0

-- `u32::try_from`.
abbrev pub try_u32 : ℕ → Option ℕ
try_u32 n = if ltb n (2 ^ 32) then some n else none

unfoldable pub header : Message → Bool → Option Header
header m with_checksum = elim (try_u32 (length m.payload)) [
  | none ↦ none
  | some n ↦ some (record {
    command = m.command;
    arg0 = m.arg0;
    arg1 = m.arg1;
    data_length = n;
    data_check = if with_checksum then checksum m.payload else 0;
  })
]

unfoldable pub checksum_matches : Message → Header → Bool
checksum_matches m h = h.data_check == checksum m.payload

abbrev pub with_payload : Header → Bytes → Message
with_payload h p = message h.command h.arg0 h.arg1 p

-- The fields of a header are 32-bit words.
pub record IsHeader (h : Header) : Type 0 where
  pub arg0_word : IsU32 h.arg0
  pub arg1_word : IsU32 h.arg1
  pub length_word : IsU32 h.data_length
  pub check_word : IsU32 h.data_check

-- A message that the wire can carry: its arguments are 32-bit words, and so is its length.
pub record IsMessage (m : Message) : Type 0 where
  pub arg0_word : IsU32 m.arg0
  pub arg1_word : IsU32 m.arg1
  pub length_word : IsU32 (length m.payload)
