-- ===== src/Wire/Command.antt =====
-- src/wire/command.rs: the command words.
use rsadb.Base.{
  ℕ, ◌≡◌, refl, Bytes, ascii, from_le_bytes, Option, none, some, ◌==◌, if◌then◌else◌, arith, IsU32,
}

pub data Command : Type 0 where
  sync connect auth open_stream okay close write start_tls : Command

-- The numeric command word, `self as u32`.
unfoldable pub code : Command → ℕ
code sync = 0x434e_5953
code connect = 0x4e58_4e43
code auth = 0x4854_5541
code open_stream = 0x4e45_504f
code okay = 0x5941_4b4f
code close = 0x4553_4c43
code write = 0x4554_5257
code start_tls = 0x534c_5453

unfoldable pub mnemonic : Command → Bytes
mnemonic sync = ascii "SYNC"
mnemonic connect = ascii "CNXN"
mnemonic auth = ascii "AUTH"
mnemonic open_stream = ascii "OPEN"
mnemonic okay = ascii "OKAY"
mnemonic close = ascii "CLSE"
mnemonic write = ascii "WRTE"
mnemonic start_tls = ascii "STLS"

unfoldable pub from_code : ℕ → Option Command
from_code c =
    if c == 0x434e_5953
    then some sync
    else if c == 0x4e58_4e43
    then some connect
    else if c == 0x4854_5541
    then some auth
    else if c == 0x4e45_504f
    then some open_stream
    else if c == 0x5941_4b4f
    then some okay
    else if c == 0x4553_4c43
    then some close
    else if c == 0x4554_5257
    then some write
    else if c == 0x534c_5453
    then some start_tls
    else none

pub from_code-code : (c : Command) → from_code (code c) ≡ some c
unfolding from_code code
from_code-code sync = refl
from_code-code connect = refl
from_code-code auth = refl
from_code-code open_stream = refl
from_code-code okay = refl
from_code-code close = refl
from_code-code write = refl
from_code-code start_tls = refl

pub code_of_from_code : (n : ℕ) (c : Command) → from_code n ≡ some c → code c ≡ n
unfolding from_code code
code_of_from_code n c h = ground arith

pub code-IsU32 : (c : Command) → IsU32 (code c)
unfolding code
code-IsU32 sync = omega arith
code-IsU32 _ = omega arith

-- The mnemonic, read as a little-endian word, is the command word.
pub from_le_bytes-mnemonic : (c : Command) → from_le_bytes (mnemonic c) ≡ code c
unfolding mnemonic code
from_le_bytes-mnemonic sync = refl
from_le_bytes-mnemonic _ = refl
