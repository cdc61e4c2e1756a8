-- ===== src/Services/Sync/Codec.antt =====
-- src/services/sync/codec.rs and entry.rs: the layouts of the `sync:` protocol and what they hold.
-- A slice of the source that its callers give enough bytes is `take` and `drop` here.
pub mod RoundTrip
use rsadb.Base.{
  ℕ, ◌+◌, ◌-◌, ◌*◌, ◌^◌, bit_and, Bytes, ascii, Bool, true, false, not, ◌&&◌, ◌==◌, ltb,
  if◌then◌else◌, Option, none, some, length, take, drop, to_le_bytes, u32_le, u64_le, from_le_bytes,
  List, [], ◌∷◌, ◌++◌,
}
use rsadb.Error.{Result, ok, err, invalid_argument, path_too_long, ◌>>=◌, ok_or}
use rsadb.Wire.Message.{try_u32}
use rsadb.Text.Lossy.{from_utf8_lossy}

-- Integers over the native numbers: `negsuc n` is -1 - n.
pub data ℤ : Type 0 where
  pos : ℕ → ℤ
  negsuc : ℕ → ℤ

abbrev pub id_list : Bytes
id_list = ascii "LIST"

abbrev pub id_lis2 : Bytes
id_lis2 = ascii "LIS2"

abbrev pub id_dent : Bytes
id_dent = ascii "DENT"

abbrev pub id_dnt2 : Bytes
id_dnt2 = ascii "DNT2"

abbrev pub id_stat : Bytes
id_stat = ascii "STAT"

abbrev pub id_sta2 : Bytes
id_sta2 = ascii "STA2"

abbrev pub id_recv : Bytes
id_recv = ascii "RECV"

abbrev pub id_rcv2 : Bytes
id_rcv2 = ascii "RCV2"

abbrev pub id_send : Bytes
id_send = ascii "SEND"

abbrev pub id_snd2 : Bytes
id_snd2 = ascii "SND2"

abbrev pub id_data : Bytes
id_data = ascii "DATA"

abbrev pub id_done : Bytes
id_done = ascii "DONE"

abbrev pub id_okay : Bytes
id_okay = ascii "OKAY"

abbrev pub id_fail : Bytes
id_fail = ascii "FAIL"

abbrev pub id_quit : Bytes
id_quit = ascii "QUIT"

abbrev pub data_max : ℕ
data_max = 64 * 1024

abbrev pub stat_v1_len : ℕ
stat_v1_len = 16

abbrev pub stat_v2_len : ℕ
stat_v2_len = 72

abbrev pub dent_v1_len : ℕ
dent_v1_len = 20

abbrev pub dent_v2_len : ℕ
dent_v2_len = 76

pub record StatDetail : Type 0 where
  pub dev : ℕ
  pub ino : ℕ
  pub nlink : ℕ
  pub uid : ℕ
  pub gid : ℕ
  pub atime : ℤ
  pub ctime : ℤ

abbrev pub no_detail : StatDetail
no_detail = record { dev = 0; ino = 0; nlink = 0; uid = 0; gid = 0; atime = pos 0; ctime = pos 0 }

pub record Stat : Type 0 where
  pub mode : ℕ
  pub size : ℕ
  pub mtime : ℤ
  pub error : Option ℕ
  pub detail : Option StatDetail

pub record Entry : Type 0 where
  pub name : Bytes
  pub mode : ℕ
  pub size : ℕ
  pub mtime : ℤ

abbrev pub s_ifmt : ℕ
s_ifmt = 0xF000

abbrev pub s_ifdir : ℕ
s_ifdir = 0x4000

abbrev pub s_ifreg : ℕ
s_ifreg = 0x8000

abbrev pub s_iflnk : ℕ
s_iflnk = 0xA000

unfoldable pub exists : Stat → Bool
exists s = not (s.mode == 0) && elim s.error [ none ↦ true | some e ↦ e == 0 ]

unfoldable pub is_dir : Stat → Bool
is_dir s = bit_and s.mode s_ifmt == s_ifdir

unfoldable pub is_file : Stat → Bool
is_file s = bit_and s.mode s_ifmt == s_ifreg

unfoldable pub entry_is_dir : Entry → Bool
entry_is_dir e = bit_and e.mode s_ifmt == s_ifdir

unfoldable pub is_symlink : Entry → Bool
is_symlink e = bit_and e.mode s_ifmt == s_iflnk

unfoldable pub request : Bytes → Bytes → Result Bytes
request id path = do
  len ← ok_or (try_u32 (length path)) (invalid_argument path_too_long)
  ok (id ++ (u32_le len ++ path))

unfoldable pub word : Bytes → ℕ → Bytes
word id value = id ++ u32_le value

unfoldable pub u32_at : Bytes → ℕ → ℕ
u32_at b i = from_le_bytes (take 4 (drop i b))

unfoldable pub u64_at : Bytes → ℕ → ℕ
u64_at b i = from_le_bytes (take 8 (drop i b))

-- A number of 64 bits as two's complement, and back.
unfoldable pub i64_of : ℕ → ℤ
i64_of n = if ltb n (2 ^ 63) then pos n else negsuc (2 ^ 64 - 1 - n)

unfoldable pub bits_of : ℤ → ℕ
bits_of (pos n) = n
bits_of (negsuc n) = 2 ^ 64 - 1 - n

unfoldable pub i64_le : ℤ → Bytes
i64_le z = u64_le (bits_of z)

unfoldable pub i64_at : Bytes → ℕ → ℤ
i64_at b i = i64_of (u64_at b i)

unfoldable pub stat_v1 : Bytes → Stat
stat_v1 b = record {
  mode = u32_at b 4;
  size = u32_at b 8;
  mtime = pos (u32_at b 12);
  error = none;
  detail = none;
}

unfoldable pub stat_v2 : Bytes → Stat
stat_v2 b = record {
  mode = u32_at b 24;
  size = u64_at b 40;
  mtime = i64_at b 56;
  error = some (u32_at b 4);
  detail = some (record {
    dev = u64_at b 8;
    ino = u64_at b 16;
    nlink = u32_at b 28;
    uid = u32_at b 32;
    gid = u32_at b 36;
    atime = i64_at b 48;
    ctime = i64_at b 64;
  });
}

unfoldable pub dent_v1_namelen : Bytes → ℕ
dent_v1_namelen b = u32_at b 16

unfoldable pub dent_v2_namelen : Bytes → ℕ
dent_v2_namelen b = u32_at b 72

unfoldable pub entry : Stat → Bytes → Entry
entry stat name = record {
  name = from_utf8_lossy name;
  mode = stat.mode;
  size = stat.size;
  mtime = stat.mtime;
}

-- `u32::try_from(size).unwrap_or(u32::MAX)` and `u32::try_from(mtime).unwrap_or(0)`
unfoldable pub size_u32 : ℕ → ℕ
size_u32 n = if ltb n (2 ^ 32) then n else 2 ^ 32 - 1

unfoldable pub mtime_u32 : ℤ → ℕ
mtime_u32 (pos n) = if ltb n (2 ^ 32) then n else 0
mtime_u32 (negsuc n) = 0

unfoldable pub encode_stat_v1 : Bytes → Stat → Bytes
encode_stat_v1 id stat =
    id ++ (u32_le stat.mode ++ (u32_le (size_u32 stat.size) ++ u32_le (mtime_u32 stat.mtime)))

abbrev pub unwrap_or {ℓ} : {A : Type ℓ} → Option A → A → A
unwrap_or none d = d
unwrap_or (some a) d = a

encode_detail : StatDetail → Stat → Bytes
encode_detail d stat =
    u64_le d.dev
    ++ (u64_le d.ino
        ++ (u32_le stat.mode
            ++ (u32_le d.nlink
                ++ (u32_le d.uid
                    ++ (u32_le d.gid
                        ++ (u64_le stat.size
                            ++ (i64_le d.atime ++ (i64_le stat.mtime ++ i64_le d.ctime))))))))

unfoldable pub encode_stat_v2 : Bytes → Stat → Bytes
unfolding encode_detail
encode_stat_v2 id stat =
    id ++ (u32_le (unwrap_or stat.error 0) ++ encode_detail (unwrap_or stat.detail no_detail) stat)
