-- ===== src/Services/Sync/Client.antt =====
-- `SyncClient` of src/services/sync/mod.rs. The client is its features, which never change, and its
-- reader.
pub mod Transfer
pub mod Pull
pub mod Start
pub mod Push
use rsadb.Base.{
  ℕ, zero, suc, ◌+◌, Bytes, ascii, bytes_eq, Bool, true, false, ltb, ◌==◌, if◌then◌else◌, Option,
  none, some, length, take, drop, u32_le, List, [], ◌∷◌, ◌++◌,
}
use rsadb.Error.{
  Result, ok, err, Error, protocol, remote_failure, unexpected_reply, unexpected_id, chunk_exceeds,
  ok_or,
}
use rsadb.Wire.Message.{try_u32}
use rsadb.Text.{any_eq, trim_end}
use rsadb.Text.Lossy.{from_utf8_lossy}
use rsadb.Channel.{
  Channel, ChannelReader, Reads, pure, throw, lift, ◌>>=◌, ◌>>◌, send, close, read_exact, read_u32,
  reader,
}
use rsadb.Services.Sync.Codec.{
  Stat, Entry, stat_v1, stat_v2, entry, dent_v1_namelen, dent_v2_namelen, request, word, data_max,
  stat_v1_len, stat_v2_len, dent_v1_len, dent_v2_len, id_list, id_lis2, id_dent, id_dnt2, id_stat,
  id_sta2, id_recv, id_rcv2, id_send, id_snd2, id_data, id_done, id_okay, id_fail, id_quit,
}

pub record SyncFeatures : Type 0 where
  pub ls_v2 : Bool
  pub stat_v2 : Bool
  pub sendrecv_v2 : Bool

unfoldable pub from_features : List Bytes → SyncFeatures
from_features features = record {
  ls_v2 = any_eq features (ascii "ls_v2");
  stat_v2 = any_eq features (ascii "stat_v2");
  sendrecv_v2 = any_eq features (ascii "sendrecv_v2");
}

-- `fail`: the message behind a `FAIL`; a failure of the reading takes its place.
unfoldable pub fail : {A : Type 0} → Reads A
fail = do len ← read_u32; msg ← read_exact len; throw (remote_failure (from_utf8_lossy msg))

-- The two cases that `read_status` and `next_data` share.
other_reply : {A : Type 0} → Bytes → Reads A
unfolding fail
other_reply id =
    if bytes_eq id id_fail then fail else throw (protocol (unexpected_reply (from_utf8_lossy id)))

status_of : Bytes → Reads (Unit {0})
unfolding other_reply
status_of id = if bytes_eq id id_okay then (read_u32 >>= λ _. pure tt) else other_reply id

unfoldable pub read_status : Reads (Unit {0})
unfolding status_of
read_status = read_exact 4 >>= status_of

unfoldable pub expect_id : Bytes → Bytes → Reads (Unit {0})
expect_id b want =
    if bytes_eq (take 4 b) want
    then pure tt
    else throw (protocol (unexpected_id (from_utf8_lossy want) (from_utf8_lossy (take 4 b))))

stat_with : Bytes → ℕ → (Bytes → Stat) → Bytes → Reads Stat
unfolding expect_id
stat_with id len parse path = do
  bytes ← lift (request id path)
  send bytes
  b ← read_exact len
  expect_id b id
  pure (parse b)

unfoldable pub stat : SyncFeatures → Bytes → Reads Stat
unfolding stat_with
stat f path =
    if f.stat_v2
    then stat_with id_sta2 stat_v2_len stat_v2 path
    else stat_with id_stat stat_v1_len stat_v1 path

-- What a listing of either version uses: the ids, the header and what is read from it.
record Listing : Type 0 where
  req : Bytes
  dent : Bytes
  header_len : ℕ
  stat_of : Bytes → Stat
  namelen : Bytes → ℕ

abbrev listing : Bool → Listing
listing true = record {
  req = id_lis2;
  dent = id_dnt2;
  header_len = dent_v2_len;
  stat_of = stat_v2;
  namelen = dent_v2_namelen;
}
listing false = record {
  req = id_list;
  dent = id_dent;
  header_len = dent_v1_len;
  stat_of = stat_v1;
  namelen = dent_v1_namelen;
}

read_entry : Listing → Bytes → Reads Entry
unfolding expect_id
read_entry l b = do
  expect_id b l.dent
  name ← read_exact (l.namelen b)
  pure (entry (l.stat_of b) name)

-- What a header of a listing asks for; `more` reads the entries behind it.
list_header : Listing → List Entry → (List Entry → Reads (List Entry)) → Bytes → Reads (List Entry)
unfolding read_entry
list_header l entries more b =
    let next : Reads (List Entry) = (read_entry l b >>= λ e. more (entries ++ (e ∷ []))) in
    if bytes_eq (take 4 b) id_done
    then pure entries
    else if bytes_eq (take 4 b) id_fail
    then throw (remote_failure (trim_end (λ c. c == 0) (from_utf8_lossy (drop 8 b))))
    else next

-- The loop of `list`. Each round takes a header of twenty bytes at least, so fuel for every byte
-- that is still to come is enough.
list_entries : ℕ → Listing → List Entry → Reads (List Entry)
unfolding list_header
list_entries zero l entries = pure entries
list_entries (suc fuel) l entries =
    read_exact l.header_len >>= list_header l entries (list_entries fuel l)

-- The bytes that the device still sends.
abbrev pub incoming_bytes : List (Result Bytes) → ℕ
incoming_bytes [] = 0
incoming_bytes (ok chunk ∷ rs) = length chunk + incoming_bytes rs
incoming_bytes (err e ∷ rs) = incoming_bytes rs

abbrev pub available : ChannelReader → ℕ
available r = length r.buffer + incoming_bytes r.channel.incoming

unfoldable pub list : SyncFeatures → Bytes → Reads (List Entry)
unfolding list_entries
list f path = do
  bytes ← lift (request (listing f.ls_v2).req path)
  send bytes
  λ r. list_entries (suc (available r)) (listing f.ls_v2) [] r

data_of : ℕ → Reads (Option Bytes)
data_of len =
    if ltb data_max len
    then throw (protocol (chunk_exceeds len data_max))
    else (read_exact len >>= λ b. pure (some b))

data_reply : Bytes → Reads (Option Bytes)
unfolding data_of other_reply
data_reply id =
    if bytes_eq id id_data
    then (read_u32 >>= data_of)
    else if bytes_eq id id_done
    then (read_u32 >>= λ _. pure none)
    else other_reply id

unfoldable pub next_data : Reads (Option Bytes)
unfolding data_reply
next_data = read_exact 4 >>= data_reply

-- `start_pull`
pull_v2 : Bytes → Reads (Unit {0})
pull_v2 path = do bytes ← lift (request id_rcv2 path); send bytes; send (word id_rcv2 0)

pull_v1 : Bytes → Reads (Unit {0})
pull_v1 path = lift (request id_recv path) >>= send

unfoldable pub start_pull : SyncFeatures → Bytes → Reads (Unit {0})
unfolding pull_v2 pull_v1
start_pull f path = if f.sendrecv_v2 then pull_v2 path else pull_v1 path
