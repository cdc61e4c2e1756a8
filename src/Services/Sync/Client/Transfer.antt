-- ===== src/Services/Sync/Client/Transfer.antt =====
-- `pull`, `push` and `quit` of src/services/sync/mod.rs.
use rsadb.Base.{
  ℕ, zero, suc, Bytes, if◌then◌else◌, Option, none, some, length, u32_le, List, [], ◌∷◌, ◌++◌,
}
use rsadb.Error.{Result, ok, err, protocol, chunk_too_large, ok_or}
use rsadb.Text.Decimal.{decimal}
use rsadb.Wire.Message.{try_u32}
use rsadb.Channel.{ChannelReader, Reads, pure, throw, lift, ◌>>=◌, ◌>>◌, send, close}
use rsadb.Services.Sync.Codec.{request, word, id_data, id_done, id_send, id_snd2, id_quit}
use rsadb.Services.Sync.Client.{SyncFeatures, next_data, start_pull, available, read_status}

-- The items of the stream that `pull` gives, and the reader behind them.
abbrev pub Items : Type 0
Items = List (Result Bytes) × ChannelReader

abbrev pub cons_item : Bytes → Items → Items
cons_item chunk (xs, r) = (ok chunk ∷ xs, r)

-- One step of the stream; `go` is the stream behind it. A failure is the last item.
unfoldable pub item : (ChannelReader → Items) → Result (Option Bytes) × ChannelReader → Items
item go (ok (some chunk), r) = cons_item chunk (go r)
item go (ok none, r) = ([], r)
item go (err e, r) = (err e ∷ [], r)

-- A step takes eight bytes at least, so fuel for every byte that is still to come is enough.
unfoldable pub items : ℕ → ChannelReader → Items
unfolding item
items zero r = ([], r)
items (suc fuel) r = item (items fuel) (next_data r)

started : Result (Unit {0}) × ChannelReader → Result (List (Result Bytes)) × ChannelReader
unfolding items
started (ok _, r) = let (xs, r') = items (suc (available r)) r in (ok xs, r')
started (err e, r) = (err e, r)

unfoldable pub pull : SyncFeatures → Bytes → Reads (List (Result Bytes))
unfolding started
pull f path r = started (start_pull f path r)

unfoldable pub push_v2 : Bytes → ℕ → Reads (Unit {0})
push_v2 path mode = do
  bytes ← lift (request id_snd2 path)
  send bytes
  send (word id_snd2 mode ++ u32_le 0)

unfoldable pub push_v1 : Bytes → ℕ → Reads (Unit {0})
push_v1 path mode = lift (request id_send (path ++ (b',' ∷ decimal mode))) >>= send

unfoldable pub start_push : SyncFeatures → Bytes → ℕ → Reads (Unit {0})
unfolding push_v1 push_v2
start_push f path mode = if f.sendrecv_v2 then push_v2 path mode else push_v1 path mode

unfoldable pub send_chunk : Bytes → Reads (Unit {0})
send_chunk chunk = do
  len ← lift (ok_or (try_u32 (length chunk)) (protocol chunk_too_large))
  send (word id_data len ++ chunk)

-- The loop of `push`, on what the reads of the source give. None is left, or an empty one, at the
-- end of the source.
unfoldable pub send_chunks : List (Result Bytes) → Reads (Unit {0})
unfolding send_chunk
send_chunks [] = pure tt
send_chunks (err e ∷ source) = throw e
send_chunks (ok [] ∷ source) = pure tt
send_chunks (ok (b ∷ bs) ∷ source) = send_chunk (b ∷ bs) >> send_chunks source

unfoldable pub push : SyncFeatures → Bytes → ℕ → ℕ → List (Result Bytes) → Reads (Unit {0})
unfolding start_push send_chunks
push f path mode mtime source = do
  start_push f path mode
  send_chunks source
  send (word id_done mtime)
  read_status

unfoldable pub quit : Reads (Unit {0})
quit = do send (word id_quit 0); close
