-- ===== src/Device/Files/Pulls.antt =====
-- The pulls of src/device/files.rs, from the bytes that the device sends on the `sync:` channel.
use rsadb.Base.{
  ℕ, ◌≡◌, ◌<◌, ◌≤◌, ◌^◌, refl, ap, ◌∙◌, sym, Bytes, IsU32, ascii, length, concat, append_assoc,
  append-nil, All, map, List, [], ◌∷◌, ◌++◌,
}
use rsadb.Error.{ok}
use rsadb.Channel.{Channel, ChannelReader, reader}
use rsadb.Channel.Reading.{Holds}
use rsadb.Channel.Sending.{Writes-Holds}
use rsadb.Services.Sync.Codec.{data_max}
use rsadb.Services.Sync.Client.{SyncFeatures, from_features}
use rsadb.Services.Sync.Client.Start.{pull_request, start_pull-Puts}
use rsadb.Services.Sync.Client.Transfer.{pull}
use rsadb.Services.Sync.Client.Pull.{transfer, items-transfer}
use rsadb.Device.{Connection, new, features, cached, keep_features, call}
use rsadb.Device.Files.{run_on, with_sync, device_pull, pull_bytes, join_items}

join_items-chunks :
    (out : Bytes) (cs : List Bytes) → join_items out (map (λ c. ok c) cs) ≡ ok (out ++ concat cs)
unfolding join_items
join_items-chunks out [] = ap ok (sym (append-nil out))
join_items-chunks out (c ∷ cs) =
    join_items-chunks (out ++ c) cs ∙ ap ok (append_assoc out c (concat cs))

pull-transfer :
    (f : SyncFeatures) (remote : Bytes) (r : ChannelReader) (cs : List Bytes) (mtime : ℕ)
    (rest : Bytes)
    → length remote < 2 ^ 32
    → r.channel.outcomes ≡ []
    → All (λ c. length c ≤ data_max) cs
    → IsU32 mtime
    → Holds r (transfer cs mtime ++ rest)
    → (pull f remote r).0 ≡ ok (map (λ c. ok c) cs)
unfolding pull
pull-transfer f remote r cs mtime rest short quiet all small h =
    let (s, went, keeps) = start_pull-Puts f remote r short quiet in
    let (t, got, _) =
      items-transfer s cs mtime rest all small
        (Writes-Holds (pull_request f remote) r s (transfer cs mtime ++ rest) keeps h) in
    rw (went, got) refl

module _ (C : Connection) where
  -- On a new device whose features are read and whose `sync:` channel opens, accepts every `send`
  -- and gives chunks of up to 64 KiB with a `DONE` behind them, however it cuts the bytes: `pull_bytes`
  -- returns these chunks behind one another. The path is shorter than 4 GiB.
  pub pull_bytes-transfer :
      (remote : Bytes) (fs : List Bytes) (channel : Channel) (cs : List Bytes) (mtime : ℕ)
      (rest : Bytes)
      → C.features 0 ≡ ok fs
      → C.open_service 1 (ascii "sync:") ≡ ok channel
      → channel.outcomes ≡ []
      → length remote < 2 ^ 32
      → All (λ c. length c ≤ data_max) cs
      → IsU32 mtime
      → Holds (reader channel) (transfer cs mtime ++ rest)
      → (pull_bytes C remote new).0 ≡ ok (concat cs)
  unfolding pull_bytes device_pull with_sync run_on features cached keep_features call
  pull_bytes-transfer remote fs channel cs mtime rest known opened quiet short all small h =
      rw
        (
          known,
          opened,
          pull-transfer (from_features fs) remote (reader channel) cs mtime rest short quiet all
              small h,
        )
        (join_items-chunks [] cs)
