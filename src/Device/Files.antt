-- ===== src/Device/Files.antt =====
-- src/device/files.rs: the file transfers of a device, each on a `sync:` channel of its own.
-- Local files are parameters: what their reads, writes and metadata give. A file in the making keeps
-- what has been written to it.
pub mod Pulls
use rsadb.Base.{
  ℕ, ◌+◌, ◌%◌, ◌^◌, Bytes, ascii, Bool, true, false, Option, none, some, length, List, [], ◌∷◌,
  ◌++◌,
}
use rsadb.Error.{Result, ok, err, Error, invalid_argument, not_regular_file, bad_mtime, ok_or}
use rsadb.Channel.{Channel, ChannelReader, Reads, reader}
use rsadb.Channel
use rsadb.Services.Sync.Codec.{Entry, Stat}
use rsadb.Services.Sync.Client.{SyncFeatures, from_features, list, stat}
use rsadb.Services.Sync.Client.Transfer.{pull, push, quit}
use rsadb.Device.{Connection, Run, pure, lift, ◌>>=◌, ◌>>◌, features, call}

abbrev pub fallback_push_mode : ℕ
fallback_push_mode = 0o100644

run_on : {A : Type 0} → Reads A → Result Channel → Result A
run_on work (ok channel) = (work (reader channel)).0
run_on work (err e) = err e

then_quit : {A : Type 0} → Reads A → Reads A
then_quit work = Channel.◌>>=◌ work (λ a. Channel.◌>>=◌ quit (λ _. Channel.pure a))

-- What `File::create`, and then each write and the flush of the file give. None is left: it succeeds.
pub record LocalFile : Type 0 where
  pub created : Result (Unit {0})
  pub writes : List (Option Error)
  pub flushed : Result (Unit {0})

-- `metadata` of a local file: `modified` since the epoch in seconds, where there is such a time that
-- fits a `u32`.
pub record Metadata : Type 0 where
  pub is_file : Bool
  pub mtime : Option ℕ
  pub mode : ℕ

-- The bytes written and their number, as `total` counts them.
abbrev pub Written : Type 0
Written = Bytes × ℕ

abbrev next_write : List (Option Error) → Option Error × List (Option Error)
next_write [] = (none, [])
next_write (o ∷ os) = (o, os)

-- The loop of `pull_to_file`.
pub write_items : List (Result Bytes) → List (Option Error) → Written → Result Written
write_items [] writes w = ok w
write_items (err e ∷ items) writes w = err e
write_items (ok chunk ∷ items) [] (out, total) =
    write_items items [] (out ++ chunk, (total + length chunk) % 2 ^ 64)
write_items (ok chunk ∷ items) (none ∷ writes) (out, total) =
    write_items items writes (out ++ chunk, (total + length chunk) % 2 ^ 64)
write_items (ok chunk ∷ items) (some e ∷ writes) w = err e

-- The loop of `pull_bytes`.
pub join_items : Bytes → List (Result Bytes) → Result Bytes
join_items out [] = ok out
join_items out (err e ∷ items) = err e
join_items out (ok chunk ∷ items) = join_items (out ++ chunk) items

check_file : Bytes → Bool → Result (Unit {0})
check_file local true = ok tt
check_file local false = err (invalid_argument (not_regular_file local))

module _ (C : Connection) where
  -- A piece of work on a new `sync:` channel.
  unfoldable pub with_sync : {A : Type 0} → (SyncFeatures → Reads A) → Run A
  unfolding run_on
  with_sync work = do
    fs ← features C
    call C (λ connect. run_on (work (from_features fs)) (connect (ascii "sync:")))

  unfoldable pub list_dir : Bytes → Run (List Entry)
  unfolding then_quit
  list_dir path = with_sync (λ f. then_quit (list f path))

  unfoldable pub device_stat : Bytes → Run Stat
  unfolding then_quit
  device_stat path = with_sync (λ f. then_quit (stat f path))

  -- The items of the stream that `pull` gives.
  unfoldable pub device_pull : Bytes → Run (List (Result Bytes))
  device_pull remote = with_sync (λ f. pull f remote)

  unfoldable pub pull_bytes : Bytes → Run Bytes
  unfolding join_items
  pull_bytes remote = do items ← device_pull remote; lift (join_items [] items)

  unfoldable pub pull_to_file : Bytes → LocalFile → Run Written
  unfolding write_items
  pull_to_file remote file = do
    items ← device_pull remote
    lift file.created
    written ← lift (write_items items file.writes ([], 0))
    lift file.flushed
    pure written

  -- The source gives its reads: the bytes in memory, or a file.
  unfoldable pub push_source : List (Result Bytes) → Bytes → ℕ → ℕ → Run (Unit {0})
  unfolding then_quit
  push_source source remote mode mtime =
      with_sync (λ f. then_quit (push f remote mode mtime source))

  unfoldable pub push_file :
      Bytes → Result Metadata → Result (List (Result Bytes)) → Bytes → Run (Unit {0})
  unfolding check_file
  push_file local metadata opened remote = do
    meta ← lift metadata
    lift (check_file local meta.is_file)
    mtime ← lift (ok_or meta.mtime (invalid_argument bad_mtime))
    source ← lift opened
    push_source source remote meta.mode mtime
