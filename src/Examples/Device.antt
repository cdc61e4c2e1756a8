-- ===== src/Examples/Device.antt =====
-- src/device/mod.rs over a concrete connection.
use rsadb.Base.{
  ℕ, ◌≡◌, refl, Bytes, ascii, false, none, some, length, List, [], ◌∷◌, ◌++◌, map, arith,
}
use rsadb.Error.{ok}
use rsadb.Text.TextMap.{TextMap, insert}
use rsadb.Text.{
  any_eq, contains_byte, is_alphanumeric, join, lines, split, starts_with, strip_prefix, trim_end,
  split_once,
}
use rsadb.Text.Lossy.{from_utf8_lossy}
use rsadb.Channel.{Channel, ChannelReader, reader, drain, close, read_to_end}
use rsadb.Services.Shell.{shell, shell_v1, check_command, quote, is_plain}
use rsadb.Services.Content.{command, parse_rows, count_rows, parse_fields, after_name}
use rsadb.Services.ShellV2.{ShellOutput, success}
use rsadb.Device.{
  Connection, Device, new, run_shell, features, call, check_exit, check_count, shell_checked,
  stdout_text, content_query_with,
}
use rsadb.Channel.Reading.{Holds, chunk, ended}
use rsadb.Services.Sync.Codec.{word}
use rsadb.Services.Sync.Client.Pull.{transfer}
use rsadb.Device.Files.{pull_bytes}
use rsadb.Device.Files.Pulls.{pull_bytes-transfer}
use rsadb.Text.Decimal.{decimal}
use rsadb.Channel.Sending.{all_sent}
use rsadb.Services.Sync.Client.{SyncFeatures}
use rsadb.Services.Sync.Client.Transfer.{push}
use rsadb.Services.Sync.Client.Push.{push_request, push-transfer}
use rsadb.Device.Query.{content_query_with-counted}

abbrev answers : ℕ → Bytes
answers n = ascii "Row: 0 _id=7\n"

abbrev connection : Connection
connection = record {
  features = λ n. ok [];
  open_service = λ n service. ok (record {
    incoming = ok (answers n) ∷ [];
    outcomes = [];
    sent = [];
    closed = false;
    close_outcome = none;
  });
}

abbrev behind : Device
behind = record { features = some []; turn = 3 }

abbrev row : TextMap
row = (ascii "_id", ascii "7") ∷ []

queried :
    content_query_with connection (λ s. s) (ascii "content://sms") (ascii "_id" ∷ []) [] new
    ≡ (ok (row ∷ []), behind)
unfolding content_query_with shell_checked run_shell features call shell any_eq shell_v1
    check_command contains_byte command quote is_plain is_alphanumeric join drain check_exit success
    close read_to_end check_count count_rows parse_rows from_utf8_lossy lines split starts_with
    strip_prefix trim_end split_once parse_fields after_name insert
queried = refl

content_query_with-counted_example :
    (out : ShellOutput) × (between : Device) × (check : ShellOutput) × ((shell_checked connection
          (λ s. s)
          (command (ascii "content://sms") (ascii "_id" ∷ []) [])
          new
        ≡ (ok out, between))
      × ((shell_checked connection
              (λ s. s)
              (command (ascii "content://sms") (ascii "_id" ∷ []) [])
              between
            ≡ (ok check, behind))
          × ((parse_rows (stdout_text out) (ascii "_id" ∷ []) ≡ ok (row ∷ []))
              × (count_rows (stdout_text check) ≡ length (row ∷ [])))))
content_query_with-counted_example =
    content_query_with-counted connection (λ s. s) (ascii "content://sms") (ascii "_id" ∷ []) []
      (row ∷ []) new behind queried

abbrev two_chunks : List Bytes
two_chunks = ascii "abc" ∷ ascii "de" ∷ []

abbrev sending : Channel
sending = record {
  incoming = ok (transfer two_chunks 5) ∷ [];
  outcomes = [];
  sent = [];
  closed = false;
  close_outcome = none;
}

abbrev sync_connection : Connection
sync_connection = record {
  features = λ n. ok (ascii "ls_v2" ∷ []);
  open_service = λ n service. ok sending;
}

pull_bytes-transfer_example :
    (pull_bytes sync_connection (ascii "/sdcard/a") new).0 ≡ ok (ascii "abcde")
unfolding word
pull_bytes-transfer_example =
    pull_bytes-transfer sync_connection (ascii "/sdcard/a") (ascii "ls_v2" ∷ []) sending two_chunks
      5 [] refl refl refl (omega arith) (omega arith, (omega arith, tt)) (omega arith)
      (transfer two_chunks 5, chunk (transfer two_chunks 5) [] [] _ ended refl, refl)

abbrev accepting : ChannelReader
accepting = reader (record {
  incoming = ok (ascii "OKAY") ∷ ok (0 ∷ 0 ∷ 0 ∷ 0 ∷ []) ∷ [];
  outcomes = [];
  sent = [];
  closed = false;
  close_outcome = none;
})

abbrev features_v1 : SyncFeatures
features_v1 = record { ls_v2 = false; stat_v2 = false; sendrecv_v2 = false }

push-transfer_example :
    (t : ChannelReader) × (push features_v1
        (ascii "/a")
        0o644
        9
        (map (λ c. ok c) two_chunks)
        accepting
      ≡ (ok tt, t))
    × (all_sent t
        ≡ all_sent accepting
          ++ (push_request features_v1 (ascii "/a") 0o644 ++ transfer two_chunks 9))
    × Holds t []
unfolding decimal
push-transfer_example =
    push-transfer features_v1 (ascii "/a") 0o644 9 two_chunks accepting (0 ∷ 0 ∷ 0 ∷ 0 ∷ []) []
      (omega arith) (((λ e. cc), omega arith), (((λ e. cc), omega arith), tt)) refl (omega arith)
      (
        ascii "OKAY" ++ (0 ∷ 0 ∷ 0 ∷ 0 ∷ []),
        chunk (ascii "OKAY") _ (0 ∷ 0 ∷ 0 ∷ 0 ∷ []) _
            (chunk (0 ∷ 0 ∷ 0 ∷ 0 ∷ []) [] [] _ ended refl) refl,
        refl,
      )
