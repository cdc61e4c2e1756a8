-- ===== src/Examples/Services.antt =====
-- src/channel.rs and src/services at concrete streams.
use rsadb.Base.{map, ◌≡◌, refl, Bytes, ascii, none, some, List, [], ◌∷◌, ◌++◌, ◌^◌, arith, false}
use rsadb.Error.{Result, ok}
use rsadb.Channel.{Channel}
use rsadb.Channel.Reading.{ended, chunk}
use rsadb.Services.ShellV2.{encode, to_byte, FrameId, Frame, push}
use rsadb.Services.ShellV2.Stream.{feed, push-feed}
use rsadb.Services.ShellV2.RoundTrip.{encode_all, push-encode_all}
use rsadb.Services.Shell.{collect_v2, quote}
use rsadb.Services.Shell.Collect.{Collects, collect_v2-Collects}
use rsadb.Text.{strip_prefix}
use rsadb.Text.Laws.{print_lines}
use rsadb.Services.Content.{parse_rows, count_rows}
use rsadb.Services.Content.Rows.{Row, IsRow, all_lines, row_map, parse_rows-print_lines}
use rsadb.Services.Props.{validate_name, is_valid, is_name_byte}
use rsadb.Services.Props.Names.{validate_name-quote}
use rsadb.Text.{contains_byte, is_alphanumeric}
use rsadb.Services.Sync.Codec.{pos, negsuc, Stat, StatDetail, stat_v2, encode_stat_v2}
use rsadb.Services.Sync.Codec.RoundTrip.{stat_v2-encode_stat_v2}

abbrev channel_of : List (Result Bytes) → Channel
channel_of chunks = record {
  incoming = chunks;
  outcomes = [];
  sent = [];
  closed = false;
  close_outcome = none;
}

abbrev said : Frame
said = record { id = FrameId.stdout; payload = ascii "hi" }

abbrev left : Frame
left = record { id = FrameId.exit; payload = 0 ∷ [] }

abbrev said_bytes : Bytes
said_bytes = 1 ∷ 2 ∷ 0 ∷ 0 ∷ 0 ∷ ascii "hi"

abbrev left_bytes : Bytes
left_bytes = 3 ∷ 1 ∷ 0 ∷ 0 ∷ 0 ∷ 0 ∷ []

push-feed_example :
    push said_bytes ((3 ∷ 1 ∷ []) ++ (0 ∷ 0 ∷ 0 ∷ 0 ∷ []))
    ≡ feed (push said_bytes (3 ∷ 1 ∷ [])) (0 ∷ 0 ∷ 0 ∷ 0 ∷ [])
push-feed_example = push-feed said_bytes (3 ∷ 1 ∷ []) (0 ∷ 0 ∷ 0 ∷ 0 ∷ [])

encoded : encode_all (said ∷ left ∷ []) ≡ ok (said_bytes ++ left_bytes)
unfolding encode to_byte
encoded = refl

push-encode_all_example : push [] (said_bytes ++ left_bytes) ≡ (ok (said ∷ left ∷ []), [])
push-encode_all_example = push-encode_all (said ∷ left ∷ []) (said_bytes ++ left_bytes) encoded

abbrev run : Channel
run = channel_of (ok (said_bytes ++ (3 ∷ [])) ∷ ok (1 ∷ 0 ∷ 0 ∷ 0 ∷ 0 ∷ []) ∷ [])

collect_v2-Collects_example : Collects run (push [] (said_bytes ++ left_bytes)) (collect_v2 run)
collect_v2-Collects_example = collect_v2-Collects run (said_bytes ++ left_bytes) (
    chunk (said_bytes ++ (3 ∷ [])) _ (1 ∷ 0 ∷ 0 ∷ 0 ∷ 0 ∷ []) _
      (chunk (1 ∷ 0 ∷ 0 ∷ 0 ∷ 0 ∷ []) _ [] _ ended refl) refl)

abbrev file : Stat
file = record { mode = 0x81A4; size = 1234; mtime = pos 1700000000; error = none; detail = none }

abbrev inode : StatDetail
inode = record {
  dev = 2;
  ino = 77;
  nlink = 1;
  uid = 0;
  gid = 1000;
  atime = negsuc 4;
  ctime = pos 9;
}

abbrev old_file : Stat
old_file = record {
  mode = 0x81A4;
  size = 2 ^ 40;
  mtime = negsuc 99;
  error = some 0;
  detail = some inode;
}

stat_v2-encode_stat_v2_example : stat_v2 (encode_stat_v2 (ascii "STA2") old_file) ≡ old_file
stat_v2-encode_stat_v2_example = stat_v2-encode_stat_v2 b'S' b'T' b'A' b'2' old_file (
  omega arith,
  omega arith,
  omega arith,
  (0, refl, omega arith),
  (
    inode,
    refl,
    (omega arith, omega arith, omega arith, omega arith, omega arith, omega arith, omega arith),
  ),
)

validate_name-quote_example : quote (ascii "ro.build.id") ≡ ascii "ro.build.id"
unfolding validate_name is_valid is_name_byte is_alphanumeric contains_byte
validate_name-quote_example = validate_name-quote (ascii "ro.build.id") refl

abbrev sms_columns : List Bytes
sms_columns = ascii "_id" ∷ ascii "body" ∷ []

abbrev code_row : Row
code_row = record {
  index = ascii "0";
  front = (ascii "_id", ascii "1") ∷ [];
  first = ascii "Your code, is 123.";
  more = ascii "Text STOP" ∷ [];
}

code_row-IsRow : IsRow (ascii "body") sms_columns code_row
unfolding strip_prefix
code_row-IsRow = record {
  index_no_space = omega arith;
  front_no_comma = omega arith;
  same_columns = refl;
  more_lines = (((λ h. cc), (λ h. cc), refl), tt);
  are_lines = ((omega arith, omega arith), ((omega arith, omega arith), tt));
}

parse_rows-print_lines_example :
    (parse_rows (print_lines (all_lines (ascii "body") (code_row ∷ []))) sms_columns
      ≡ ok (map (row_map (ascii "body")) (code_row ∷ [])))
    × (count_rows (print_lines (all_lines (ascii "body") (code_row ∷ []))) ≡ 1)
parse_rows-print_lines_example =
    parse_rows-print_lines (ascii "body") sms_columns refl (code_row ∷ []) (code_row-IsRow, tt)
