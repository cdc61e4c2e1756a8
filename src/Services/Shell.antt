-- ===== src/Services/Shell.antt =====
-- src/services/shell.rs: the `shell:`, `shell,v2:` and `exec:` services.
-- `connect` is the connection's `open`, which belongs to the caller. A run gives the failure of the
-- open, or the result with the reader as the run leaves it.
pub mod Collect
pub mod Quote
use rsadb.Base.{
  ℕ, Bytes, ascii, Bool, true, false, not, ◌&&◌, ◌||◌, ◌==◌, if◌then◌else◌, Option, none, some,
  length, List, [], ◌∷◌, ◌++◌,
}
use rsadb.Error.{Result, ok, err, Error, invalid_argument, command_nul, protocol, trailing_bytes}
use rsadb.Text.{contains_byte, is_empty, is_alphanumeric, any_eq}
use rsadb.Channel.{
  Channel, ChannelReader, Reads, pure, throw, lift, ◌>>=◌, ◌>>◌, send, close, drain, reader,
  with_parts,
}
use rsadb.Services.ShellV2
use rsadb.Services.ShellV2.{FrameId, Frame, Parsed, encode, ShellOutput, no_output, apply, push}

abbrev pub shell_v2_feature : Bytes
shell_v2_feature = ascii "shell_v2"

unfoldable pub check_command : Bytes → Result (Unit {0})
check_command command =
    if contains_byte 0 command then err (invalid_argument command_nul) else ok tt

abbrev pub Served : Type 0 → Type 0
Served A = Result (Result A × ChannelReader)

serve : {A : Type 0} → Result Channel → (Channel → Result A × ChannelReader) → Served A
serve (ok channel) run = ok (run channel)
serve (err e) run = err e

checked :
    {A : Type 0}
    → Result (Unit {0})
    → Result Channel
    → (Channel → Result A × ChannelReader)
    → Served A
unfolding serve
checked (ok _) opened run = serve opened run
checked (err e) opened run = err e

module _ (connect : Bytes → Result Channel) where
  unfoldable pub shell_v1 : Bytes → Served Bytes
  unfolding checked
  shell_v1 command = checked (check_command command) (connect (ascii "shell:" ++ command)) drain

  unfoldable pub exec : Bytes → Served Bytes
  unfolding checked
  exec command = checked (check_command command) (connect (ascii "exec:" ++ command)) drain

-- `for frame in parser.push(&chunk)? { out.apply(&frame) }`
abbrev pub apply_all : List Frame → ShellOutput → ShellOutput
apply_all [] out = out
apply_all (f ∷ fs) out = apply_all fs (apply f out)

-- The end of the stream: the channel is closed first, and then the parser must be empty.
check_pending : Bytes → ShellOutput → Reads ShellOutput
check_pending [] out = pure out
check_pending (b ∷ bs) out = throw (protocol (trailing_bytes (length (b ∷ bs))))

pub finish : Bytes → ShellOutput → Reads ShellOutput
unfolding check_pending
finish pending out = close >> check_pending pending out

-- What the loop does with what a `push` gives; `go` is the loop on the chunks behind it.
pub take_frames :
    ShellOutput
    → ChannelReader
    → (Bytes → ShellOutput → Result ShellOutput × ChannelReader)
    → Parsed
    → Result ShellOutput × ChannelReader
take_frames out r go (ok fs, pending) = go pending (apply_all fs out)
take_frames out r go (err e, pending) = (err e, r)

-- The loop of `collect_v2`, on the chunks to come; `pending` is the buffer of the parser.
pub collect :
    List (Result Bytes) → ChannelReader → Bytes → ShellOutput → Result ShellOutput × ChannelReader
unfolding finish take_frames
collect [] r pending out = finish pending out (with_parts r [] [])
collect (err e ∷ rs) r pending out = (err e, with_parts r [] rs)
collect (ok chunk ∷ rs) r pending out =
    take_frames out (with_parts r [] rs) (collect rs r) (push pending chunk)

unfoldable pub collect_v2 : Channel → Result ShellOutput × ChannelReader
unfolding collect
collect_v2 channel = collect channel.incoming (reader channel) [] no_output

feed_stdin : Bytes → Reads (Unit {0})
feed_stdin [] = pure tt
feed_stdin (b ∷ bs) = lift (encode ShellV2.stdin (b ∷ bs)) >>= send

-- What `shell_v2` sends and then reads.
exchange : Bytes → Channel → Result ShellOutput × ChannelReader
unfolding feed_stdin
exchange stdin channel =
    (do
      feed_stdin stdin
      closing ← lift (encode ShellV2.close_stdin [])
      send closing
      λ r. collect_v2 r.channel)
      (reader channel)

as_output : Result Bytes × ChannelReader → Result ShellOutput × ChannelReader
as_output (ok out, r) = (ok (record { stdout = out; stderr = []; exit_code = none }), r)
as_output (err e, r) = (err e, r)

legacy_output : Served Bytes → Served ShellOutput
unfolding as_output
legacy_output (ok x) = ok (as_output x)
legacy_output (err e) = err e

module _ (connect : Bytes → Result Channel) where
  unfoldable pub shell_v2 : Bytes → Bytes → Served ShellOutput
  unfolding checked exchange
  shell_v2 command stdin =
      checked (check_command command) (connect (ascii "shell,v2:" ++ command)) (exchange stdin)

  unfoldable pub shell : List Bytes → Bytes → Served ShellOutput
  unfolding legacy_output
  shell features command =
      if any_eq features shell_v2_feature
      then shell_v2 command []
      else legacy_output (shell_v1 connect command)

-- A byte that `quote` leaves as it is.
unfoldable pub is_plain : ℕ → Bool
is_plain b = is_alphanumeric b || contains_byte b (ascii "-_./:=@,")

abbrev pub all_plain : Bytes → Bool
all_plain [] = true
all_plain (b ∷ bs) = is_plain b && all_plain bs

-- `arg.replace('\'', "'\\''")`
pub replace_quotes : Bytes → Bytes
replace_quotes [] = []
replace_quotes (c ∷ s) =
    let rest = replace_quotes s in
    if c == b'\'' then b'\'' ∷ b'\\' ∷ b'\'' ∷ b'\'' ∷ rest else c ∷ rest

unfoldable pub quote : Bytes → Bytes
unfolding replace_quotes
quote arg =
    if not (is_empty arg) && all_plain arg
    then arg
    else b'\'' ∷ (replace_quotes arg ++ (b'\'' ∷ []))
