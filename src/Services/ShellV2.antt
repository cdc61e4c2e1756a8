-- ===== src/Services/ShellV2.antt =====
-- src/services/shell_v2.rs: the frames of the `shell,v2:` service.
pub mod Stream
pub mod RoundTrip
use rsadb.Base.{
  ℕ, zero, suc, ◌+◌, Bytes, Bool, true, false, ltb, ◌==◌, if◌then◌else◌, Option, none, some, length,
  take, drop, u32_le, from_le_bytes, List, [], ◌∷◌, ◌++◌,
}
use rsadb.Error.{
  Result, ok, err, Error, protocol, invalid_argument, unknown_frame, frame_too_long, ◌>>=◌, ok_or,
}
use rsadb.Wire.Message.{try_u32}

pub data FrameId : Type 0 where
  stdin stdout stderr exit close_stdin window_size : FrameId

-- `id as u8`
unfoldable pub to_byte : FrameId → ℕ
to_byte stdin = 0
to_byte stdout = 1
to_byte stderr = 2
to_byte exit = 3
to_byte close_stdin = 4
to_byte window_size = 5

unfoldable pub from_byte : ℕ → Option FrameId
from_byte b =
    if b == 0
    then some stdin
    else if b == 1
    then some stdout
    else if b == 2
    then some stderr
    else if b == 3
    then some exit
    else if b == 4
    then some close_stdin
    else if b == 5
    then some window_size
    else none

pub record Frame : Type 0 where
  pub id : FrameId
  pub payload : Bytes

unfoldable pub encode : FrameId → Bytes → Result Bytes
encode id payload = do
  len ← ok_or (try_u32 (length payload)) (invalid_argument frame_too_long)
  ok (to_byte id ∷ (u32_le len ++ payload))

-- The next frame of the buffer and what is behind it, an unknown id, or not enough bytes yet.
pub data Next : Type 0 where
  whole : Frame → Bytes → Next
  unknown : ℕ → Next
  wait : Next

cut_frame : FrameId → ℕ → Bytes → Next
cut_frame id len body =
    if ltb (length body) len
    then wait
    else whole (record { id = id; payload = take len body }) (drop len body)

with_id : ℕ → Option FrameId → ℕ → Bytes → Next
unfolding cut_frame
with_id i none len body = unknown i
with_id i (some id) len body = cut_frame id len body

unfoldable pub next_frame : Bytes → Next
unfolding with_id
next_frame (i ∷ a ∷ b ∷ c ∷ d ∷ body) =
    with_id i (from_byte i) (from_le_bytes (a ∷ b ∷ c ∷ d ∷ [])) body
next_frame _ = wait

-- What the loop of `push` gives, with the buffer that it leaves. After an unknown id the frames in
-- front of it are lost, and the buffer stands at the id.
abbrev pub Parsed : Type 0
Parsed = Result (List Frame) × Bytes

abbrev pub cons_frame : Frame → Parsed → Parsed
cons_frame f (ok fs, rest) = (ok (f ∷ fs), rest)
cons_frame f (err e, rest) = (err e, rest)

-- What the loop does with the next frame; `go` is the loop on the bytes behind it.
proceed : Next → Bytes → (Bytes → Parsed) → Parsed
proceed (whole f rest) _ go = cons_frame f (go rest)
proceed (unknown i) buffer _ = (err (protocol (unknown_frame i)), buffer)
proceed wait buffer _ = (ok [], buffer)

-- The loop of `push`. A frame takes five bytes at least, so fuel for every byte is enough.
pub parse : ℕ → Bytes → Parsed
unfolding proceed
parse zero buffer = (ok [], buffer)
parse (suc fuel) buffer = proceed (next_frame buffer) buffer (parse fuel)

-- `push(bytes)` on the buffer of the parser.
unfoldable pub push : Bytes → Bytes → Parsed
unfolding parse next_frame
push buffer bytes = parse (length (buffer ++ bytes)) (buffer ++ bytes)

pub record ShellOutput : Type 0 where
  pub stdout : Bytes
  pub stderr : Bytes
  pub exit_code : Option ℕ

abbrev pub no_output : ShellOutput
no_output = record { stdout = []; stderr = []; exit_code = none }

abbrev first : Bytes → Option ℕ
first [] = none
first (b ∷ bs) = some b

apply_id : FrameId → Bytes → ShellOutput → ShellOutput
apply_id stdout p o = record o { stdout = o.stdout ++ p }
apply_id stderr p o = record o { stderr = o.stderr ++ p }
apply_id exit p o = record o { exit_code = first p }
apply_id _ p o = o

unfoldable pub apply : Frame → ShellOutput → ShellOutput
unfolding apply_id
apply f o = apply_id f.id f.payload o

unfoldable pub success : ShellOutput → Bool
success o = elim o.exit_code [ none ↦ true | some c ↦ c == 0 ]
