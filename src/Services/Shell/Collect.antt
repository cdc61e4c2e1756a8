-- ===== src/Services/Shell/Collect.antt =====
-- `collect_v2` of src/services/shell.rs and the stream as a whole.
use rsadb.Base.{
  ℕ, length, Bytes, ◌≡◌, refl, sym, ap, ◌∙◌, subst, List, [], ◌∷◌, ◌++◌, append-nil, append_assoc,
  true, Option, none, some, ◌==◌, if◌then◌else◌,
}
use rsadb.Error.{Result, ok, err, Error, protocol, trailing_bytes}
use rsadb.Channel.{Channel, ChannelReader, reader, with_parts, close}
use rsadb.Channel.Reading.{Pending, ended, chunk}
use rsadb.Services.ShellV2.{
  Frame, FrameId, to_byte, wait, next_frame, Parsed, cons_frame, ShellOutput, no_output, apply,
  push, parse,
}
use rsadb.Services.ShellV2.Stream.{
  prepend_frames, feed, push-feed, push-Settled, Settled, parse-wait,
}
use rsadb.Services.Shell.{apply_all, collect, collect_v2, finish, take_frames}

-- The run ends as `P` says of what the stream gives when it is parsed as a whole.
abbrev Ran : ShellOutput → Parsed → ChannelReader → Result ShellOutput × ChannelReader → Type 0
Ran out (err e, rest) r x = x.0 ≡ err e
Ran out (ok fs, rest) r x = x ≡ finish rest (apply_all fs out) (with_parts r [] [])

Ran-cons_frame :
    (f : Frame) (out : ShellOutput) (p : Parsed) (r : ChannelReader)
    → (x : Result ShellOutput × ChannelReader) → Ran (apply f out) p r x
    → Ran out (cons_frame f p) r x
Ran-cons_frame f out (ok fs, rest) r x h = h
Ran-cons_frame f out (err e, rest) r x h = h

Ran-prepend_frames :
    (fs : List Frame) (out : ShellOutput) (p : Parsed) (r : ChannelReader)
    → (x : Result ShellOutput × ChannelReader) → Ran (apply_all fs out) p r x
    → Ran out (prepend_frames fs p) r x
Ran-prepend_frames [] out p r x h = h
Ran-prepend_frames (f ∷ fs) out p r x h =
    Ran-cons_frame f out (prepend_frames fs p) r x (Ran-prepend_frames fs (apply f out) p r x h)

go-Ran :
    (out : ShellOutput) (k r : ChannelReader) (bytes : Bytes)
    → (go : Bytes → ShellOutput → Result ShellOutput × ChannelReader)
    → ((pending : Bytes) (o : ShellOutput)
        → next_frame pending ≡ wait
        → Ran o (push pending bytes) r (go pending o))
    → (p : Parsed) → Settled p
    → Ran out (feed p bytes) r (take_frames out k go p)
unfolding take_frames
go-Ran out k r bytes go ih (ok fs, rest) h =
    Ran-prepend_frames fs out (push rest bytes) r (go rest (apply_all fs out))
      (ih rest (apply_all fs out) h)
go-Ran out k r bytes go ih (err e, rest) h = refl

collect-Ran :
    (rs : List (Result Bytes)) (r : ChannelReader) (bytes : Bytes)
    → Pending rs bytes
    → (pending : Bytes) (out : ShellOutput) → next_frame pending ≡ wait
    → Ran out (push pending bytes) r (collect rs r pending out)
unfolding collect push
collect-Ran _ r _ ended pending out settled =
    subst (λ p. Ran out p r (finish pending out (with_parts r [] [])))
      (sym (
        ap (λ b. parse (length b) b) (append-nil pending)
        ∙ parse-wait (length pending) pending settled))
      refl
collect-Ran _ r bytes (chunk c rs q _ x eq) pending out settled =
    subst (λ p. Ran out p r (collect (ok c ∷ rs) r pending out))
      (sym (push-feed pending c q) ∙ ap (push pending) (sym eq))
      (go-Ran out (with_parts r [] rs) r q (collect rs r) (collect-Ran rs r q x) (push pending c)
        (push-Settled pending c))

-- The payloads of the frames of one id, in their order.
pub payloads : ℕ → List Frame → Bytes
payloads i [] = []
payloads i (f ∷ fs) =
    let rest = payloads i fs in if to_byte f.id == i then f.payload ++ rest else rest

pub first_byte : Bytes → Option ℕ
first_byte [] = none
first_byte (b ∷ p) = some b

-- The first byte of the last exit frame; an empty one takes it back.
pub last_exit : Option ℕ → List Frame → Option ℕ
last_exit code [] = code
last_exit code (f ∷ fs) = last_exit (if to_byte f.id == 3 then first_byte f.payload else code) fs

abbrev output_of : ShellOutput → List Frame → ShellOutput
output_of o fs = record {
  stdout = o.stdout ++ payloads 1 fs;
  stderr = o.stderr ++ payloads 2 fs;
  exit_code = last_exit o.exit_code fs;
}

output_of-apply :
    (i : FrameId) (p : Bytes) (fs : List Frame) (o : ShellOutput)
    → output_of (apply (record { id = i; payload = p }) o) fs
      ≡ output_of o ((record { id = i; payload = p }) ∷ fs)
unfolding payloads last_exit first_byte apply to_byte
output_of-apply FrameId.stdin p fs o = refl
output_of-apply FrameId.stdout p fs o =
    ap
      (λ x. record {
        stdout = x;
        stderr = o.stderr ++ payloads 2 fs;
        exit_code = last_exit o.exit_code fs;
      })
      (append_assoc o.stdout p (payloads 1 fs))
output_of-apply FrameId.stderr p fs o =
    ap
      (λ x. record {
        stdout = o.stdout ++ payloads 1 fs;
        stderr = x;
        exit_code = last_exit o.exit_code fs;
      })
      (append_assoc o.stderr p (payloads 2 fs))
output_of-apply FrameId.exit [] fs o = refl
output_of-apply FrameId.exit (b ∷ p) fs o = refl
output_of-apply FrameId.close_stdin p fs o = refl
output_of-apply FrameId.window_size p fs o = refl

apply_all_lem : (fs : List Frame) (o : ShellOutput) → apply_all fs o ≡ output_of o fs
unfolding payloads last_exit
apply_all_lem [] o =
    ap (λ x. record { stdout = x; stderr = o.stderr; exit_code = o.exit_code })
      (sym (append-nil o.stdout))
    ∙ ap (λ x. record { stdout = o.stdout ++ []; stderr = x; exit_code = o.exit_code })
        (sym (append-nil o.stderr))
apply_all_lem (f ∷ fs) o = apply_all_lem fs (apply f o) ∙ output_of-apply f.id f.payload fs o

-- The result that frames `fs` with `rest` behind them call for, where the close of the channel
-- gives `closing`.
abbrev pub result_of : Option Error → List Frame → Bytes → Result ShellOutput
result_of (some e) fs rest = err e
result_of none fs [] =
    ok (record { stdout = payloads 1 fs; stderr = payloads 2 fs; exit_code = last_exit none fs })
result_of none fs (b ∷ rest) = err (protocol (trailing_bytes (length (b ∷ rest))))

-- How a run ends whose stream gives `p` when it is parsed as a whole.
abbrev pub Collects : Channel → Parsed → Result ShellOutput × ChannelReader → Type 0
Collects c (err e, rest) x = x.0 ≡ err e
Collects c (ok fs, rest) x = (x.0 ≡ result_of c.close_outcome fs rest) × (x.1.channel.closed ≡ true)

finish-Collects :
    (c : Channel) (o : Option Error) (rest : Bytes) (fs : List Frame)
    → c.close_outcome ≡ o
    → ((finish rest (apply_all fs no_output) (with_parts (reader c) [] [])).0 ≡ result_of o fs rest)
      × ((finish rest (apply_all fs no_output) (with_parts (reader c) [] [])).1.channel.closed
          ≡ true)
unfolding finish close
finish-Collects c none [] fs h = rw (h, apply_all_lem fs no_output) (refl, refl)
finish-Collects c none (b ∷ rest) fs h = rw h (refl, refl)
finish-Collects c (some e) rest fs h = rw h (refl, refl)

Ran-Collects :
    (c : Channel) (p : Parsed) (x : Result ShellOutput × ChannelReader)
    → Ran no_output p (reader c) x
    → Collects c p x
Ran-Collects c (err e, rest) x h = h
Ran-Collects c (ok fs, rest) x h =
    subst (Collects c (ok fs, rest)) (sym h) (finish-Collects c c.close_outcome rest fs refl)

-- Where no `recv` fails, however the device has cut its bytes into chunks: if they parse to frames as
-- a whole, the channel is closed; a close that fails gives its error, bytes behind the last frame give
-- the error with their number, and otherwise the output is the payloads of each stream joined in their
-- order, with the first byte of the last exit frame. If they do not, the parser's error is the result.
pub collect_v2-Collects :
    (c : Channel) (bytes : Bytes)
    → Pending c.incoming bytes
    → Collects c (push [] bytes) (collect_v2 c)
unfolding collect_v2 next_frame
collect_v2-Collects c bytes x =
    Ran-Collects c (push [] bytes) (collect_v2 c)
      (collect-Ran c.incoming (reader c) bytes x [] no_output refl)
