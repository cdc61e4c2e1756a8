-- ===== src/Examples/Transport.antt =====
-- src/transport over a byte stream that hands out at most seven bytes at a time.
use rsadb.Base.{
  ℕ, ◌≤◌, ◌<◌, ◌≡◌, refl, ap, Bytes, ascii, ltb, lt→ltb, le→ltb, length, length-take, take, drop,
  take-append-drop, [], ◌∷◌, ◌++◌, min, arith, if◌then◌else◌,
}
use rsadb.Error.{ok, err}
use rsadb.Wire.Command.{Command, code}
use rsadb.Wire.Codec.{encode_header}
use rsadb.Wire.Message.{Message, message, IsMessage, checksum}
use rsadb.Transport.Config.{initial}
use rsadb.Transport.Io.{IoResult, done, eof, AsyncRead, AsyncWrite}
use rsadb.Transport.Framed.{FramedReader, FramedWriter, send, recv}
use rsadb.Transport.Framed.Laws.{recv-send, frame}
use rsadb.Transport.Framed.Truncation.{recv_truncated, cut_error}

abbrev pub read_seven : ℕ → Bytes → IoResult (Bytes × Bytes)
read_seven n s = done (take (min n 7) s, drop (min n 7) s)

abbrev pub read_all : ℕ → Bytes → IoResult (Bytes × Bytes)
read_all n s = if ltb (length s) n then eof else done (take n s, drop n s)

take_nothing : (n : ℕ) (s : Bytes) → 0 < n → take (min n 7) s ≡ [] → s ≡ []
take_nothing n [] h e = refl
take_nothing n (b ∷ s) h e = absurd (omega (arith, ap length e, length-take (min n 7) (b ∷ s)))

pub read_seven-read :
    (n : ℕ) (s : Bytes)
    → Unit {0}
    → 0 < n
    → (bs : Bytes) × (t : Bytes) × (read_seven n s ≡ done (bs, t))
      × (bs ++ t ≡ s)
      × (length bs ≤ n)
      × (bs ≡ [] → s ≡ [])
      × Unit {0}
read_seven-read n s h k = (
  take (min n 7) s,
  drop (min n 7) s,
  refl,
  take-append-drop (min n 7) s,
  omega (arith, length-take (min n 7) s),
  take_nothing n s k,
  tt,
)

pub read_all-exact :
    (n : ℕ) (s : Bytes)
    → Unit {0}
    → n ≤ length s
    → (t : Bytes) × (read_all n s ≡ done (take n s, t)) × (t ≡ drop n s) × Unit {0}
read_all-exact n s h k = (drop n s, rw (le→ltb (length s) n k), refl, tt)

pub read_all_eof : (n : ℕ) (s : Bytes) → Unit {0} → length s < n → read_all n s ≡ eof
read_all_eof n s h k = rw (lt→ltb (length s) n k)

abbrev pub seven_at_most : AsyncRead
seven_at_most = record {
  State = Bytes;
  read = read_seven;
  read_exact = read_all;
  pending = λ s. s;
  IsHealthy = λ s. Unit {0};
  read_lem = read_seven-read;
  read_exact_lem = read_all-exact;
  read_exact_eof = read_all_eof;
}

abbrev pub pipe : AsyncWrite
pipe = record {
  State = Bytes;
  write_all = λ bs s. done (s ++ bs);
  flush = done;
  written = λ s. s;
  IsHealthy = λ s. Unit {0};
  write_all_lem = λ bs s h. (s ++ bs, refl, refl, tt);
  flush_lem = λ s h. (s, refl, refl, tt);
}

abbrev hi : Message
hi = message Command.write 1 2 (ascii "hi")

hi-IsMessage : IsMessage hi
hi-IsMessage = omega arith

abbrev sink : FramedWriter pipe
sink = record { inner = []; config = initial }

abbrev source : Bytes → FramedReader seven_at_most
source bs = record { inner = bs; config = initial }

recv-send_example :
    (s : Bytes) × (t : Bytes) × (send pipe sink hi ≡ ok (record sink { inner = s }))
    × (s ≡ [] ++ frame initial hi)
    × (recv seven_at_most (source (frame initial hi ++ (9 ∷ []))) ≡ ok (hi, source t))
    × (t ≡ 9 ∷ [])
recv-send_example =
    recv-send pipe seven_at_most sink (source (frame initial hi ++ (9 ∷ []))) hi (9 ∷ []) tt tt
      hi-IsMessage (omega arith) (λ h. refl) refl

recv_truncated_example :
    recv seven_at_most (source (take 25 (frame initial hi)))
    ≡ err (cut_error (length (take 25 (frame initial hi))))
unfolding encode_header code checksum
recv_truncated_example =
    recv_truncated seven_at_most (source (take 25 (frame initial hi))) initial hi b'i' [] tt
      hi-IsMessage (omega arith) refl
