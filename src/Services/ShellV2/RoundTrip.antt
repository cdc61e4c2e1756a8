-- ===== src/Services/ShellV2/RoundTrip.antt =====
-- `encode` and the parser of src/services/shell_v2.rs.
use rsadb.Base.{
  ℕ, zero, suc, ◌≤◌, ◌≡◌, refl, ap, ◌∙◌, ◌^◌, Bytes, IsU32, Bool, true, false, ltb, ltb→lt, le→ltb,
  if◌then◌else◌, none, some, length, length-append, u32_le, from_le_bytes, from_le_bytes-u32_le,
  List, [], ◌∷◌, ◌++◌, arith, subst, take-append, drop-append,
}
use rsadb.Error.{bind_ok, Result, ok, ◌>>=◌, ok_or, invalid_argument, frame_too_long}
use rsadb.Services.ShellV2.{
  FrameId, stdin, stdout, stderr, exit, close_stdin, window_size, Frame, whole, cut_frame, with_id,
  next_frame, from_byte, to_byte, encode, cons_frame, parse, push,
}
use rsadb.Services.ShellV2.Stream.{parse-whole, parse-fuel}

from_byte-to_byte : (id : FrameId) → from_byte (to_byte id) ≡ some id
unfolding from_byte to_byte
from_byte-to_byte stdin = refl
from_byte-to_byte stdout = refl
from_byte-to_byte stderr = refl
from_byte-to_byte exit = refl
from_byte-to_byte close_stdin = refl
from_byte-to_byte window_size = refl

abbrev raw : Frame → Bytes
raw f = to_byte f.id ∷ (u32_le (length f.payload) ++ f.payload)

encode_if :
    (small : Bool) (f : Frame) (b : Bytes)
    → ltb (length f.payload) (2 ^ 32) ≡ small
    → (ok_or (if small then some (length f.payload) else none) (invalid_argument frame_too_long)
        >>= λ len. ok (to_byte f.id ∷ (u32_le len ++ f.payload)))
      ≡ ok b
    → IsU32 (length f.payload) × (raw f ≡ b)
encode_if true f b h e = (ltb→lt _ _ h, cc)
encode_if false f b h e = cc

-- `encode` succeeds on a payload whose length is a u32 only.
encode_ok :
    (f : Frame) (b : Bytes) → encode f.id f.payload ≡ ok b → IsU32 (length f.payload) × (raw f ≡ b)
unfolding encode
encode_ok f b e = encode_if (ltb (length f.payload) (2 ^ 32)) f b refl e

cut_frame-whole :
    (id : FrameId) (p rest : Bytes)
    → cut_frame id (length p) (p ++ rest) ≡ whole (record { id = id; payload = p }) rest
unfolding cut_frame
cut_frame-whole id p rest =
    rw
      (
        le→ltb (length (p ++ rest)) (length p) (omega (arith, length-append p rest)),
        take-append p rest,
        drop-append p rest,
      )
      refl

next_frame-raw :
    (f : Frame) (rest : Bytes)
    → IsU32 (length f.payload)
    → next_frame (raw f ++ rest) ≡ whole f rest
unfolding next_frame with_id
next_frame-raw f rest h =
    ap
      (λ o.
        with_id (to_byte f.id) o (from_le_bytes (u32_le (length f.payload))) (f.payload ++ rest))
      (from_byte-to_byte f.id)
    ∙ ap (λ n. cut_frame f.id n (f.payload ++ rest)) (from_le_bytes-u32_le (length f.payload) h)
    ∙ cut_frame-whole f.id f.payload rest

-- The frames, encoded one behind the other.
abbrev pub encode_all : List Frame → Result Bytes
encode_all [] = ok []
encode_all (f ∷ fs) = encode f.id f.payload >>= λ b. encode_all fs >>= λ bs. ok (b ++ bs)

parse-raw :
    (n : ℕ) (f : Frame) (rest : Bytes) (fs : List Frame)
    → IsU32 (length f.payload)
    → length (raw f ++ rest) ≤ n
    → parse (length rest) rest ≡ (ok fs, [])
    → parse n (raw f ++ rest) ≡ (ok (f ∷ fs), [])
parse-raw zero f rest fs h l e = absurd (omega arith)
parse-raw (suc n) f rest fs h l e =
    parse-whole n (raw f ++ rest) f rest (next_frame-raw f rest h)
    ∙ ap (cons_frame f) (
        parse-fuel n (length rest) rest (omega (arith, length-append f.payload rest)) (omega arith)
        ∙ e)

-- What `encode` writes, frame behind frame, one `push` reads back: the same frames, and no byte is
-- left in the buffer.
pub push-encode_all : (fs : List Frame) (b : Bytes) → encode_all fs ≡ ok b → push [] b ≡ (ok fs, [])
unfolding push next_frame
push-encode_all [] b e = let same : [] ≡ b = cc in subst (λ x. push [] x ≡ (ok [], [])) same refl
push-encode_all (f ∷ fs) b e =
    let (p, ep, ek) =
      bind_ok (encode f.id f.payload) (λ p. encode_all fs >>= λ ps. ok (p ++ ps)) b e in
    let (ps, eps, eb) = bind_ok (encode_all fs) (λ ps. ok (p ++ ps)) b ek in
    let (small, ef) = encode_ok f p ep in
    let same : p ++ ps ≡ b = cc in
    subst (λ x. push [] x ≡ (ok (f ∷ fs), [])) (ap (λ x. x ++ ps) ef ∙ same)
      (parse-raw (length (raw f ++ ps)) f ps fs small (omega arith) (push-encode_all fs ps eps))
