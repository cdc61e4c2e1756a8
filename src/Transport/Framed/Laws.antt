-- ===== src/Transport/Framed/Laws.antt =====
-- What src/transport/framed.rs promises: a message that is sent arrives, however the stream cuts it.
use rsadb.Base.{
  ℕ, zero, suc, ◌-◌, ◌≤◌, ◌≡◌, refl, sym, ap, ◌∙◌, Bytes, Bool, true, false, not, ◌&&◌, ltb, ltb→le,
  lt→ltb, if◌then◌else◌, length, length-append, take, drop, take-append_ge, drop-append_ge, cut_at,
  eq_nil_of_length, [], ◌∷◌, ◌++◌, append-nil, append_assoc, some, min, arith, inl, inr, Bool-cases,
}
use rsadb.Error.{Result, ok}
use rsadb.Wire.Message.{
  Message, Header, IsMessage, IsHeader, header, checksum, checksum_matches, with_payload,
  max_payload,
}
use rsadb.Wire.Message.Checksum.{checksum-IsU32}
use rsadb.Wire.Codec.{header_len, encode_header}
use rsadb.Wire.Codec.Laws.{decode-encode}
use rsadb.Transport.Config.{WireConfig}
use rsadb.Transport.Io.{AsyncRead, AsyncWrite}
use rsadb.Transport.Framed.{
  FramedReader, FramedWriter, fill_head, fill_rest, read_payload, recv, send, write_payload,
}

pub length-encode_header : (h : Header) → length (encode_header h) ≡ header_len
unfolding encode_header
length-encode_header h = refl

module _ (R : AsyncRead) where
  open R use {State, read, read_exact, pending, IsHealthy, read_lem, read_exact_lem, read_exact_eof}

  abbrev pub HeadRead : Bytes → Result (Bytes × State) → Type 0
  HeadRead p r =
      (t : State) × (r ≡ ok (take header_len p, t)) × (pending t ≡ drop header_len p) × IsHealthy t

  fill_rest_lem :
      (head : Bytes) (s : State) (p : Bytes)
      → IsHealthy s
      → head ++ pending s ≡ p
      → length head ≤ header_len
      → header_len ≤ length p
      → HeadRead p (fill_rest R head s)
  unfolding fill_rest
  fill_rest_lem head s p hs e l k =
      let n : ℕ = header_len - length head in
      let fits : n ≤ length (pending s) =
        omega (arith, ap length e, length-append head (pending s)) in
      let (t, step, left, ht) = read_exact_lem n s hs fits in
      (
        t,
        rw (step) (
            ap (λ x. ok (x, t))
              (sym (take-append_ge header_len head (pending s) l) ∙ ap (take header_len) e)),
        left ∙ sym (drop-append_ge header_len head (pending s) l) ∙ ap (drop header_len) e,
        ht,
      )

  -- The rest of the header, after a first read of any length.
  pub fill_head_lem :
      (bs : Bytes) (s : State) (p : Bytes)
      → IsHealthy s
      → bs ++ pending s ≡ p
      → length bs ≤ header_len
      → header_len ≤ length p
      → (bs ≡ [] → p ≡ [])
      → HeadRead p (fill_head R bs s)
  fill_head_lem [] s p hs e l k z = absurd (omega (arith, ap length (z refl)))
  fill_head_lem (b ∷ bs) s p hs e l k z = elim (Bool-cases (ltb (length (b ∷ bs)) header_len)) [
    | inl short ↦ unfold fill_head in rw short (fill_rest_lem (b ∷ bs) s p hs e l k)
    | inr whole ↦
        let (cut, left) =
          cut_at header_len (b ∷ bs) (pending s) e (omega (arith, l, ltb→le _ _ whole)) in
        (s, unfold fill_head in rw (whole, cut), sym left, hs)
  ]

  read_payload_lem :
      (n : ℕ) (s : State) (payload rest : Bytes)
      → IsHealthy s
      → n ≡ length payload
      → pending s ≡ payload ++ rest
      → (t : State) × (read_payload R n s ≡ ok (payload, t)) × (pending t ≡ rest) × IsHealthy t
  unfolding read_payload
  read_payload_lem zero s payload rest hs n e =
      let none_left = eq_nil_of_length payload (sym n) in (s, rw none_left, e ∙ rw none_left, hs)
  read_payload_lem (suc k) s payload rest hs n e =
      let (cut, left) = cut_at (suc k) payload rest (sym e) n in
      let fits : suc k ≤ length (pending s) =
        omega (arith, ap length e, length-append payload rest) in
      let (t, step, left', ht) = read_exact_lem (suc k) s hs fits in
      (t, rw (lt→ltb 0 (suc k) (omega arith), step, cut), left' ∙ left, ht)

  -- A header and a payload at the front of a healthy stream are read as one message.
  recv_frame :
      (r : FramedReader R) (h : Header) (payload rest : Bytes)
      → IsHealthy r.inner
      → IsHeader h
      → h.data_length ≡ length payload
      → h.data_length ≤ min r.config.limit max_payload
      → (r.config.verify_checksum && not (checksum_matches (with_payload h payload) h)) ≡ false
      → pending r.inner ≡ encode_header h ++ (payload ++ rest)
      → (u : State) × (recv R r ≡ ok (with_payload h payload, record r { inner = u }))
        × (pending u ≡ rest)
        × IsHealthy u
  unfolding recv
  recv_frame r h payload rest hr wf len fits sum e =
      let (first, s, read_ok, split, short, empty, hs) =
        read_lem header_len r.inner hr (omega arith) in
      let enough : header_len ≤ length (pending r.inner) = omega (
        arith,
        ap length e,
        length-append (encode_header h) (payload ++ rest),
        length-encode_header h,
      ) in
      let (t, head_ok, left, ht) =
        fill_head_lem first s (pending r.inner) hs split short enough empty in
      let (cut, body) =
        cut_at header_len (encode_header h) (payload ++ rest) (sym e)
          (sym (length-encode_header h)) in
      let (u, payload_ok, left', hu) =
        read_payload_lem h.data_length t payload rest ht len (left ∙ body) in
      (
        u,
        rw (read_ok, head_ok, cut, decode-encode h r.config.limit wf fits, payload_ok, sum) refl,
        left',
        hu,
      )

-- The header that a message of the wire gets.
abbrev pub header_of : Message → Bool → Header
header_of m b = record {
  command = m.command;
  arg0 = m.arg0;
  arg1 = m.arg1;
  data_length = length m.payload;
  data_check = if b then checksum m.payload else 0;
}

pub header-header_of : (m : Message) (b : Bool) → IsMessage m → header m b ≡ some (header_of m b)
unfolding header
header-header_of m b w = ground arith

pub header_of-IsHeader : (m : Message) (b : Bool) → IsMessage m → IsHeader (header_of m b)
header_of-IsHeader m true w = record {
  arg0_word = w.arg0_word;
  arg1_word = w.arg1_word;
  length_word = w.length_word;
  check_word = checksum-IsU32 m.payload;
}
header_of-IsHeader m false w = record {
  arg0_word = w.arg0_word;
  arg1_word = w.arg1_word;
  length_word = w.length_word;
  check_word = omega arith;
}

-- A reader that verifies accepts what a writer that computes has framed.
pub verified :
    (m : Message) (b v : Bool)
    → (v ≡ true → b ≡ true)
    → (v && not (checksum_matches m (header_of m b))) ≡ false
unfolding checksum_matches
verified m b false h = refl
verified m true true h = ground arith
verified m false true h = absurd (cc (h refl))

-- What `send` puts on the stream.
abbrev pub frame : WireConfig → Message → Bytes
frame c m = encode_header (header_of m c.compute_checksum) ++ m.payload

module _ (W : AsyncWrite) where
  open W use {State, write_all, flush, written, IsHealthy, write_all_lem, flush_lem}

  write_payload_lem :
      (bs : Bytes) (s : State)
      → IsHealthy s
      → (t : State) × (write_payload W bs s ≡ ok t) × (written t ≡ written s ++ bs) × IsHealthy t
  unfolding write_payload
  write_payload_lem [] s h = (s, refl, sym (append-nil (written s)), h)
  write_payload_lem (b ∷ bs) s h =
      let (t, e, w, ht) = write_all_lem (b ∷ bs) s h in (t, rw e, w, ht)

  -- On a healthy stream `send` succeeds and appends the frame of the message.
  pub send-frame :
      (w : FramedWriter W) (m : Message)
      → IsHealthy w.inner
      → IsMessage m
      → (u : State) × (send W w m ≡ ok (record w { inner = u }))
        × (written u ≡ written w.inner ++ frame w.config m)
        × IsHealthy u
  unfolding send
  send-frame w m hw wf =
      let h = header_of m w.config.compute_checksum in
      let (s, head_ok, head_out, hs) = write_all_lem (encode_header h) w.inner hw in
      let (t, body_ok, body_out, ht) = write_payload_lem m.payload s hs in
      let (u, flush_ok, flush_out, hu) = flush_lem t ht in
      (
        u,
        rw (header-header_of m w.config.compute_checksum wf, head_ok, body_ok, flush_ok) refl,
        flush_out
            ∙ body_out
            ∙ ap (λ x. x ++ m.payload) head_out
            ∙ append_assoc (written w.inner) (encode_header h) m.payload,
        hu,
      )

module _ (W : AsyncWrite) (R : AsyncRead) where
  open W use {written}
  open R use {pending}

  -- A message that one side sends is received unchanged by the other, whatever cuts the byte stream
  -- makes, and the bytes behind it stay on the stream. The message is within the reader's limit, and
  -- the writer computes the checksum if the reader verifies it.
  pub recv-send :
      (w : FramedWriter W) (r : FramedReader R) (m : Message) (rest : Bytes)
      → W.IsHealthy w.inner
      → R.IsHealthy r.inner
      → IsMessage m
      → length m.payload ≤ min r.config.limit max_payload
      → (r.config.verify_checksum ≡ true → w.config.compute_checksum ≡ true)
      → pending r.inner ≡ frame w.config m ++ rest
      → (s : W.State) × (t : R.State) × (send W w m ≡ ok (record w { inner = s }))
        × (written s ≡ written w.inner ++ frame w.config m)
        × (recv R r ≡ ok (m, record r { inner = t }))
        × (pending t ≡ rest)
  recv-send w r m rest hw hr wf fits agree e =
      let b = w.config.compute_checksum in
      let (s, sent, out, _) = send-frame W w m hw wf in
      let (t, got, left, _) =
        recv_frame R r (header_of m b) m.payload rest hr (header_of-IsHeader m b wf) refl fits
          (verified m b r.config.verify_checksum agree)
          (e ∙ append_assoc (encode_header (header_of m b)) m.payload rest) in
      (s, t, sent, out, got, left)
