-- ===== src/Transport/Framed/Truncation.antt =====
-- src/transport/framed.rs on a stream that ends early.
use rsadb.Base.{
  ℕ, zero, suc, ◌+◌, ◌-◌, ◌≤◌, ◌<◌, ◌≡◌, refl, sym, ap, ◌∙◌, Bytes, ltb, lt→ltb, le→ltb, length,
  length-append, take, drop, cut_at, take-append_le, [], ◌∷◌, ◌++◌, if◌then◌else◌, length-drop, min,
  arith, inl, inr, Bool-cases, ltb→lt, ltb→le, take-append-drop,
}
use rsadb.Error.{err, Error, protocol, disconnected, truncated_header, truncated_payload}
use rsadb.Wire.Message.{Message, Header, IsMessage, IsHeader, max_payload}
use rsadb.Wire.Codec.{header_len, encode_header}
use rsadb.Wire.Codec.Laws.{decode-encode}
use rsadb.Transport.Config.{WireConfig}
use rsadb.Transport.Io.{AsyncRead}
use rsadb.Transport.Framed.{FramedReader, fill_head, fill_rest, read_payload, recv}
use rsadb.Transport.Framed.Laws.{
  fill_head_lem, length-encode_header, header_of, header_of-IsHeader, frame,
}

-- The error for a stream that ends after `n` bytes of a message.
abbrev pub cut_error : ℕ → Error
cut_error zero = disconnected
cut_error (suc n) =
    if ltb (suc n) header_len then protocol truncated_header else protocol truncated_payload

cut_error_head : (n : ℕ) → 0 < n → n < header_len → cut_error n ≡ protocol truncated_header
cut_error_head zero h k = absurd (omega arith)
cut_error_head (suc n) h k = rw (lt→ltb (suc n) header_len k)

cut_error_body : (n : ℕ) → header_len ≤ n → cut_error n ≡ protocol truncated_payload
cut_error_body zero k = absurd (omega arith)
cut_error_body (suc n) k = rw (le→ltb (suc n) header_len k)

omega_length : (xs ys zs : Bytes) → xs ++ ys ≡ zs → length xs + length ys ≡ length zs
omega_length xs ys zs e = omega (arith, length-append xs ys, ap length e)

-- A list that starts another and is long enough starts with the other's first part.
front_splits :
    (front more head body : Bytes)
    → front ++ more ≡ head ++ body
    → length head ≤ length front
    → (front ≡ head ++ drop (length head) front)
      × (length (drop (length head) front) + length more ≡ length body)
front_splits front more head body e l =
    let (cut, left) = cut_at (length head) head body (sym e) refl in
    let same : take (length head) front ≡ head =
      sym (take-append_le (length head) front more l) ∙ cut in
    (
      sym (take-append-drop (length head) front) ∙ ap (λ x. x ++ drop (length head) front) same,
      omega (
        arith,
        length-drop (length head) front,
        omega_length front more (head ++ body) e,
        length-append head body,
      ),
    )

module _ (R : AsyncRead) where
  open R use {State, read, read_exact, pending, IsHealthy, read_lem, read_exact_lem, read_exact_eof}

  fill_head_cut :
      (first : Bytes) (s : State) (p : Bytes)
      → IsHealthy s
      → first ++ pending s ≡ p
      → length p < header_len
      → (first ≡ [] → p ≡ [])
      → fill_head R first s ≡ err (cut_error (length p))
  unfolding fill_head fill_rest
  fill_head_cut [] s p hs e l z = rw (z refl)
  fill_head_cut (b ∷ bs) s p hs e l z =
      let total = omega_length (b ∷ bs) (pending s) p e in
      let stops : length (pending s) < header_len - length (b ∷ bs) = omega arith in
      rw (
        lt→ltb (length (b ∷ bs)) header_len (omega arith),
        read_exact_eof (header_len - length (b ∷ bs)) s hs stops,
        cut_error_head (length p) (omega arith) l,
      )

  recv_short :
      (r : FramedReader R)
      → IsHealthy r.inner
      → length (pending r.inner) < header_len
      → recv R r ≡ err (cut_error (length (pending r.inner)))
  unfolding recv
  recv_short r hr l =
      let (first, s, read_ok, split, short, empty, hs) =
        read_lem header_len r.inner hr (omega arith) in
      rw (read_ok, fill_head_cut first s (pending r.inner) hs split l empty)

  recv_short_payload :
      (r : FramedReader R) (h : Header) (body : Bytes)
      → IsHealthy r.inner
      → IsHeader h
      → h.data_length ≤ min r.config.limit max_payload
      → length body < h.data_length
      → pending r.inner ≡ encode_header h ++ body
      → recv R r ≡ err (protocol truncated_payload)
  unfolding recv read_payload
  recv_short_payload r h body hr wf fits l e =
      let (first, s, read_ok, split, short, empty, hs) =
        read_lem header_len r.inner hr (omega arith) in
      let enough : header_len ≤ length (pending r.inner) =
        omega (arith, ap length e, length-append (encode_header h) body, length-encode_header h) in
      let (t, head_ok, left, ht) =
        fill_head_lem R first s (pending r.inner) hs split short enough empty in
      let (cut, rest) =
        cut_at header_len (encode_header h) body (sym e) (sym (length-encode_header h)) in
      let stops : length (pending t) < h.data_length = omega (arith, ap length (left ∙ rest)) in
      rw (
        read_ok,
        head_ok,
        cut,
        decode-encode h r.config.limit wf fits,
        lt→ltb 0 h.data_length (omega arith),
        read_exact_eof h.data_length t ht stops,
      )

  -- A stream that ends inside the frame of a message never yields a message: it is a disconnection
  -- before the first byte, a truncated header up to the 24th, and a truncated payload after it.
  pub recv_truncated :
      (r : FramedReader R) (c : WireConfig) (m : Message) (x : ℕ) (back : Bytes)
      → IsHealthy r.inner
      → IsMessage m
      → length m.payload ≤ min r.config.limit max_payload
      → pending r.inner ++ (x ∷ back) ≡ frame c m
      → recv R r ≡ err (cut_error (length (pending r.inner)))
  recv_truncated r c m x back hr wf fits e =
      let front : Bytes = pending r.inner in
      let h : Header = header_of m c.compute_checksum in
      elim (Bool-cases (ltb (length front) header_len)) [
        | inl short ↦ recv_short r hr (ltb→lt _ _ short)
        | inr long ↦
            let far : length (encode_header h) ≤ length front =
              omega (arith, length-encode_header h, ltb→le _ _ long) in
            let (split, rest) = front_splits front (x ∷ back) (encode_header h) m.payload e far in
            rw (cut_error_body (length front) (ltb→le _ _ long)) (
              recv_short_payload r h _ hr (header_of-IsHeader m c.compute_checksum wf) fits
                (omega (arith, rest)) split)
      ]
