-- ===== src/Wire/Codec/Laws.antt =====
-- What src/wire/codec.rs promises: the header codec is a bijection onto the well-formed headers.
use rsadb.Base.{
  ℕ, ◌+◌, ◌≤◌, ◌≡◌, refl, sym, ap, subst, ◌∙◌, Bytes, IsByte, IsU32, length, take, drop, All,
  All-take, All-drop, length-take, length-drop, take-append-drop, take-drop-append, take_all, [],
  ◌∷◌, ◌++◌, min, u32_le, from_le_bytes, from_le_bytes-u32_le, arith,
}
use rsadb.Error.{ok}
use rsadb.Wire.Command.{Command, code, from_code-code, code_of_from_code, code-IsU32}
use rsadb.Wire.Message.{Header, IsHeader, max_payload}
use rsadb.Wire.Codec.{header_len, magic_of, encode_header, decode_header, word}

from_le_bytes-IsU32 :
    (a b c d : ℕ)
    → IsByte a
    → IsByte b
    → IsByte c
    → IsByte d
    → IsU32 (from_le_bytes (a ∷ b ∷ c ∷ d ∷ []))
from_le_bytes-IsU32 a b c d ha hb hc hd = omega arith

-- A little-endian word of the buffer, and the four bytes that it stands for.
four_bytes :
    (bs : Bytes)
    → length bs ≡ 4
    → All IsByte bs
    → (u32_le (from_le_bytes bs) ≡ bs) × IsU32 (from_le_bytes bs)
four_bytes [] h k = absurd (omega arith)
four_bytes (a ∷ []) h k = absurd (omega arith)
four_bytes (a ∷ b ∷ []) h k = absurd (omega arith)
four_bytes (a ∷ b ∷ c ∷ []) h k = absurd (omega arith)
four_bytes (a ∷ b ∷ c ∷ d ∷ []) h k = (ground arith, omega arith)
four_bytes (a ∷ b ∷ c ∷ d ∷ e ∷ bs) h k = absurd (omega arith)

u32_le-word :
    (bytes : Bytes) (at : ℕ)
    → at + 4 ≤ length bytes
    → All IsByte bytes
    → (u32_le (word bytes at) ≡ take 4 (drop at bytes)) × IsU32 (word bytes at)
u32_le-word bytes at h k =
    four_bytes (take 4 (drop at bytes))
      (omega (arith, length-take 4 (drop at bytes), length-drop at bytes))
      (All-take IsByte 4 (drop at bytes) (All-drop IsByte at bytes k))

join_words :
    {a b c d e f a' b' c' d' e' f' : Bytes}
    → a ≡ a'
    → b ≡ b'
    → c ≡ c'
    → d ≡ d'
    → e ≡ e'
    → f ≡ f'
    → a ++ (b ++ (c ++ (d ++ (e ++ f)))) ≡ a' ++ (b' ++ (c' ++ (d' ++ (e' ++ f'))))
join_words p q r s t u = cc

-- Twenty-four bytes are their six words.
six_words :
    (bytes : Bytes)
    → length bytes ≡ header_len
    → take 4 bytes
        ++ (take 4 (drop 4 bytes)
            ++ (take 4 (drop 8 bytes)
                ++ (take 4 (drop 12 bytes) ++ (take 4 (drop 16 bytes) ++ take 4 (drop 20 bytes)))))
      ≡ bytes
six_words bytes h =
    rw
      (
        take_all 4 (drop 20 bytes) (omega (arith, length-drop 20 bytes)),
        take-drop-append 16 4 20 bytes refl,
        take-drop-append 12 4 16 bytes refl,
        take-drop-append 8 4 12 bytes refl,
        take-drop-append 4 4 8 bytes refl,
      )
      (take-append-drop 4 bytes)

module _ (bytes : Bytes) (limit : ℕ) where
  -- The words at their offsets decide the result.
  decode_of_words :
      (h : Header)
      → word bytes 0 ≡ code h.command
      → word bytes 4 ≡ h.arg0
      → word bytes 8 ≡ h.arg1
      → word bytes 12 ≡ h.data_length
      → word bytes 16 ≡ h.data_check
      → word bytes 20 ≡ magic_of (code h.command)
      → h.data_length ≤ min limit max_payload
      → decode_header bytes limit ≡ ok h
  unfolding decode_header
  decode_of_words h e0 e4 e8 e12 e16 e20 b = ground (arith, from_code-code h.command)

  words_of_decode :
      (h : Header)
      → decode_header bytes limit ≡ ok h
      → (word bytes 0 ≡ code h.command)
        × (word bytes 4 ≡ h.arg0)
        × (word bytes 8 ≡ h.arg1)
        × (word bytes 12 ≡ h.data_length)
        × (word bytes 16 ≡ h.data_check)
        × (word bytes 20 ≡ magic_of (code h.command))
        × (h.data_length ≤ min limit max_payload)
  unfolding decode_header
  words_of_decode h e = ground (arith, code_of_from_code (word bytes 0) h.command)

magic_of-IsU32 : (c : Command) → IsU32 (magic_of (code c))
unfolding code
magic_of-IsU32 Command.sync = omega arith
magic_of-IsU32 _ = omega arith

-- Every well-formed header within the bound is read back as it was written.
pub decode-encode :
    (h : Header) (limit : ℕ)
    → IsHeader h
    → h.data_length ≤ min limit max_payload
    → decode_header (encode_header h) limit ≡ ok h
unfolding decode_header encode_header
decode-encode h limit w b =
    decode_of_words (encode_header h) limit h
      (from_le_bytes-u32_le (code h.command) (code-IsU32 h.command))
      (from_le_bytes-u32_le h.arg0 w.arg0_word) (from_le_bytes-u32_le h.arg1 w.arg1_word)
      (from_le_bytes-u32_le h.data_length w.length_word)
      (from_le_bytes-u32_le h.data_check w.check_word)
      (from_le_bytes-u32_le (magic_of (code h.command)) (magic_of-IsU32 h.command)) b

-- Whatever is accepted is the encoding of the header that is returned: nothing of the twenty-four
-- bytes is ignored.
pub encode-decode :
    (bytes : Bytes) (limit : ℕ) (h : Header)
    → length bytes ≡ header_len
    → All IsByte bytes
    → decode_header bytes limit ≡ ok h
    → (encode_header h ≡ bytes) × IsHeader h × (h.data_length ≤ min limit max_payload)
unfolding decode_header encode_header
encode-decode bytes limit h len bs e =
    let (e0, e4, e8, e12, e16, e20, b) = words_of_decode bytes limit h e in
    let (l0, _) = u32_le-word bytes 0 (omega arith) bs in
    let (l4, w4) = u32_le-word bytes 4 (omega arith) bs in
    let (l8, w8) = u32_le-word bytes 8 (omega arith) bs in
    let (l12, w12) = u32_le-word bytes 12 (omega arith) bs in
    let (l16, w16) = u32_le-word bytes 16 (omega arith) bs in
    let (l20, _) = u32_le-word bytes 20 (omega arith) bs in
    (
      join_words (ap u32_le (sym e0) ∙ l0) (ap u32_le (sym e4) ∙ l4) (ap u32_le (sym e8) ∙ l8)
            (ap u32_le (sym e12) ∙ l12) (ap u32_le (sym e16) ∙ l16) (ap u32_le (sym e20) ∙ l20)
          ∙ six_words bytes len,
      record {
        arg0_word = subst IsU32 e4 w4;
        arg1_word = subst IsU32 e8 w8;
        length_word = subst IsU32 e12 w12;
        check_word = subst IsU32 e16 w16;
      },
      b,
    )
