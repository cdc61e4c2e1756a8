-- ===== src/Channel/Reading.antt =====
-- What src/channel.rs promises of `read_exact`: it does not matter how the device cut its data.
use rsadb.Base.{
  ℕ, ◌≤◌, ◌<◌, ◌≡◌, refl, sym, ap, ◌∙◌, Bytes, ltb, ltb→lt, ltb→le, Bool-cases, inl, inr, length,
  length-append, take, drop, take-append_le, drop-append_le, List, [], ◌∷◌, ◌++◌, append-nil,
  append_assoc, arith,
}
use rsadb.Error.{Result, ok, err, stream_closed}
use rsadb.Channel.{
  ChannelReader, Filled, fill, split_filled, read_exact, with_parts, gather, take_gathered,
  read_to_end,
}

-- A reader whose channel raises no failure, with what is still to be read from it.
pub data Pending : List (Result Bytes) → Bytes → Type 0 where
  ended : Pending [] []
  chunk :
      (c : Bytes) (rs : List (Result Bytes)) (p q : Bytes)
      → Pending rs p
      → q ≡ c ++ p
      → Pending (ok c ∷ rs) q

-- The reader will give `p`.
abbrev pub Holds : ChannelReader → Bytes → Type 0
Holds r p = (q : Bytes) × Pending r.channel.incoming q × (r.buffer ++ q ≡ p)

abbrev FillsTo : ℕ → Bytes → Filled → Type 0
FillsTo len p (ok _, buffer, rs) =
    (q : Bytes) × Pending rs q × (buffer ++ q ≡ p) × (len ≤ length buffer)
FillsTo len p (err e, buffer, rs) =
    (e ≡ stream_closed) × (length p < len) × (rs ≡ []) × (buffer ≡ p)

fill-FillsTo :
    (len : ℕ) (rs : List (Result Bytes)) (buffer q p : Bytes)
    → Pending rs q
    → buffer ++ q ≡ p
    → FillsTo len p (fill len buffer rs)
unfolding fill
fill-FillsTo len _ buffer _ p ended e = elim (Bool-cases (ltb (length buffer) len)) [
  | inl short ↦ rw short (
    refl,
    omega (arith, ltb→lt _ _ short, ap length (sym (append-nil buffer) ∙ e)),
    refl,
    sym (append-nil buffer) ∙ e,
  )
  | inr enough ↦ rw enough ([], ended, e, ltb→le _ _ enough)
]
fill-FillsTo len _ buffer q p (chunk c rs q' _ x eq) e =
    elim (Bool-cases (ltb (length buffer) len)) [
      | inl short ↦ rw short (
          fill-FillsTo len rs (buffer ++ c) q' p x
            (append_assoc buffer c q' ∙ ap (◌++◌ buffer) (sym eq) ∙ e))
      | inr enough ↦ rw enough (q, chunk c rs q' q x eq, e, ltb→le _ _ enough)
    ]

-- The bytes are read, and the reader behind them will give the rest; nothing is sent.
abbrev pub Takes : ℕ → ChannelReader → Bytes → Result Bytes × ChannelReader → Type 0
Takes len r p x =
    (r' : ChannelReader) × (x ≡ (ok (take len p), r'))
    × Holds r' (drop len p)
    × (r'.channel.sent ≡ r.channel.sent)
    × (r'.channel.outcomes ≡ r.channel.outcomes)

split_filled-Takes :
    (len : ℕ) (r : ChannelReader) (p : Bytes) (f : Filled)
    → len ≤ length p
    → FillsTo len p f
    → Takes len r p (split_filled len r f)
unfolding split_filled
split_filled-Takes len r p (err e, buffer, rs) l (x, short, y, z) = absurd (omega arith)
split_filled-Takes len r p (ok _, buffer, rs) l (q, pend, e, enough) = (
  with_parts r (drop len buffer) rs,
  ap (λ x. (ok x, with_parts r (drop len buffer) rs))
      (sym (take-append_le len buffer q enough) ∙ ap (take len) e),
  (q, pend, sym (drop-append_le len buffer q enough) ∙ ap (drop len) e),
  refl,
  refl,
)

split_filled_short :
    (len : ℕ) (r : ChannelReader) (p : Bytes) (f : Filled)
    → length p < len
    → FillsTo len p f
    → split_filled len r f ≡ (err stream_closed, with_parts r p [])
unfolding split_filled
split_filled_short len r p (err e, buffer, rs) l (x, short, y, z) = rw (x, y, z)
split_filled_short len r p (ok _, buffer, rs) l (q, pend, e, enough) =
    absurd (omega (arith, length-append buffer q, ap length e))

-- `read_exact` gives the next bytes of what is to come, however the device has cut it into chunks,
-- and leaves the rest. As many bytes are to come, and no `recv` fails.
pub read_exact-Takes :
    (len : ℕ) (r : ChannelReader) (p : Bytes)
    → Holds r p
    → len ≤ length p
    → Takes len r p (read_exact len r)
unfolding read_exact
read_exact-Takes len r p (q, pend, e) l =
    split_filled-Takes len r p _ l (fill-FillsTo len r.channel.incoming r.buffer q p pend e)

-- Where the device closes the stream before as many bytes have come and no `recv` fails, `read_exact`
-- reports that, and keeps what has come.
pub read_exact_short :
    (len : ℕ) (r : ChannelReader) (p : Bytes)
    → Holds r p
    → length p < len
    → read_exact len r ≡ (err stream_closed, with_parts r p [])
unfolding read_exact
read_exact_short len r p (q, pend, e) l =
    split_filled_short len r p _ l (fill-FillsTo len r.channel.incoming r.buffer q p pend e)

gather_all :
    (rs : List (Result Bytes)) (buffer q : Bytes)
    → Pending rs q
    → gather buffer rs ≡ (ok tt, buffer ++ q, [])
unfolding gather
gather_all _ buffer _ ended = ap (λ x. (ok tt, x, [])) (sym (append-nil buffer))
gather_all _ buffer q (chunk c rs p _ x eq) =
    gather_all rs (buffer ++ c) p x
    ∙ ap (λ x. (ok tt, x, [])) (append_assoc buffer c p ∙ ap (◌++◌ buffer) (sym eq))

-- Where no `recv` fails, `read_to_end` gives all that is to come, in order.
pub read_to_end-all :
    (r : ChannelReader) (p : Bytes) → Holds r p → read_to_end r ≡ (ok p, with_parts r [] [])
unfolding read_to_end take_gathered
read_to_end-all r p (q, pend, e) =
    ap (take_gathered r) (gather_all r.channel.incoming r.buffer q pend)
    ∙ ap (λ x. (ok x, with_parts r [] [])) e
