-- ===== src/Channel.antt =====
-- src/channel.rs: one byte stream to the device, and buffered reading from it.
-- A channel is what its later calls give: the chunks or failures of `recv` (none is left: the device
-- has closed the stream), the outcomes of `send` (none is left: it succeeds) and of `close`.
pub mod Reading
pub mod Sending
use rsadb.Base.{
  ℕ, Bytes, Bool, true, ltb, if◌then◌else◌, Option, none, some, length, take, drop, from_le_bytes,
  List, [], ◌∷◌, ◌++◌,
}
use rsadb.Error.{Result, ok, err, Error, stream_closed}

pub record Channel : Type 0 where
  pub incoming : List (Result Bytes)
  pub outcomes : List (Option Error)
  pub sent : List Bytes
  pub closed : Bool
  pub close_outcome : Option Error

pub record ChannelReader : Type 0 where
  pub channel : Channel
  pub buffer : Bytes

-- A computation on a reader, which may fail; the reader goes on from where it failed.
abbrev pub Reads : Type 0 → Type 0
Reads A = ChannelReader → Result A × ChannelReader

abbrev pub pure : {A : Type 0} → A → Reads A
pure a r = (ok a, r)

abbrev pub throw : {A : Type 0} → Error → Reads A
throw e r = (err e, r)

abbrev pub bind_result :
    {A B : Type 0} → (A → Reads B) → Result A × ChannelReader → Result B × ChannelReader
bind_result f (ok a, r) = f a r
bind_result f (err e, r) = (err e, r)

infixl 5 ◌>>=◌ ◌>>◌
abbrev pub ◌>>=◌ : {A B : Type 0} → Reads A → (A → Reads B) → Reads B
◌>>=◌ m f r = bind_result f (m r)

abbrev pub ◌>>◌ : {B : Type 0} → Reads (Unit {0}) → Reads B → Reads B
m >> k = m >>= λ _. k

abbrev pub lift : {A : Type 0} → Result A → Reads A
lift x r = (x, r)

recv_next : Channel → List (Result Bytes) → Result (Option Bytes) × Channel
recv_next c [] = (ok none, c)
recv_next c (ok chunk ∷ rs) = (ok (some chunk), record c { incoming = rs })
recv_next c (err e ∷ rs) = (err e, record c { incoming = rs })

unfoldable pub recv : Channel → Result (Option Bytes) × Channel
unfolding recv_next
recv c = recv_next c c.incoming

send_next : Bytes → Channel → List (Option Error) → Result (Unit {0}) × Channel
send_next bytes c [] = (ok tt, record c { sent = c.sent ++ (bytes ∷ []) })
send_next bytes c (none ∷ os) = (ok tt, record c { sent = c.sent ++ (bytes ∷ []); outcomes = os })
send_next bytes c (some e ∷ os) = (err e, record c { outcomes = os })

unfoldable pub send : Bytes → Reads (Unit {0})
unfolding send_next
send bytes r =
    let (result, c) = send_next bytes r.channel r.channel.outcomes in
    (result, record r { channel = c })

close_result : Option Error → Result (Unit {0})
close_result none = ok tt
close_result (some e) = err e

unfoldable pub close : Reads (Unit {0})
unfolding close_result
close r = (
  close_result r.channel.close_outcome,
  record r { channel = record r.channel { closed = true } },
)

-- The loop of `read_exact`, on what is still to come and the buffer.
abbrev pub Filled : Type 0
Filled = Result (Unit {0}) × Bytes × List (Result Bytes)

pub fill : ℕ → Bytes → List (Result Bytes) → Filled
fill len buffer [] =
    if ltb (length buffer) len then (err stream_closed, buffer, []) else (ok tt, buffer, [])
fill len buffer (err e ∷ rs) =
    if ltb (length buffer) len then (err e, buffer, rs) else (ok tt, buffer, err e ∷ rs)
fill len buffer (ok chunk ∷ rs) =
    let more = fill len (buffer ++ chunk) rs in
    if ltb (length buffer) len then more else (ok tt, buffer, ok chunk ∷ rs)

abbrev pub with_parts : ChannelReader → Bytes → List (Result Bytes) → ChannelReader
with_parts r buffer rs = record { channel = record r.channel { incoming = rs }; buffer = buffer }

split_filled : ℕ → ChannelReader → Filled → Result Bytes × ChannelReader
split_filled len r (ok _, buffer, rs) = (ok (take len buffer), with_parts r (drop len buffer) rs)
split_filled len r (err e, buffer, rs) = (err e, with_parts r buffer rs)

unfoldable pub read_exact : ℕ → Reads Bytes
unfolding fill split_filled
read_exact len r = split_filled len r (fill len r.buffer r.channel.incoming)

unfoldable pub read_u32 : Reads ℕ
read_u32 = do b ← read_exact 4; pure (from_le_bytes b)

chunk_of : ChannelReader → Result (Option Bytes) × Channel → Result (Option Bytes) × ChannelReader
chunk_of r (result, c) = (result, record r { channel = c })

next_chunk_of : ChannelReader → Bytes → Result (Option Bytes) × ChannelReader
unfolding chunk_of
next_chunk_of r [] = chunk_of r (recv r.channel)
next_chunk_of r (b ∷ bs) = (ok (some (b ∷ bs)), record r { buffer = [] })

-- Buffered bytes come first.
unfoldable pub next_chunk : Reads (Option Bytes)
unfolding next_chunk_of recv
next_chunk r = next_chunk_of r r.buffer

-- The loop of `read_to_end`.
pub gather : Bytes → List (Result Bytes) → Filled
gather buffer [] = (ok tt, buffer, [])
gather buffer (err e ∷ rs) = (err e, buffer, rs)
gather buffer (ok chunk ∷ rs) = gather (buffer ++ chunk) rs

take_gathered : ChannelReader → Filled → Result Bytes × ChannelReader
take_gathered r (ok _, buffer, rs) = (ok buffer, with_parts r [] rs)
take_gathered r (err e, buffer, rs) = (err e, with_parts r buffer rs)

unfoldable pub read_to_end : Reads Bytes
unfolding gather take_gathered
read_to_end r = take_gathered r (gather r.buffer r.channel.incoming)

abbrev pub reader : Channel → ChannelReader
reader c = record { channel = c; buffer = [] }

-- `drain(channel)`
unfoldable pub drain : Channel → Result Bytes × ChannelReader
unfolding read_to_end close
drain c = (do out ← read_to_end; close; pure out) (reader c)
