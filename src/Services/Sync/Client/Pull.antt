-- ===== src/Services/Sync/Client/Pull.antt =====
-- The pull of src/services/sync/mod.rs and what the device sends for it.
use rsadb.Base.{
  ℕ, zero, suc, ◌≤◌, ◌<◌, ◌≡◌, refl, ap, ◌∙◌, subst, Bytes, IsU32, le→ltb, Option, none, some,
  length, length-append, take-append, drop-append, u32_le, from_le_bytes, from_le_bytes-u32_le,
  List, [], ◌∷◌, ◌++◌, append_assoc, All, map, arith,
}
use rsadb.Error.{Result, ok}
use rsadb.Channel.{ChannelReader, Reads, pure, bind_result, read_exact, read_u32}
use rsadb.Services.Sync.Client.{available, incoming_bytes}
use rsadb.Channel.Reading.{Pending, ended, chunk, Holds, read_exact-Takes}
use rsadb.Services.Sync.Codec.{word, id_data, id_done, data_max}
use rsadb.Services.Sync.Client.{next_data, data_reply, data_of}
use rsadb.Services.Sync.Client.Transfer.{Items, items, item, cons_item}

-- A computation gives `a` and leaves the reader before `rest`.
abbrev pub Gives : {A : Type 0} → Result A × ChannelReader → A → Bytes → Type 0
Gives x a rest = (r' : ChannelReader) × (x ≡ (ok a, r')) × Holds r' rest

bind-Gives :
    {A B : Type 0} (m : Result A × ChannelReader) (k : A → Reads B) (a : A) (b : B)
    (rest end : Bytes)
    → Gives m a rest
    → ((r : ChannelReader) → Holds r rest → Gives (k a r) b end)
    → Gives (bind_result k m) b end
bind-Gives m k a b rest end (r, e, h) f =
    let (r', e', h') = f r h in (r', ap (bind_result k) e ∙ e', h')

pub read_front :
    (r : ChannelReader) (x rest : Bytes)
    → Holds r (x ++ rest)
    → Gives (read_exact (length x) r) x rest
read_front r x rest h =
    let (r', e, h', _, _) =
      read_exact-Takes (length x) r (x ++ rest) h (omega (arith, length-append x rest)) in
    (r', e ∙ ap (λ y. (ok y, r')) (take-append x rest), subst (Holds r') (drop-append x rest) h')

pub read_u32_front :
    (r : ChannelReader) (n : ℕ) (rest : Bytes)
    → IsU32 n
    → Holds r (u32_le n ++ rest)
    → Gives (read_u32 r) n rest
unfolding read_u32
read_u32_front r n rest small h =
    bind-Gives (read_exact 4 r) (λ b. pure (from_le_bytes b)) (u32_le n) n rest rest
      (read_front r (u32_le n) rest h)
      (λ r' h'. (r', ap (λ k. (ok k, r')) (from_le_bytes-u32_le n small), h'))

-- The `DATA` messages of the chunks and the `DONE` behind them.
abbrev pub transfer : List Bytes → ℕ → Bytes
transfer [] mtime = word id_done mtime
transfer (c ∷ cs) mtime = (word id_data (length c) ++ c) ++ transfer cs mtime

data_of_small :
    (r : ChannelReader) (c rest : Bytes)
    → length c ≤ data_max
    → Holds r (c ++ rest)
    → Gives (data_of (length c) r) (some c) rest
unfolding data_of
data_of_small r c rest l h = rw (le→ltb data_max (length c) l) (
    bind-Gives (read_exact (length c) r) (λ b. pure (some b)) c (some c) rest rest
      (read_front r c rest h) (λ r' h'. (r', refl, h')))

next_data-data :
    (r : ChannelReader) (c rest : Bytes)
    → length c ≤ data_max
    → Holds r ((word id_data (length c) ++ c) ++ rest)
    → Gives (next_data r) (some c) rest
unfolding next_data word data_reply data_of
next_data-data r c rest l h =
    bind-Gives (read_exact 4 r) data_reply id_data (some c) (u32_le (length c) ++ (c ++ rest)) rest
      (read_front r id_data (u32_le (length c) ++ (c ++ rest)) h)
      (λ r1 h1.
        bind-Gives (read_u32 r1) data_of (length c) (some c) (c ++ rest) rest
          (read_u32_front r1 (length c) (c ++ rest) (omega arith) h1)
          (λ r2 h2. data_of_small r2 c rest l h2))

next_data-done :
    (r : ChannelReader) (mtime : ℕ) (rest : Bytes)
    → IsU32 mtime
    → Holds r (word id_done mtime ++ rest)
    → Gives (next_data r) none rest
unfolding next_data word data_reply
next_data-done r mtime rest small h =
    bind-Gives (read_exact 4 r) data_reply id_done none (u32_le mtime ++ rest) rest
      (read_front r id_done (u32_le mtime ++ rest) h)
      (λ r1 h1.
        bind-Gives (read_u32 r1) (λ _. pure none) mtime none rest rest
          (read_u32_front r1 mtime rest small h1) (λ r2 h2. (r2, refl, h2)))

-- The items are the chunks, in order, and the reader stands behind the `DONE`.
abbrev pub Pulls : Items → List Bytes → Bytes → Type 0
Pulls x cs rest = (r' : ChannelReader) × (x ≡ (map (λ c. ok c) cs, r')) × Holds r' rest

item-Pulls :
    (go : ChannelReader → Items) (x : Result (Option Bytes) × ChannelReader) (c : Bytes)
    (cs : List Bytes) (mid rest : Bytes)
    → Gives x (some c) mid
    → ((r : ChannelReader) → Holds r mid → Pulls (go r) cs rest)
    → Pulls (item go x) (c ∷ cs) rest
unfolding item
item-Pulls go x c cs mid rest (r, e, h) f =
    let (r', e', h') = f r h in (r', ap (item go) e ∙ ap (cons_item c) e', h')

item_done :
    (go : ChannelReader → Items) (x : Result (Option Bytes) × ChannelReader) (rest : Bytes)
    → Gives x none rest
    → Pulls (item go x) [] rest
unfolding item
item_done go x rest (r, e, h) = (r, ap (item go) e, h)

items_enough :
    (fuel : ℕ) (r : ChannelReader) (cs : List Bytes) (mtime : ℕ) (rest : Bytes)
    → length cs < fuel
    → All (λ c. length c ≤ data_max) cs
    → IsU32 mtime
    → Holds r (transfer cs mtime ++ rest)
    → Pulls (items fuel r) cs rest
unfolding items
items_enough zero r cs mtime rest l _ _ _ = absurd (omega arith)
items_enough (suc fuel) r [] mtime rest l all small h =
    item_done (items fuel) (next_data r) rest (next_data-done r mtime rest small h)
items_enough (suc fuel) r (c ∷ cs) mtime rest l (fits, all) small h =
    item-Pulls (items fuel) (next_data r) c cs (transfer cs mtime ++ rest) rest
      (next_data-data r c (transfer cs mtime ++ rest) fits
        (subst (Holds r) (append_assoc (word id_data (length c) ++ c) (transfer cs mtime) rest) h))
      (λ r' h'. items_enough fuel r' cs mtime rest (omega arith) all small h')

Pending-incoming_bytes :
    (rs : List (Result Bytes)) (p : Bytes) → Pending rs p → incoming_bytes rs ≡ length p
Pending-incoming_bytes _ _ ended = refl
Pending-incoming_bytes _ p (chunk c rs q _ x eq) =
    omega (arith, Pending-incoming_bytes rs q x, ap length eq, length-append c q)

Holds-available : (r : ChannelReader) (p : Bytes) → Holds r p → available r ≡ length p
Holds-available r p (q, x, e) =
    omega
      (arith, Pending-incoming_bytes r.channel.incoming q x, length-append r.buffer q, ap length e)

length-transfer : (cs : List Bytes) (mtime : ℕ) → length cs ≤ length (transfer cs mtime)
unfolding word
length-transfer [] mtime = omega arith
length-transfer (c ∷ cs) mtime = omega (
  arith,
  length-transfer cs mtime,
  length-append (word id_data (length c) ++ c) (transfer cs mtime),
  length-append (word id_data (length c)) c,
  length-append id_data (u32_le (length c)),
)

-- Where the device sends chunks of up to `DATA_MAX` bytes and then `DONE`, a pull gives these chunks
-- and ends, with the reader behind the `DONE`, however the channel has cut the bytes. No `recv`
-- fails, and the fuel is the one that `pull` takes.
pub items-transfer :
    (r : ChannelReader) (cs : List Bytes) (mtime : ℕ) (rest : Bytes)
    → All (λ c. length c ≤ data_max) cs
    → IsU32 mtime
    → Holds r (transfer cs mtime ++ rest)
    → Pulls (items (suc (available r)) r) cs rest
items-transfer r cs mtime rest all small h =
    items_enough (suc (available r)) r cs mtime rest
      (omega (
        arith,
        Holds-available r (transfer cs mtime ++ rest) h,
        length-append (transfer cs mtime) rest,
        length-transfer cs mtime,
      ))
      all small h
