-- ===== src/Services/Sync/Codec/RoundTrip.antt =====
-- The stat replies of src/services/sync/codec.rs, encoded and parsed.
use rsadb.Base.{
  ℕ, ◌-◌, ◌^◌, ◌<◌, ◌≡◌, refl, subst, sym, ap, ◌∙◌, Bytes, IsU32, IsU64, none, some, from_le_bytes,
  from_le_bytes-u32_le, from_le_bytes-u64_le, u32_le, [], ◌∷◌, arith, lt→ltb, le→ltb,
}
use rsadb.Services.Sync.Codec.{
  ℤ, pos, negsuc, Stat, StatDetail, stat_v1, stat_v2, encode_stat_v1, encode_stat_v2, encode_detail,
  u32_at, u64_at, i64_at, i64_of, i64_le, bits_of, size_u32, mtime_u32, unwrap_or, no_detail,
}

-- The range of an i64.
abbrev pub IsI64 : ℤ → Type 0
IsI64 (pos n) = n < 2 ^ 63
IsI64 (negsuc n) = n < 2 ^ 63

i64_of_high : (n : ℕ) → n < 2 ^ 63 → (m : ℕ) → m ≡ 2 ^ 64 - 1 - n → i64_of m ≡ negsuc n
unfolding i64_of
i64_of_high n h m e = rw (le→ltb m (2 ^ 63) (omega arith)) (ap negsuc (omega arith))

i64_of-i64_le : (z : ℤ) → IsI64 z → i64_of (from_le_bytes (i64_le z)) ≡ z
unfolding i64_of i64_le bits_of
i64_of-i64_le (pos n) h = rw (from_le_bytes-u64_le n (omega arith), lt→ltb n (2 ^ 63) h) refl
i64_of-i64_le (negsuc n) h = i64_of_high n h _ (from_le_bytes-u64_le (2 ^ 64 - 1 - n) (omega arith))

stat_path :
    (s t : Stat)
    → s.mode ≡ t.mode
    → s.size ≡ t.size
    → s.mtime ≡ t.mtime
    → s.error ≡ t.error
    → s.detail ≡ t.detail
    → s ≡ t
stat_path s t m z k e d =
    λ i. record { mode = m i; size = z i; mtime = k i; error = e i; detail = d i }

size_u32_small : (n : ℕ) → IsU32 n → size_u32 n ≡ n
unfolding size_u32
size_u32_small n h = rw (lt→ltb n (2 ^ 32) h) refl

mtime_u32_small : (z : ℤ) (n : ℕ) → z ≡ pos n → IsU32 n → mtime_u32 z ≡ n
unfolding mtime_u32
mtime_u32_small z n e h = ap mtime_u32 e ∙ rw (lt→ltb n (2 ^ 32) h) refl

u32_back : (m n : ℕ) → m ≡ n → IsU32 n → from_le_bytes (u32_le m) ≡ n
u32_back m n e h = ap (λ k. from_le_bytes (u32_le k)) e ∙ from_le_bytes-u32_le n h

-- What a v1 reply can hold: 32 bits of each number, and nothing else.
abbrev pub IsStatV1 : Stat → Type 0
IsStatV1 s =
    IsU32 s.mode
    × IsU32 s.size
    × ((n : ℕ) × (s.mtime ≡ pos n) × IsU32 n)
    × (s.error ≡ none)
    × (s.detail ≡ none)

-- A v1 reply gives back the stat that it was made of, where its numbers are of 32 bits and it has
-- neither an error nor a detail.
pub stat_v1-encode_stat_v1 :
    (a b c d : ℕ) (s : Stat) → IsStatV1 s → stat_v1 (encode_stat_v1 (a ∷ b ∷ c ∷ d ∷ []) s) ≡ s
unfolding stat_v1 encode_stat_v1 u32_at
stat_v1-encode_stat_v1 a b c d s (mode, size, (n, en, small), error, detail) =
    stat_path (stat_v1 (encode_stat_v1 (a ∷ b ∷ c ∷ d ∷ []) s)) s (u32_back s.mode s.mode refl mode)
      (u32_back (size_u32 s.size) s.size (size_u32_small s.size size) size)
      (ap pos (u32_back (mtime_u32 s.mtime) n (mtime_u32_small s.mtime n en small) small) ∙ sym en)
      (sym error) (sym detail)

-- What a v2 reply can hold: the machine's range of each number, and both optional parts.
abbrev pub IsDetail : StatDetail → Type 0
IsDetail d =
    IsU64 d.dev
    × IsU64 d.ino
    × IsU32 d.nlink
    × IsU32 d.uid
    × IsU32 d.gid
    × IsI64 d.atime
    × IsI64 d.ctime

abbrev pub IsStatV2 : Stat → Type 0
IsStatV2 s =
    IsU32 s.mode
    × IsU64 s.size
    × IsI64 s.mtime
    × ((e : ℕ) × (s.error ≡ some e) × IsU32 e)
    × ((d : StatDetail) × (s.detail ≡ some d) × IsDetail d)

detail_path :
    (s t : StatDetail)
    → s.dev ≡ t.dev
    → s.ino ≡ t.ino
    → s.nlink ≡ t.nlink
    → s.uid ≡ t.uid
    → s.gid ≡ t.gid
    → s.atime ≡ t.atime
    → s.ctime ≡ t.ctime
    → s ≡ t
detail_path s t p q r u v x y = λ i. record {
  dev = p i;
  ino = q i;
  nlink = r i;
  uid = u i;
  gid = v i;
  atime = x i;
  ctime = y i;
}

module _ (a b c d : ℕ) (s : Stat) where
  abbrev reply : Bytes
  reply = encode_stat_v2 (a ∷ b ∷ c ∷ d ∷ []) s

  abbrev shown : StatDetail
  shown = unwrap_or s.detail no_detail

  abbrev detail_of : Stat → StatDetail
  detail_of t = unwrap_or t.detail no_detail

  reply_detail : IsDetail shown → detail_of (stat_v2 reply) ≡ shown
  unfolding stat_v2 encode_stat_v2 encode_detail u32_at u64_at i64_at i64_le
  reply_detail (dev, ino, nlink, uid, gid, atime, ctime) =
      detail_path (detail_of (stat_v2 reply)) shown (from_le_bytes-u64_le shown.dev dev)
        (from_le_bytes-u64_le shown.ino ino) (from_le_bytes-u32_le shown.nlink nlink)
        (from_le_bytes-u32_le shown.uid uid) (from_le_bytes-u32_le shown.gid gid)
        (i64_of-i64_le shown.atime atime) (i64_of-i64_le shown.ctime ctime)

-- A v2 reply gives back the stat that it was made of, where its numbers are in the machine's ranges
-- and it has both an error and a detail.
pub stat_v2-encode_stat_v2 :
    (a b c d : ℕ) (s : Stat) → IsStatV2 s → stat_v2 (encode_stat_v2 (a ∷ b ∷ c ∷ d ∷ []) s) ≡ s
unfolding stat_v2 encode_stat_v2 encode_detail u32_at u64_at i64_at i64_le
stat_v2-encode_stat_v2 a b c d s (mode, size, mtime, (e, ee, small), (p, ep, fields)) =
    stat_path (stat_v2 (reply a b c d s)) s (from_le_bytes-u32_le s.mode mode)
      (from_le_bytes-u64_le s.size size) (i64_of-i64_le s.mtime mtime)
      (ap some (u32_back (unwrap_or s.error 0) e (ap (λ o. unwrap_or o 0) ee) small) ∙ sym ee)
      (ap some (
          reply_detail a b c d s (subst IsDetail (sym (ap (λ o. unwrap_or o no_detail) ep)) fields))
        ∙ ap (λ o. some (unwrap_or o no_detail)) ep
        ∙ sym ep)
