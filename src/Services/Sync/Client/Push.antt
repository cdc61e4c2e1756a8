-- ===== src/Services/Sync/Client/Push.antt =====
-- The push of src/services/sync/mod.rs: what it sends, and its end.
use rsadb.Base.{
  ℕ, ◌≡◌, ◌≢◌, ◌<◌, ◌^◌, refl, ap, ◌∙◌, subst, sym, Bytes, if◌then◌else◌, Bool-cases, inl, inr,
  lt→ltb, length, length-append, concat, cut_at, u32_le, All, map, List, [], ◌∷◌, ◌++◌,
  append_assoc, arith,
}
use rsadb.Error.{ok}
use rsadb.Text.Decimal.{decimal}
use rsadb.Channel.{ChannelReader, send, read_u32}
use rsadb.Channel.Reading.{Holds, read_exact-Takes}
use rsadb.Channel.Sending.{
  all_sent, Writes-append, Writes-Holds, Puts, send-Puts, bind-Puts, nothing-Puts,
}
use rsadb.Services.Sync.Codec.{word, id_send, id_snd2, id_data, id_done, id_okay}
use rsadb.Services.Sync.Client.{SyncFeatures, read_status, status_of}
use rsadb.Services.Sync.Client.Pull.{transfer}
use rsadb.Services.Sync.Client.Start.{asked, request_fits, request-Puts}
use rsadb.Services.Sync.Client.Transfer.{
  push, push_v1, push_v2, start_push, send_chunk, send_chunks,
}

abbrev pub push_path : SyncFeatures → Bytes → ℕ → Bytes
push_path f path mode = if f.sendrecv_v2 then path else path ++ (b',' ∷ decimal mode)

-- The old request has the mode behind the path, the new one in a message of its own.
abbrev pub push_request : SyncFeatures → Bytes → ℕ → Bytes
push_request f path mode =
    if f.sendrecv_v2
    then asked id_snd2 path ++ (word id_snd2 mode ++ u32_le 0)
    else asked id_send (path ++ (b',' ∷ decimal mode))

start_push-Puts :
    (f : SyncFeatures) (path : Bytes) (mode : ℕ) (r : ChannelReader)
    → length (push_path f path mode) < 2 ^ 32
    → r.channel.outcomes ≡ []
    → Puts (push_request f path mode) r (start_push f path mode r)
unfolding start_push push_v1 push_v2
start_push-Puts f path mode r short quiet = elim (Bool-cases f.sendrecv_v2) [
  | inr e ↦ rw e (request-Puts id_send (path ++ (b',' ∷ decimal mode)) r (rw e at short) quiet)
  | inl e ↦ rw e (
      rw (request_fits id_snd2 path (rw e at short)) (
        bind-Puts (asked id_snd2 path) (word id_snd2 mode ++ u32_le 0) r
          (send (asked id_snd2 path) r) (λ _. send (word id_snd2 mode ++ u32_le 0))
          (send-Puts (asked id_snd2 path) r quiet)
          (λ s q. send-Puts (word id_snd2 mode ++ u32_le 0) s q)))
]

-- A read of the source that is not its end, and that a length of 32 bits can tell.
abbrev pub IsRead : Bytes → Type 0
IsRead c = (c ≢ []) × (length c < 2 ^ 32)

abbrev datas : List Bytes → Bytes
datas [] = []
datas (c ∷ cs) = (word id_data (length c) ++ c) ++ datas cs

datas-done : (cs : List Bytes) (mtime : ℕ) → datas cs ++ word id_done mtime ≡ transfer cs mtime
datas-done [] mtime = refl
datas-done (c ∷ cs) mtime =
    append_assoc (word id_data (length c) ++ c) (datas cs) (word id_done mtime)
    ∙ ap (λ x. (word id_data (length c) ++ c) ++ x) (datas-done cs mtime)

send_chunk-Puts :
    (c : Bytes) (r : ChannelReader)
    → length c < 2 ^ 32
    → r.channel.outcomes ≡ []
    → Puts (word id_data (length c) ++ c) r (send_chunk c r)
unfolding send_chunk
send_chunk-Puts c r short quiet =
    rw (lt→ltb (length c) (2 ^ 32) short) (send-Puts (word id_data (length c) ++ c) r quiet)

send_chunks-Puts :
    (cs : List Bytes) (r : ChannelReader)
    → All IsRead cs
    → r.channel.outcomes ≡ []
    → Puts (datas cs) r (send_chunks (map (λ c. ok c) cs) r)
unfolding send_chunks
send_chunks-Puts [] r h quiet = (r, refl, nothing-Puts r quiet)
send_chunks-Puts ([] ∷ cs) r ((some', _), h) quiet = absurd (some' refl)
send_chunks-Puts ((b ∷ bs) ∷ cs) r ((_, short), h) quiet =
    bind-Puts (word id_data (length (b ∷ bs)) ++ (b ∷ bs)) (datas cs) r (send_chunk (b ∷ bs) r)
      (λ _. send_chunks (map (λ c. ok c) cs)) (send_chunk-Puts (b ∷ bs) r short quiet)
      (λ s q. send_chunks-Puts cs s h q)

-- An `OKAY` with the word behind it.
read_status_okay :
    (r : ChannelReader) (x rest : Bytes)
    → length x ≡ 4
    → Holds r (id_okay ++ (x ++ rest))
    → (t : ChannelReader) × (read_status r ≡ (ok tt, t)) × (all_sent t ≡ all_sent r) × Holds t rest
unfolding read_status status_of read_u32
read_status_okay r x rest four h =
    let (s, e, h', same, _) = read_exact-Takes 4 r (id_okay ++ (x ++ rest)) h (omega arith) in
    let (t, e', h'', same', _) =
      read_exact-Takes 4 s (x ++ rest) h' (omega (arith, length-append x rest)) in
    (
      t,
      rw (e, e') refl,
      ap concat (same' ∙ same),
      subst (Holds t) (cut_at 4 x rest refl (sym four)).1 h'',
    )

-- On a channel that refuses no `send`, and where the device answers `OKAY` with a word behind it:
-- `push` succeeds and has sent the request, each read of the source as one `DATA` message, and
-- `DONE` with the time, in this order; the reader is left behind the answer. The path fits a request,
-- no read of the source is empty or fails, and each is shorter than 4 GiB.
pub push-transfer :
    (f : SyncFeatures) (path : Bytes) (mode mtime : ℕ) (cs : List Bytes) (r : ChannelReader)
    (x rest : Bytes)
    → length (push_path f path mode) < 2 ^ 32
    → All IsRead cs
    → r.channel.outcomes ≡ []
    → length x ≡ 4
    → Holds r (id_okay ++ (x ++ rest))
    → (t : ChannelReader) × (push f path mode mtime (map (λ c. ok c) cs) r ≡ (ok tt, t))
      × (all_sent t ≡ all_sent r ++ (push_request f path mode ++ transfer cs mtime))
      × Holds t rest
unfolding push
push-transfer f path mode mtime cs r x rest short reads quiet four h =
    let request = push_request f path mode in
    let (s1, e1, w1) = start_push-Puts f path mode r short quiet in
    let (s2, e2, w2) = send_chunks-Puts cs s1 reads w1.same_outcomes in
    let (s3, e3, w3) = send-Puts (word id_done mtime) s2 w2.same_outcomes in
    let behind = Writes-append (datas cs) (word id_done mtime) s1 s2 s3 w2 w3 in
    let all = Writes-append request (datas cs ++ word id_done mtime) r s1 s3 w1 behind in
    let (t, e4, kept, left) = read_status_okay s3 x rest four (
      Writes-Holds (request ++ (datas cs ++ word id_done mtime)) r s3 (id_okay ++ (x ++ rest)) all
        h) in
    (
      t,
      rw (e1, e2, e3) e4,
      kept ∙ (all.wrote ∙ ap (λ d. all_sent r ++ (request ++ d)) (datas-done cs mtime)),
      left,
    )
