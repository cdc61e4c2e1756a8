-- ===== src/Session/Stream/Flow.antt =====
-- Flow control in src/session/stream.rs: what `send` writes, and when.
use rsadb.Base.{
  ℕ, zero, suc, ◌+◌, ◌≤◌, ◌<◌, ◌≡◌, ◌⊎◌, refl, sym, ap, ◌∙◌, inl, inr, Bytes, Bool, true, false,
  Option, none, some, get_elem?, length, length-take, length-drop, take, drop, take-append-drop,
  concat, All, min, if_holds, List, [], ◌∷◌, ◌++◌, append-nil, append_assoc, arith,
}
use rsadb.Error.{Result, ok, err, disconnected}
use rsadb.Wire.Command.{write}
use rsadb.Wire.Message.{message}
use rsadb.Session.Registry.{StreamState, Shared, acks_at}
use rsadb.Session.Reader.{Outcome, post, receive}
use rsadb.Session.Reader.Effects.{
  writes, writes-append, acks_of, Follows, Follows-refl, Follows-trans, receive-Follows,
}
use rsadb.Session.Stream.{
  Arrivals, Waited, Running, returns, waiting, stuck, wait_ack, write_chunk, write_with,
  await_write, acknowledged, and_then, send, ids_at, verdict_at,
}

-- What a wait has seen: a positive answer is an acknowledgement past `seen`.
abbrev Answered : ℕ → ℕ → Shared → Waited → Type 0
Answered a seen s (some true, t, rs) = Follows s t × (seen < acks_of a t)
Answered a seen s (_, t, rs) = Follows s t × Unit {0}

verdict-acked :
    (seen : ℕ) (o : Option StreamState) → verdict_at seen o ≡ some true → seen < acks_at o
verdict-acked seen none h = cc
verdict-acked seen (some t) h = ground arith

answer_now :
    (a seen : ℕ) (s : Shared) (o : Option Bool) (rs : Arrivals)
    → (o ≡ some true → seen < acks_of a s)
    → Answered a seen s (o, s, rs)
answer_now a seen s none rs h = (Follows-refl s, tt)
answer_now a seen s (some true) rs h = (Follows-refl s, h refl)
answer_now a seen s (some false) rs h = (Follows-refl s, tt)

Answered-trans :
    (a seen : ℕ) (s t : Shared) (w : Waited)
    → Follows s t
    → Answered a seen t w
    → Answered a seen s w
Answered-trans a seen s t (some true, u, rs) f (g, h) = (Follows-trans f g, h)
Answered-trans a seen s t (some false, u, rs) f (g, h) = (Follows-trans f g, h)
Answered-trans a seen s t (none, u, rs) f (g, h) = (Follows-trans f g, h)

Verdict-cases : (o : Option Bool) → (o ≡ none) ⊎ ((b : Bool) × (o ≡ some b))
Verdict-cases none = inl refl
Verdict-cases (some b) = inr (b, refl)

wait_ack-Answered :
    (a seen : ℕ) (rs : Arrivals) (s : Shared) → Answered a seen s (wait_ack a seen rs s)
unfolding wait_ack
wait_ack-Answered a seen [] s = answer_now a seen s _ [] (verdict-acked seen (get_elem? s.heap a))
wait_ack-Answered a seen (r ∷ rs) s = elim (Verdict-cases (verdict_at seen (get_elem? s.heap a))) [
  | inl e ↦
      rw (e, wait_ack)
        (Answered-trans a seen s (receive r s) (wait_ack a seen rs (receive r s))
          (receive-Follows r s) (wait_ack-Answered a seen rs (receive r s)))
  | inr (b, e) ↦
      rw (e, wait_ack)
        (answer_now a seen s (some b) (r ∷ rs) λ h. verdict-acked seen (get_elem? s.heap a) (e ∙ h))
]

-- One chunk was written and acknowledged; or it was written and not acknowledged, or not written.
abbrev Wrote : ℕ → Bytes → Shared → Running (Unit {0}) → Type 0
Wrote a chunk s (returns (ok _), t, rs) =
    (writes t.outbox ≡ writes s.outbox ++ (chunk ∷ [])) × (acks_of a s < acks_of a t)
Wrote a chunk s (stuck, t, rs) = ⊥
Wrote a chunk s (_, t, rs) =
    ((writes t.outbox ≡ writes s.outbox ++ (chunk ∷ [])) ⊎ (writes t.outbox ≡ writes s.outbox))
    × (acks_of a s ≤ acks_of a t)

acknowledged-Wrote :
    (a : ℕ) (chunk : Bytes) (s t : Shared) (w : Waited)
    → writes t.outbox ≡ writes s.outbox ++ (chunk ∷ [])
    → acks_of a t ≡ acks_of a s
    → Answered a (acks_of a s) t w
    → Wrote a chunk s (acknowledged w)
unfolding acknowledged
acknowledged-Wrote a chunk s t (some true, u, rs) e k (f, h) = (f.same_writes ∙ e, h)
acknowledged-Wrote a chunk s t (some false, u, rs) e k (f, h) =
    (inl (f.same_writes ∙ e), omega (arith, f.acks_grow a))
acknowledged-Wrote a chunk s t (none, u, rs) e k (f, h) =
    (inl (f.same_writes ∙ e), omega (arith, f.acks_grow a))

await_write-Wrote :
    (a id far : ℕ) (chunk : Bytes) (rs : Arrivals) (s : Shared)
    → Wrote a chunk s (await_write a (acks_of a s) rs (post (message write id far chunk) s))
unfolding await_write post
await_write-Wrote a id far chunk rs s =
    if_holds {A = Outcome} (λ o. Wrote a chunk s (await_write a (acks_of a s) rs o)) s.writing
      (ok tt, t) (err disconnected, s)
      (λ _.
        acknowledged-Wrote a chunk s t (wait_ack a (acks_of a s) rs t)
          (writes-append s.outbox (message write id far chunk ∷ []) ∙ unfold writes in refl) refl
          (wait_ack-Answered a (acks_of a s) rs t))
      λ _. (inr refl, omega arith)
  where
    t : Shared
    t = record s { outbox = s.outbox ++ (message write id far chunk ∷ []) }

write_with-Wrote :
    (a : ℕ) (chunk : Bytes) (rs : Arrivals) (s : Shared) (i : Result (ℕ × ℕ))
    → Wrote a chunk s (write_with a chunk rs s i)
unfolding write_with
write_with-Wrote a chunk rs s (err e) = (inr refl, omega arith)
write_with-Wrote a chunk rs s (ok (id, far)) = await_write-Wrote a id far chunk rs s

write_chunk-Wrote :
    (a : ℕ) (chunk : Bytes) (rs : Arrivals) (s : Shared)
    → Wrote a chunk s (write_chunk a chunk rs s)
unfolding write_chunk
write_chunk-Wrote a chunk rs s = write_with-Wrote a chunk rs s (ids_at (get_elem? s.heap a))

-- A chunk is not empty and not longer than the limit.
abbrev pub IsChunk : ℕ → Bytes → Type 0
IsChunk limit c = (0 < length c) × (length c ≤ limit)

-- A front of the data is written, with at most one chunk not acknowledged.
abbrev pub Partial : ℕ → ℕ → Bytes → Shared → Shared → Type 0
Partial limit a bytes s t =
    (chunks : List Bytes) × (rest : Bytes) × (writes t.outbox ≡ writes s.outbox ++ chunks)
    × (concat chunks ++ rest ≡ bytes)
    × All (IsChunk limit) chunks
    × (acks_of a s + length chunks ≤ acks_of a t + 1)

-- All of the data is written, and every chunk acknowledged.
abbrev pub Complete : ℕ → ℕ → Bytes → Shared → Shared → Type 0
Complete limit a bytes s t =
    (chunks : List Bytes) × (writes t.outbox ≡ writes s.outbox ++ chunks)
    × (concat chunks ≡ bytes)
    × All (IsChunk limit) chunks
    × (acks_of a s + length chunks ≤ acks_of a t)

abbrev pub Sends : ℕ → ℕ → Bytes → Shared → Running (Unit {0}) → Type 0
Sends limit a bytes s (returns (ok _), t, rs) = Complete limit a bytes s t
Sends limit a bytes s (returns (err e), t, rs) = Partial limit a bytes s t
Sends limit a bytes s (waiting, t, rs) = Partial limit a bytes s t
Sends limit a bytes s (stuck, t, rs) = ⊥

module _ (limit a n : ℕ) (bytes : Bytes) (s t : Shared) where
  join_writes :
      (u : Shared) (cs : List Bytes)
      → writes t.outbox ≡ writes s.outbox ++ (take n bytes ∷ [])
      → writes u.outbox ≡ writes t.outbox ++ cs
      → writes u.outbox ≡ writes s.outbox ++ (take n bytes ∷ cs)
  join_writes u cs w e =
      e ∙ ap (λ x. x ++ cs) w ∙ append_assoc (writes s.outbox) (take n bytes ∷ []) cs

  -- One acknowledged chunk in front of what is sent later.
  Partial-cons :
      (u : Shared)
      → IsChunk limit (take n bytes)
      → writes t.outbox ≡ writes s.outbox ++ (take n bytes ∷ [])
      → acks_of a s < acks_of a t
      → Partial limit a (drop n bytes) t u
      → Partial limit a bytes s u
  Partial-cons u c w k (cs, rest, e, j, al, ac) = (
    take n bytes ∷ cs,
    rest,
    join_writes u cs w e,
    append_assoc (take n bytes) (concat cs) rest
        ∙ ap (◌++◌ (take n bytes)) j
        ∙ take-append-drop n bytes,
    (c, al),
    omega arith,
  )

  Sends-cons :
      (r : Running (Unit {0}))
      → IsChunk limit (take n bytes)
      → writes t.outbox ≡ writes s.outbox ++ (take n bytes ∷ [])
      → acks_of a s < acks_of a t
      → Sends limit a (drop n bytes) t r
      → Sends limit a bytes s r
  Sends-cons (returns (ok _), u, rs) c w k (cs, e, j, al, ac) = (
    take n bytes ∷ cs,
    join_writes u cs w e,
    ap (◌++◌ (take n bytes)) j ∙ take-append-drop n bytes,
    (c, al),
    omega arith,
  )
  Sends-cons (returns (err x), u, rs) c w k h = Partial-cons u c w k h
  Sends-cons (waiting, u, rs) c w k h = Partial-cons u c w k h
  Sends-cons (stuck, u, rs) c w k h = h

  -- A chunk that was not acknowledged ends the sending.
  Partial-last :
      IsChunk limit (take n bytes)
      → (writes t.outbox ≡ writes s.outbox ++ (take n bytes ∷ []))
        ⊎ (writes t.outbox ≡ writes s.outbox)
      → acks_of a s ≤ acks_of a t
      → Partial limit a bytes s t
  Partial-last c (inl w) k = (
    take n bytes ∷ [],
    drop n bytes,
    w,
    rw (append-nil (take n bytes)) (take-append-drop n bytes),
    (c, tt),
    omega arith,
  )
  Partial-last c (inr w) k =
      ([], bytes, w ∙ sym (append-nil (writes s.outbox)), refl, tt, omega arith)

and_then-Sends :
    (limit a n : ℕ) (bytes : Bytes) (s : Shared) (next : Arrivals → Shared → Running (Unit {0}))
    (w : Running (Unit {0}))
    → IsChunk limit (take n bytes)
    → Wrote a (take n bytes) s w
    → ((later : Arrivals) (t : Shared) → Sends limit a (drop n bytes) t (next later t))
    → Sends limit a bytes s (and_then next w)
and_then-Sends limit a n bytes s next (returns (ok _), t, later) c (w, k) h =
    Sends-cons limit a n bytes s t (next later t) c w k (h later t)
and_then-Sends limit a n bytes s next (returns (err e), t, later) c (w, k) h =
    Partial-last limit a n bytes s t c w k
and_then-Sends limit a n bytes s next (waiting, t, later) c (w, k) h =
    Partial-last limit a n bytes s t c w k
and_then-Sends limit a n bytes s next (stuck, t, later) c w h = absurd w

-- `send` cuts the data into chunks of at most the payload limit, in order and without loss, and has
-- at most one chunk under way that is not acknowledged. When it returns, all of the data is written
-- and acknowledged; when it fails or still waits, a front of it is written. Fuel for as many chunks as
-- there are bytes is enough.
pub send-Sends :
    (fuel limit a : ℕ) (bytes : Bytes) (rs : Arrivals) (s : Shared)
    → length bytes ≤ fuel
    → 0 < limit
    → Sends limit a bytes s (send fuel limit a bytes rs s)
unfolding send
send-Sends fuel limit a [] rs s f l =
    ([], sym (append-nil (writes s.outbox)), refl, tt, omega arith)
send-Sends zero limit a (b ∷ bs) rs s f l = absurd (omega arith)
send-Sends (suc fuel) limit a (b ∷ bs) rs s f l =
    let n : ℕ = min (length (b ∷ bs)) limit in
    and_then-Sends limit a n (b ∷ bs) s _ (write_chunk a (take n (b ∷ bs)) rs s)
      (omega (arith, length-take n (b ∷ bs)), omega (arith, length-take n (b ∷ bs)))
      (write_chunk-Wrote a (take n (b ∷ bs)) rs s)
      λ later t.
        send-Sends fuel limit a (drop n (b ∷ bs)) later t (omega (arith, length-drop n (b ∷ bs))) l
