-- ===== src/Session/Stream.antt =====
-- src/session/stream.rs, and `open_stream` of src/session/mod.rs: the owner's side of a stream.
-- While the owner waits, the reader task routes what the transport gives: an operation that waits
-- takes this as a list, and hands back what it has not used.
pub mod Flow
pub mod Close
use rsadb.Base.{
  ℕ, zero, suc, ◌+◌, Bytes, Bool, true, false, ltb, if◌then◌else◌, Option, none, some, get_elem?,
  length, take, drop, min, List, [], ◌∷◌, ◌++◌,
}
use rsadb.Error.{
  Result, ok, err, Error, stream_closed, service_refused, invalid_argument, service_nul,
}
use rsadb.Text.{contains_byte}
use rsadb.Wire.Command.{Command, open_stream, okay, close, write}
use rsadb.Wire.Message.{Message, message, empty_message}
use rsadb.Session.Registry.{
  StreamState, Shared, acks_at, register, remove, change, remote, mark_closed, fresh_stream,
}
use rsadb.Session.Reader.{Outcome, post, receive}

-- What the transport gives to the reader task.
abbrev pub Arrivals : Type 0
Arrivals = List (Result Message)

-- An operation that waits returns, or still waits when the arrivals are used up. `stuck` is no value
-- of the code: the loop of `send` ran out of fuel.
pub data Progress {ℓ} (A : Type ℓ) : Type ℓ where
  returns : Result A → Progress A
  waiting : Progress A
  stuck : Progress A

-- `wait_ack` looks at the acknowledgements first, then at the close.
abbrev pub verdict : ℕ → StreamState → Option Bool
verdict seen t = if ltb seen t.acks then some true else if t.closed then some false else none

abbrev pub verdict_at : ℕ → Option StreamState → Option Bool
verdict_at seen none = some false
verdict_at seen (some t) = verdict seen t

abbrev pub Waited : Type 0
Waited = Option Bool × Shared × Arrivals

-- `wait_ack(seen)` of the stream at address `a`; `none` means that it still waits.
unfoldable pub wait_ack : ℕ → ℕ → Arrivals → Shared → Waited
wait_ack a seen [] s = (verdict_at seen (get_elem? s.heap a), s, [])
wait_ack a seen (r ∷ rs) s = elim (verdict_at seen (get_elem? s.heap a)) [
  | some b ↦ (some b, s, r ∷ rs)
  | none ↦ wait_ack a seen rs (receive r s)
]

-- `ids()`
abbrev pub ids : StreamState → Result (ℕ × ℕ)
ids t =
    if t.closed
    then err stream_closed
    else elim (remote t) [ none ↦ err stream_closed | some r ↦ ok (t.local_id, r) ]

abbrev pub ids_at : Option StreamState → Result (ℕ × ℕ)
ids_at none = err stream_closed
ids_at (some t) = ids t

abbrev pub Running : Type 0 → Type 0
Running A = Progress A × Shared × Arrivals

acknowledged : Waited → Running (Unit {0})
acknowledged (some true, s, rs) = (returns (ok tt), s, rs)
acknowledged (some false, s, rs) = (returns (err stream_closed), s, rs)
acknowledged (none, s, rs) = (waiting, s, rs)

await_write : ℕ → ℕ → Arrivals → Outcome → Running (Unit {0})
unfolding acknowledged
await_write a seen rs (ok _, s) = acknowledged (wait_ack a seen rs s)
await_write a seen rs (err e, s) = (returns (err e), s, rs)

write_with : ℕ → Bytes → Arrivals → Shared → Result (ℕ × ℕ) → Running (Unit {0})
unfolding await_write
write_with a chunk rs s (err e) = (returns (err e), s, rs)
write_with a chunk rs s (ok (id, far)) =
    await_write a (acks_at (get_elem? s.heap a)) rs (post (message write id far chunk) s)

-- `write_chunk(chunk)` of the stream at address `a`.
unfoldable pub write_chunk : ℕ → Bytes → Arrivals → Shared → Running (Unit {0})
unfolding write_with
write_chunk a chunk rs s = write_with a chunk rs s (ids_at (get_elem? s.heap a))

-- The `?` behind a wait.
abbrev pub and_then :
    (Arrivals → Shared → Running (Unit {0})) → Running (Unit {0}) → Running (Unit {0})
and_then next (returns (ok _), s, rs) = next rs s
and_then next (returns (err e), s, rs) = (returns (err e), s, rs)
and_then next (waiting, s, rs) = (waiting, s, rs)
and_then next (stuck, s, rs) = (stuck, s, rs)

-- `send(data)`: chunks of at most `limit` bytes, each acknowledged before the next. The fuel bounds
-- the number of chunks.
unfoldable pub send : ℕ → ℕ → ℕ → Bytes → Arrivals → Shared → Running (Unit {0})
send fuel limit a [] rs s = (returns (ok tt), s, rs)
send zero limit a (b ∷ bs) rs s = (stuck, s, rs)
send (suc fuel) limit a (b ∷ bs) rs s =
    let n = min (length (b ∷ bs)) limit in
    and_then (λ later t. send fuel limit a (drop n (b ∷ bs)) later t)
      (write_chunk a (take n (b ∷ bs)) rs s)

-- What `recv` finds in the queue: a payload, the end of the stream, or nothing yet.
take_payload : List Bytes → Bool → Option (Option (Bytes × List Bytes))
take_payload (c ∷ cs) sending = some (some (c, cs))
take_payload [] false = some none
take_payload [] true = none

received : Bytes → Outcome → Progress (Option Bytes) × Shared
received c (ok _, s) = (returns (ok (some c)), s)
received c (err e, s) = (returns (err e), s)

acknowledge : Bytes → Shared → Result (ℕ × ℕ) → Progress (Option Bytes) × Shared
unfolding received
acknowledge c s (ok (id, far)) = received c (post (empty_message okay id far) s)
acknowledge c s (err e) = (returns (ok (some c)), s)

recv_from : ℕ → Shared → Option (Option (Bytes × List Bytes)) → Progress (Option Bytes) × Shared
unfolding acknowledge
recv_from a s none = (waiting, s)
recv_from a s (some none) = (returns (ok none), s)
recv_from a s (some (some (c, cs))) =
    let t = change a (λ x. record x { queue = cs }) s in
    acknowledge c t (ids_at (get_elem? t.heap a))

recv_at : ℕ → Shared → Option StreamState → Progress (Option Bytes) × Shared
unfolding recv_from take_payload
recv_at a s none = (returns (ok none), s)
recv_at a s (some t) = recv_from a s (take_payload t.queue t.sending)

-- `recv()` of the stream at address `a`: a payload is acknowledged when the caller takes it.
unfoldable pub recv : ℕ → Shared → Progress (Option Bytes) × Shared
unfolding recv_at
recv a s = recv_at a s (get_elem? s.heap a)

abbrev pub remote_or_zero : StreamState → ℕ
remote_or_zero t = elim (remote t) [ none ↦ 0 | some r ↦ r ]

pub close_at : ℕ → Shared → Option StreamState → Shared
close_at a s none = s
close_at a s (some t) =
    if t.closed
    then s
    else (post (empty_message close t.local_id (remote_or_zero t))
        (remove t.local_id (change a mark_closed s)).1).1

-- `close_now()`, also run when the stream is dropped.
unfoldable pub close_now : ℕ → Shared → Shared
unfolding close_at
close_now a s = close_at a s (get_elem? s.heap a)

-- `drop(stream)`: the receiver goes too.
unfoldable pub drop_stream : ℕ → Shared → Shared
unfolding close_now
drop_stream a s = change a (λ t. record t { listening = false }) (close_now a s)

-- A refused stream leaves the registry, and its receiver goes.
refuse : ℕ → Bytes → Shared → Arrivals → Option StreamState → Running ℕ
refuse a service s rs none = (returns (err (service_refused service)), s, rs)
refuse a service s rs (some t) = (
  returns (err (service_refused service)),
  change a (λ x. record x { listening = false }) (remove t.local_id s).1,
  rs,
)

abbrev pub has_remote : Option StreamState → Bool
has_remote none = false
has_remote (some t) = elim (remote t) [ none ↦ false | some r ↦ true ]

opened : ℕ → Bytes → Waited → Running ℕ
unfolding refuse
opened a service (none, s, rs) = (waiting, s, rs)
opened a service (some true, s, rs) =
    if has_remote (get_elem? s.heap a)
    then (returns (ok a), s, rs)
    else refuse a service s rs (get_elem? s.heap a)
opened a service (some false, s, rs) = refuse a service s rs (get_elem? s.heap a)

await_open : ℕ → Bytes → Arrivals → Outcome → Running ℕ
unfolding opened
await_open a service rs (ok _, s) = opened a service (wait_ack a 0 rs s)
await_open a service rs (err e, s) =
    (returns (err e), change a (λ x. record x { listening = false }) s, rs)

open_registered : Bytes → Arrivals → ℕ × Shared → Running ℕ
unfolding await_open
open_registered service rs (a, s) =
    await_open a service rs
      (post (message open_stream (local_id_at (get_elem? s.heap a)) 0 (service ++ (0 ∷ []))) s)
  where
    local_id_at : Option StreamState → ℕ
    local_id_at none = 0
    local_id_at (some t) = t.local_id

-- `open_stream(service)`: the address of the new stream.
unfoldable pub open_service : Bytes → Arrivals → Shared → Running ℕ
unfolding open_registered
open_service service rs s =
    if contains_byte 0 service
    then (returns (err (invalid_argument service_nul)), s, rs)
    else open_registered service rs (register s)
