-- ===== src/Session/Reader.antt =====
-- src/session/reader.rs: the task that routes the device's messages, and the task that writes.
pub mod Laws
pub mod Effects
pub mod Routed
pub mod Routes
use rsadb.Base.{
  ℕ, Bytes, Bool, true, false, if◌then◌else◌, Option, none, some, get_elem?, List, [], ◌∷◌, ◌++◌,
}
use rsadb.Error.{
  Result, ok, err, Error, disconnected, protocol, unsupported, tls_mid_session, open_towards_host,
}
use rsadb.Wire.Command.{Command, sync, connect, auth, open_stream, okay, close, write, start_tls}
use rsadb.Wire.Message.{Message, empty_message}
use rsadb.Session.Registry.{
  StreamState, Shared, get, remove, change, ack, deliver, delivers, mark_closed, close_all,
}

abbrev pub Outcome : Type 0
Outcome = Result (Unit {0}) × Shared

-- `outbox.send(msg).map_err(|_| Error::Disconnected)`
unfoldable pub post : Message → Shared → Outcome
post m s =
    if s.writing then (ok tt, record s { outbox = s.outbox ++ (m ∷ []) }) else (err disconnected, s)

route_okay : ℕ → Option ℕ → Shared → Outcome
route_okay remote_id none s = (ok tt, s)
route_okay remote_id (some a) s = (ok tt, change a (ack remote_id) s)

deliver_or_close : Message → ℕ → Shared → Option StreamState → Outcome
deliver_or_close msg a s none = post (empty_message close msg.arg1 msg.arg0) s
deliver_or_close msg a s (some t) =
    if delivers t
    then (ok tt, change a (deliver msg.payload) s)
    else post (empty_message close msg.arg1 msg.arg0) s

route_write : Message → Option ℕ → Shared → Outcome
unfolding deliver_or_close post
route_write msg none s = post (empty_message close msg.arg1 msg.arg0) s
route_write msg (some a) s = deliver_or_close msg a s (get_elem? s.heap a)

route_close : Option ℕ × Shared → Outcome
route_close (none, s) = (ok tt, s)
route_close (some a, s) = (ok tt, change a mark_closed s)

route : Command → Message → Shared → Outcome
unfolding route_okay route_write route_close
route okay msg s = route_okay msg.arg0 (get msg.arg1 s) s
route write msg s = route_write msg (get msg.arg1 s) s
route close msg s = route_close (remove msg.arg1 s)
route start_tls msg s = (err (unsupported tls_mid_session), s)
route connect msg s = (ok tt, s)
route auth msg s = (ok tt, s)
route sync msg s = (ok tt, s)
route open_stream msg s = (err (protocol open_towards_host), s)

-- The message's first argument is the device's id of the stream, the second is ours.
unfoldable pub dispatch : Message → Shared → Outcome
unfolding route
dispatch msg s = route msg.command msg s

-- The loop ends, and closes every stream.
pub stop : Shared → Shared
stop s = close_all (record s { reading = false })

stop_on : Outcome → Option Error × Shared
stop_on (ok _, s) = (none, s)
stop_on (err e, s) = (some e, stop s)

-- One turn of `read_loop` on what the transport's `recv` gives, with the error that ends it.
unfoldable pub turn : Result Message → Shared → Option Error × Shared
unfolding stop stop_on dispatch
turn (err e) s = (some e, stop s)
turn (ok msg) s = stop_on (dispatch msg s)

-- What an arrival does to the session, seen by the other tasks.
unfoldable pub receive : Result Message → Shared → Shared
unfolding turn
receive r s = if s.reading then (turn r s).1 else s

-- The end of the list is the end of the stream.
unfoldable pub read_loop : List (Result Message) → Shared → Error × Shared
read_loop [] s = (disconnected, stop s)
read_loop (r ∷ rs) s =
    let (ended, t) = turn r s in elim ended [ none ↦ read_loop rs t | some e ↦ (e, t) ]

-- The writer task, over the outcomes of the sink's `send`: what is written, and what is left queued
-- when it stops. A message whose `send` fails is lost.
unfoldable pub write_loop : List (Option Error) → List Message → List Message × List Message
write_loop os [] = ([], [])
write_loop [] (m ∷ ms) = let (written, left) = write_loop [] ms in (m ∷ written, left)
write_loop (none ∷ os) (m ∷ ms) = let (written, left) = write_loop os ms in (m ∷ written, left)
write_loop (some e ∷ os) (m ∷ ms) = ([], ms)
