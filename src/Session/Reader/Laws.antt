-- ===== src/Session/Reader/Laws.antt =====
-- The reader task of src/session/reader.rs keeps the registry consistent.
use rsadb.Base.{
  ℕ, refl, false, Option, none, some, get_elem?, Bool-cases, inl, inr, List, [], ◌∷◌, ◌++◌,
  if_holds,
}
use rsadb.Error.{Result, ok, err, disconnected}
use rsadb.Wire.Command.{Command, okay, close, write}
use rsadb.Wire.Message.{Message}
use rsadb.Session.Registry.{StreamState, Shared, get, remove, ack, deliver, delivers, mark_closed}
use rsadb.Session.Registry.Laws.{
  IsConsistent, KeepsId, remove-IsConsistent, change-IsConsistent, close_all-IsConsistent,
}
use rsadb.Session.Reader.{
  Outcome, post, route, route_okay, route_write, route_close, deliver_or_close, dispatch, stop,
  stop_on, turn, receive,
}

pub ack-KeepsId : (r : ℕ) → KeepsId (ack r)
unfolding ack
ack-KeepsId r t = refl

pub deliver-KeepsId : (c : List ℕ) → KeepsId (deliver c)
unfolding deliver
deliver-KeepsId c t = elim (Bool-cases (delivers t)) [ inl e ↦ rw e | inr e ↦ rw e ]

pub mark_closed-KeepsId : KeepsId mark_closed
unfolding mark_closed
mark_closed-KeepsId t = refl

pub post-IsConsistent : (m : Message) (s : Shared) → IsConsistent s → IsConsistent (post m s).1
unfolding post
post-IsConsistent m s c =
    if_holds {A = Outcome} (λ o. IsConsistent o.1) s.writing
      (ok tt, record s { outbox = s.outbox ++ (m ∷ []) }) (err disconnected, s)
      (λ _. record { entries = c.entries; distinct = c.distinct; counter = c.counter }) λ _. c

route_okay-IsConsistent :
    (r : ℕ) (o : Option ℕ) (s : Shared) → IsConsistent s → IsConsistent (route_okay r o s).1
unfolding route_okay
route_okay-IsConsistent r none s c = c
route_okay-IsConsistent r (some a) s c = change-IsConsistent a (ack r) s (ack-KeepsId r) c

deliver_or_close-IsConsistent :
    (msg : Message) (a : ℕ) (s : Shared) (o : Option StreamState)
    → IsConsistent s
    → IsConsistent (deliver_or_close msg a s o).1
unfolding deliver_or_close
deliver_or_close-IsConsistent msg a s none c = post-IsConsistent _ s c
deliver_or_close-IsConsistent msg a s (some t) c = elim (Bool-cases (delivers t)) [
  | inl e ↦ rw e (change-IsConsistent a (deliver msg.payload) s (deliver-KeepsId msg.payload) c)
  | inr e ↦ rw e (post-IsConsistent _ s c)
]

route_write-IsConsistent :
    (msg : Message) (o : Option ℕ) (s : Shared)
    → IsConsistent s
    → IsConsistent (route_write msg o s).1
unfolding route_write
route_write-IsConsistent msg none s c = post-IsConsistent _ s c
route_write-IsConsistent msg (some a) s c =
    deliver_or_close-IsConsistent msg a s (get_elem? s.heap a) c

route_close-IsConsistent :
    (r : Option ℕ × Shared) → IsConsistent r.1 → IsConsistent (route_close r).1
unfolding route_close
route_close-IsConsistent (none, s) c = c
route_close-IsConsistent (some a, s) c = change-IsConsistent a mark_closed s mark_closed-KeepsId c

route-IsConsistent :
    (k : Command) (msg : Message) (s : Shared) → IsConsistent s → IsConsistent (route k msg s).1
unfolding route
route-IsConsistent okay msg s c = route_okay-IsConsistent msg.arg0 (get msg.arg1 s) s c
route-IsConsistent write msg s c = route_write-IsConsistent msg (get msg.arg1 s) s c
route-IsConsistent close msg s c =
    route_close-IsConsistent (remove msg.arg1 s) (remove-IsConsistent msg.arg1 s c)
route-IsConsistent _ msg s c = c

stop-IsConsistent : (s : Shared) → IsConsistent s → IsConsistent (stop s)
unfolding stop
stop-IsConsistent s c =
    close_all-IsConsistent (record s { reading = false })
      (record { entries = c.entries; distinct = c.distinct; counter = c.counter })

stop_on-IsConsistent : (o : Outcome) → IsConsistent o.1 → IsConsistent (stop_on o).1
unfolding stop_on
stop_on-IsConsistent (ok _, s) c = c
stop_on-IsConsistent (err e, s) c = stop-IsConsistent s c

pub turn-IsConsistent :
    (r : Result Message) (s : Shared) → IsConsistent s → IsConsistent (turn r s).1
unfolding turn dispatch
turn-IsConsistent (err e) s c = stop-IsConsistent s c
turn-IsConsistent (ok msg) s c = stop_on-IsConsistent _ (route-IsConsistent msg.command msg s c)

-- Whatever the device sends, a consistent registry stays consistent: every entry leads to the stream of its
-- id, no id is zero, and no id is registered twice.
pub receive-IsConsistent :
    (r : Result Message) (s : Shared) → IsConsistent s → IsConsistent (receive r s)
unfolding receive
receive-IsConsistent r s c =
    if_holds IsConsistent s.reading (turn r s).1 s (λ _. turn-IsConsistent r s c) λ _. c
