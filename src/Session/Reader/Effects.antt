-- ===== src/Session/Reader/Effects.antt =====
-- What the reader task of src/session/reader.rs leaves to the owners of streams: it writes no data,
-- and acknowledgements only grow.
use rsadb.Base.{
  ℕ, ◌≤◌, ◌≡◌, refl, sym, ap, ◌∙◌, Bytes, false, Option, none, some, get_elem?, if_holds, List, [],
  ◌∷◌, ◌++◌, append-nil, arith,
}
use rsadb.Error.{Result, ok, err, disconnected}
use rsadb.Wire.Command.{Command, okay, close, write}
use rsadb.Wire.Message.{Message, empty_message}
use rsadb.Session.Registry.{
  StreamState, Shared, acks_at, get, remove, change, ack, deliver, delivers, mark_closed, close_all,
}
use rsadb.Session.Registry.Laws.{KeepsAcks, acks-modify, mark_closed-KeepsAcks, close_all-acks}
use rsadb.Session.Reader.{
  Outcome, post, route, route_okay, route_write, route_close, deliver_or_close, dispatch, stop,
  stop_on, turn, receive,
}

-- The payloads of the `A_WRTE` messages among those handed to the writer.
abbrev pub writes_add : Command → Bytes → List Bytes → List Bytes
writes_add write p ps = p ∷ ps
writes_add _ p ps = ps

unfoldable pub writes : List Message → List Bytes
writes [] = []
writes (m ∷ ms) = writes_add m.command m.payload (writes ms)

writes_add-append :
    (c : Command) (p : Bytes) (xs ys : List Bytes)
    → writes_add c p xs ++ ys ≡ writes_add c p (xs ++ ys)
writes_add-append write p xs ys = refl
writes_add-append _ p xs ys = refl

pub writes-append : (xs ys : List Message) → writes (xs ++ ys) ≡ writes xs ++ writes ys
unfolding writes
writes-append [] ys = refl
writes-append (m ∷ xs) ys =
    ap (writes_add m.command m.payload) (writes-append xs ys)
    ∙ sym (writes_add-append m.command m.payload (writes xs) (writes ys))

abbrev pub acks_of : ℕ → Shared → ℕ
acks_of a s = acks_at (get_elem? s.heap a)

-- No data is posted on the way from one state to the other, and no acknowledgement is lost.
pub record Follows (s t : Shared) : Type 0 where
  pub same_writes : writes t.outbox ≡ writes s.outbox
  pub acks_grow : (a : ℕ) → acks_of a s ≤ acks_of a t

pub Follows-refl : (s : Shared) → Follows s s
Follows-refl s = record { same_writes = refl; acks_grow = λ a. omega arith }

pub Follows-trans : {s t u : Shared} → Follows s t → Follows t u → Follows s u
Follows-trans f g = record {
  same_writes = g.same_writes ∙ f.same_writes;
  acks_grow = λ a. omega (arith, f.acks_grow a, g.acks_grow a);
}

change-Follows :
    (i : ℕ) (f : StreamState → StreamState) (s : Shared) → KeepsAcks f → Follows s (change i f s)
change-Follows i f s k = record { same_writes = refl; acks_grow = λ a. acks-modify i f s.heap a k }

ack-KeepsAcks : (r : ℕ) → KeepsAcks (ack r)
unfolding ack
ack-KeepsAcks r t = omega arith

deliver-KeepsAcks : (c : Bytes) → KeepsAcks (deliver c)
unfolding deliver
deliver-KeepsAcks c t = ground arith

post-close-Follows : (x y : ℕ) (s : Shared) → Follows s (post (empty_message close x y) s).1
unfolding post
post-close-Follows x y s =
    if_holds {A = Outcome} (λ o. Follows s o.1) s.writing
      (ok tt, record s { outbox = s.outbox ++ (empty_message close x y ∷ []) })
      (err disconnected, s)
      (λ _. record {
        same_writes =
            writes-append s.outbox (empty_message close x y ∷ [])
            ∙ unfold writes in append-nil (writes s.outbox);
        acks_grow = λ a. omega arith;
      })
      λ _. Follows-refl s

deliver_or_close-Follows :
    (msg : Message) (a : ℕ) (s : Shared) (o : Option StreamState)
    → Follows s (deliver_or_close msg a s o).1
unfolding deliver_or_close
deliver_or_close-Follows msg a s none = post-close-Follows _ _ s
deliver_or_close-Follows msg a s (some t) =
    if_holds {A = Outcome} (λ o. Follows s o.1) (delivers t)
      (ok tt, change a (deliver msg.payload) s) (post (empty_message close msg.arg1 msg.arg0) s)
      (λ _. change-Follows a (deliver msg.payload) s (deliver-KeepsAcks msg.payload))
      λ _. post-close-Follows msg.arg1 msg.arg0 s

route_okay-Follows : (r : ℕ) (o : Option ℕ) (s : Shared) → Follows s (route_okay r o s).1
unfolding route_okay
route_okay-Follows r none s = Follows-refl s
route_okay-Follows r (some a) s = change-Follows a (ack r) s (ack-KeepsAcks r)

route_write-Follows :
    (msg : Message) (o : Option ℕ) (s : Shared) → Follows s (route_write msg o s).1
unfolding route_write
route_write-Follows msg none s = post-close-Follows msg.arg1 msg.arg0 s
route_write-Follows msg (some a) s = deliver_or_close-Follows msg a s (get_elem? s.heap a)

remove-Follows : (id : ℕ) (s : Shared) → Follows s (remove id s).1
unfolding remove
remove-Follows id s = record { same_writes = refl; acks_grow = λ a. omega arith }

route_close-Follows : (r : Option ℕ × Shared) → Follows r.1 (route_close r).1
unfolding route_close
route_close-Follows (none, s) = Follows-refl s
route_close-Follows (some a, s) = change-Follows a mark_closed s mark_closed-KeepsAcks

stop-Follows : (s : Shared) → Follows s (stop s)
unfolding stop close_all
stop-Follows s = record {
  same_writes = refl;
  acks_grow = close_all-acks (record s { reading = false });
}

stop_on-Follows : (o : Outcome) → Follows o.1 (stop_on o).1
unfolding stop_on
stop_on-Follows (ok _, s) = Follows-refl s
stop_on-Follows (err e, s) = stop-Follows s

route-Follows : (k : Command) (msg : Message) (s : Shared) → Follows s (route k msg s).1
unfolding route
route-Follows okay msg s = route_okay-Follows msg.arg0 (get msg.arg1 s) s
route-Follows write msg s = route_write-Follows msg (get msg.arg1 s) s
route-Follows close msg s =
    Follows-trans (remove-Follows msg.arg1 s) (route_close-Follows (remove msg.arg1 s))
route-Follows _ msg s = Follows-refl s

turn-Follows : (r : Result Message) (s : Shared) → Follows s (turn r s).1
unfolding turn dispatch
turn-Follows (err e) s = stop-Follows s
turn-Follows (ok msg) s =
    Follows-trans (route-Follows msg.command msg s) (stop_on-Follows (route msg.command msg s))

pub receive-Follows : (r : Result Message) (s : Shared) → Follows s (receive r s)
unfolding receive
receive-Follows r s =
    if_holds (Follows s) s.reading (turn r s).1 s (λ _. turn-Follows r s) λ _. Follows-refl s
