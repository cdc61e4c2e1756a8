-- ===== src/Session/Reader/Routes.antt =====
-- What each message of the device does to the session, by src/session/reader.rs.
use rsadb.Base.{
  ℕ, ◌≡◌, refl, sym, ap, ◌∙◌, true, false, ◌==◌, if◌then◌else◌, Option, none, some, get_elem?,
  get_elem?-modify_self, get_elem?-modify_ne, modify, if_holds, All, Bool-cases, inl, inr, List, [],
  ◌∷◌, append-nil, arith,
}
use rsadb.Error.{ok}
use rsadb.Wire.Command.{Command, sync, connect, auth, open_stream, okay, close, write, start_tls}
use rsadb.Wire.Message.{Message, empty_message}
use rsadb.Session.Registry.{
  StreamState, Shared, get, lookup, remove, ack, deliver, delivers, mark_closed, close_all,
}
use rsadb.Session.Registry.Laws.{IsConsistent, Holds, close_all-IsShut, lookup-delete}
use rsadb.Session.Reader.Laws.{receive-IsConsistent}
use rsadb.Session.Reader.{
  post, route, route_okay, route_write, route_close, deliver_or_close, dispatch, stop, stop_on,
  turn, receive,
}
use rsadb.Session.Reader.Routed.{Puts, Goes, IsOver, Stream, Answered, Delivered, Routed}

lookup-All :
    (P : ℕ × ℕ → Type 0) (id a : ℕ) (m : List (ℕ × ℕ)) → All P m → lookup id m ≡ some a → P (id, a)
unfolding lookup
lookup-All P id a [] x h = cc
lookup-All P id a ((j, b) ∷ m) (x, xs) h = elim (Bool-cases (j == id)) [
  | inl e ↦
      let there : j ≡ id = ground (arith, e) in
      let same : some b ≡ some a = rw e at h in
      let address : b ≡ a = cc in rw (← there, ← address) x
  | inr e ↦ lookup-All P id a m xs (rw e at h)
]

get-Stream :
    (s : Shared) (id a : ℕ)
    → IsConsistent s
    → get id s ≡ some a
    → (u : StreamState) × Stream s id a u
unfolding get
get-Stream s id a c h =
    let (u, here, same, _, _) = lookup-All (Holds s.heap) id a s.registry.streams c.entries h in
    (u, (here, same))

Puts-modify :
    (a : ℕ) (f : StreamState → StreamState) (h : List StreamState) (u : StreamState)
    → get_elem? h a ≡ some u
    → Puts h (modify a f h) a (f u)
Puts-modify a f h u here b = elim (Bool-cases (a == b)) [
  | inl e ↦
      let same : a ≡ b = ground (arith, e) in rw (e, ← same) (get_elem?-modify_self a f h here)
  | inr e ↦ rw e (get_elem?-modify_ne a b f h (λ same. ground (arith, e, same)))
]

module _ (msg : Message) (s : Shared) (c : IsConsistent s) where
  goes : s.reading ≡ true → (h : List StreamState) → Goes s (record s { heap = h }) []
  goes on h = record { outbox = sym (append-nil s.outbox); reading = on; writing = refl }

  post-Answered :
      s.writing ≡ true → Answered msg s (stop_on (post (empty_message close msg.arg1 msg.arg0) s)).1
  unfolding post stop_on
  post-Answered may = rw may refl

  route_okay-Routed :
      s.reading ≡ true
      → (o : Option ℕ) → get msg.arg1 s ≡ o
      → Routed okay msg s (stop_on (route_okay msg.arg0 o s)).1 o
  unfolding route_okay stop_on ack
  route_okay-Routed on none h = refl
  route_okay-Routed on (some a) h =
      let (u, found) = get-Stream s msg.arg1 a c h in
      (
        u,
        found,
        Puts-modify a (ack msg.arg0) s.heap u found.0,
        refl,
        goes on (modify a (ack msg.arg0) s.heap),
      )

  deliver-Delivered :
      s.reading ≡ true
      → s.writing ≡ true
      → (a : ℕ) (u : StreamState) → get_elem? s.heap a ≡ some u
      → Delivered msg s (stop_on (deliver_or_close msg a s (some u))).1 a u (delivers u)
  unfolding deliver_or_close stop_on
  deliver-Delivered on may a u here = elim (Bool-cases (delivers u)) [
    | inl e ↦ rw e (
      (λ b.
          Puts-modify a (deliver msg.payload) s.heap u here b
          ∙ ap (λ x. if a == b then some x else get_elem? s.heap b) (unfold deliver in rw e refl)),
      refl,
      goes on (modify a (deliver msg.payload) s.heap),
    )
    | inr e ↦ rw e (post-Answered may)
  ]

  route_write-Routed :
      s.reading ≡ true
      → s.writing ≡ true
      → (o : Option ℕ) → get msg.arg1 s ≡ o
      → Routed write msg s (stop_on (route_write msg o s)).1 o
  unfolding route_write
  route_write-Routed on may none h = post-Answered may
  route_write-Routed on may (some a) h =
      let (u, found) = get-Stream s msg.arg1 a c h in
      (u, found, rw found.0 (deliver-Delivered on may a u found.0))

  route_close-Routed :
      s.reading ≡ true
      → (o : Option ℕ) → get msg.arg1 s ≡ o
      → Routed close msg s (stop_on (route_close (o, (remove msg.arg1 s).1))).1 o
  unfolding route_close stop_on remove get mark_closed
  route_close-Routed on none h = (
    refl,
    (λ k. lookup-delete msg.arg1 k s.registry.streams),
    record { outbox = sym (append-nil s.outbox); reading = on; writing = refl },
  )
  route_close-Routed on (some a) h =
      let (u, found) = get-Stream s msg.arg1 a c h in
      (
        u,
        found,
        Puts-modify a mark_closed s.heap u found.0,
        (λ k. lookup-delete msg.arg1 k s.registry.streams),
        record { outbox = sym (append-nil s.outbox); reading = on; writing = refl },
      )

  stop-IsOver : IsOver s (stop s)
  unfolding stop close_all
  stop-IsOver =
      let (shut, empty) =
        close_all-IsShut (record s { reading = false })
          (record { entries = c.entries; distinct = c.distinct; counter = c.counter }) in
      record { shut = shut; empty = empty; stopped = refl; outbox = refl }

  route-Routed :
      s.reading ≡ true
      → s.writing ≡ true
      → (k : Command) → Routed k msg s (stop_on (route k msg s)).1 (get msg.arg1 s)
  unfolding route stop_on
  route-Routed on may okay = route_okay-Routed on (get msg.arg1 s) refl
  route-Routed on may write = route_write-Routed on may (get msg.arg1 s) refl
  route-Routed on may close = unfold remove get in route_close-Routed on (get msg.arg1 s) refl
  route-Routed on may sync = refl
  route-Routed on may connect = refl
  route-Routed on may auth = refl
  route-Routed on may start_tls = stop-IsOver
  route-Routed on may open_stream = stop-IsOver

  turn-Routed :
      s.reading ≡ true
      → s.writing ≡ true
      → Routed msg.command msg s (turn (ok msg) s).1 (get msg.arg1 s)
  unfolding turn dispatch
  turn-Routed on may = route-Routed on may msg.command

  -- While the reader and the writer of a consistent session run: an `A_OKAY` adds an acknowledgement to
  -- the stream of its second argument, and gives it the device's id if it has none; an `A_WRTE` puts
  -- its payload behind the others of its stream, or is answered by an `A_CLSE` where nobody listens or
  -- the id is unknown; an `A_CLSE` closes its stream and takes the id out of the registry; an `A_OPEN`
  -- or an `A_STLS` ends the session and closes every stream of the registry; the other commands do
  -- nothing. While the session goes on, no other stream and no other id is touched. Nothing else is
  -- sent, and the registry stays consistent.
  pub receive-Routed :
      s.reading ≡ true
      → s.writing ≡ true
      → Routed msg.command msg s (receive (ok msg) s) (get msg.arg1 s)
        × IsConsistent (receive (ok msg) s)
  unfolding receive
  receive-Routed on may = (
    if_holds (λ t. Routed msg.command msg s t (get msg.arg1 s)) s.reading (turn (ok msg) s).1 s
        (λ _. turn-Routed on may) (λ off. cc),
    receive-IsConsistent (ok msg) s c,
  )
