-- ===== src/Session/Reader/Routed.antt =====
-- An independent description of what each message of the device does to the session, beside the
-- code of src/session/reader.rs.
use rsadb.Base.{
  ℕ, ◌+◌, ◌≡◌, true, false, Bool, ◌&&◌, ◌==◌, if◌then◌else◌, Option, none, some, get_elem?, All,
  List, [], ◌∷◌, ◌++◌,
}
use rsadb.Wire.Command.{Command, sync, connect, auth, open_stream, okay, close, write, start_tls}
use rsadb.Wire.Message.{Message, message}
use rsadb.Session.Registry.{StreamState, Shared, get}
use rsadb.Session.Registry.Laws.{IsShut}

-- The heap `h` with `u` at an address.
abbrev pub Puts : List StreamState → List StreamState → ℕ → StreamState → Type 0
Puts h later a u = (b : ℕ) → get_elem? later b ≡ (if a == b then some u else get_elem? h b)

-- The session goes on with streams `h`, and the messages handed to the writer are `sent`.
pub record Goes (s t : Shared) (sent : List Message) : Type 0 where
  pub outbox : t.outbox ≡ s.outbox ++ sent
  pub reading : t.reading ≡ true
  pub writing : t.writing ≡ s.writing

-- The session is over, and all of its streams are closed.
pub record IsOver (s t : Shared) : Type 0 where
  pub shut : All (λ p. IsShut t.heap p.1) s.registry.streams
  pub empty : t.registry.streams ≡ []
  pub stopped : t.reading ≡ false
  pub outbox : t.outbox ≡ s.outbox

-- The stream of an id, at the address `a`.
abbrev pub Stream : Shared → ℕ → ℕ → StreamState → Type 0
Stream s id a u = (get_elem? s.heap a ≡ some u) × (u.local_id ≡ id)

-- The device is told that the stream it writes to is closed.
abbrev pub Answered : Message → Shared → Shared → Type 0
Answered msg s t = t ≡ record s { outbox = s.outbox ++ (message close msg.arg1 msg.arg0 [] ∷ []) }

-- The payload goes to the end of the stream's queue where somebody listens.
abbrev pub Delivered : Message → Shared → Shared → ℕ → StreamState → Bool → Type 0
Delivered msg s t a u true =
    Puts s.heap t.heap a (record u { queue = u.queue ++ (msg.payload ∷ []) })
    × (t.registry ≡ s.registry)
    × Goes s t []
Delivered msg s t a u false = Answered msg s t

-- What a message does to a session, where the registry has that for its second argument.
abbrev pub Routed : Command → Message → Shared → Shared → Option ℕ → Type 0
Routed okay msg s t none = t ≡ s
Routed okay msg s t (some a) =
    (u : StreamState) × Stream s msg.arg1 a u
    × Puts s.heap t.heap a (record u {
      remote_id = if u.remote_id == 0 then msg.arg0 else u.remote_id;
      acks = u.acks + 1;
    })
    × (t.registry ≡ s.registry)
    × Goes s t []
Routed write msg s t none = Answered msg s t
Routed write msg s t (some a) =
    (u : StreamState) × Stream s msg.arg1 a u × Delivered msg s t a u (u.sending && u.listening)
Routed close msg s t none =
    (t.heap ≡ s.heap)
    × ((k : ℕ) → get k t ≡ (if msg.arg1 == k then none else get k s))
    × Goes s t []
Routed close msg s t (some a) =
    (u : StreamState) × Stream s msg.arg1 a u
    × Puts s.heap t.heap a (record u { closed = true; sending = false })
    × ((k : ℕ) → get k t ≡ (if msg.arg1 == k then none else get k s))
    × Goes s t []
Routed sync msg s t o = t ≡ s
Routed connect msg s t o = t ≡ s
Routed auth msg s t o = t ≡ s
Routed start_tls msg s t o = IsOver s t
Routed open_stream msg s t o = IsOver s t
