-- ===== src/Session/Registry.antt =====
-- src/session/registry.rs: the streams of one session.
-- A `StreamState` is shared by the registry and the owner of the stream: it lives in a heap, and both
-- hold its address. The runtime's channels are first-in-first-out queues: `queue` holds the payloads
-- that the owner has not taken, `outbox` what the writer task has been given.
pub mod Laws
use rsadb.Base.{
  ℕ, zero, suc, ◌+◌, ◌%◌, ◌^◌, Bytes, Bool, true, false, not, ◌&&◌, ◌==◌, ltb, if◌then◌else◌,
  Option, none, some, get_elem?, modify, length, List, [], ◌∷◌, ◌++◌,
}
use rsadb.Wire.Message.{Message}

pub record StreamState : Type 0 where
  pub local_id : ℕ
  -- Zero until the first `A_OKAY` arrives.
  pub remote_id : ℕ
  pub closed : Bool
  pub acks : ℕ
  -- `data_tx` is still there.
  pub sending : Bool
  pub queue : List Bytes
  -- The owner still holds the receiver.
  pub listening : Bool

pub record Registry : Type 0 where
  pub streams : List (ℕ × ℕ)
  pub next_id : ℕ

pub record Shared : Type 0 where
  pub heap : List StreamState
  pub registry : Registry
  pub outbox : List Message
  -- The writer task still takes messages.
  pub writing : Bool
  -- The reader task still runs.
  pub reading : Bool

abbrev pub fresh_stream : ℕ → StreamState
fresh_stream id = record {
  local_id = id;
  remote_id = 0;
  closed = false;
  acks = 0;
  sending = true;
  queue = [];
  listening = true;
}

abbrev pub new : Shared
new = record {
  heap = [];
  registry = record { streams = []; next_id = 1 };
  outbox = [];
  writing = true;
  reading = true;
}

-- `fetch_add(1)` on an `AtomicU32`.
abbrev pub next : ℕ → ℕ
next id = (id + 1) % 2 ^ 32

-- The id that `register` takes, and the counter behind it.
pub take_id : ℕ → ℕ × ℕ
take_id id = if id == 0 then (next id, next (next id)) else (id, next id)

unfoldable pub lookup : ℕ → List (ℕ × ℕ) → Option ℕ
lookup id [] = none
lookup id ((j, a) ∷ m) = if j == id then some a else lookup id m

pub delete : ℕ → List (ℕ × ℕ) → List (ℕ × ℕ)
delete id [] = []
delete id ((j, a) ∷ m) = let rest = delete id m in if j == id then rest else (j, a) ∷ rest

-- The address of the new stream, and the state.
unfoldable pub register : Shared → ℕ × Shared
unfolding take_id delete
register s =
    let (id, counter) = take_id s.registry.next_id in
    (
      length s.heap,
      record s {
        heap = s.heap ++ (fresh_stream id ∷ []);
        registry = record {
          streams = (id, length s.heap) ∷ delete id s.registry.streams;
          next_id = counter;
        };
      },
    )

unfoldable pub get : ℕ → Shared → Option ℕ
unfolding lookup
get id s = lookup id s.registry.streams

unfoldable pub remove : ℕ → Shared → Option ℕ × Shared
unfolding lookup delete
remove id s = (
  lookup id s.registry.streams,
  record s { registry = record s.registry { streams = delete id s.registry.streams } },
)

abbrev pub change : ℕ → (StreamState → StreamState) → Shared → Shared
change a f s = record s { heap = modify a f s.heap }

unfoldable pub remote : StreamState → Option ℕ
remote t = if t.remote_id == 0 then none else some t.remote_id

-- An `A_OKAY`: the first non-zero id is adopted.
unfoldable pub ack : ℕ → StreamState → StreamState
ack remote_id t = record t {
  remote_id = if t.remote_id == 0 then remote_id else t.remote_id;
  acks = t.acks + 1;
}

abbrev pub acks_at : Option StreamState → ℕ
acks_at none = 0
acks_at (some t) = t.acks

-- Whether somebody listens.
abbrev pub delivers : StreamState → Bool
delivers t = t.sending && t.listening

unfoldable pub deliver : Bytes → StreamState → StreamState
deliver payload t = if delivers t then record t { queue = t.queue ++ (payload ∷ []) } else t

unfoldable pub mark_closed : StreamState → StreamState
mark_closed t = record t { closed = true; sending = false }

close_streams : List (ℕ × ℕ) → List StreamState → List StreamState
close_streams [] h = h
close_streams ((id, a) ∷ m) h = close_streams m (modify a mark_closed h)

unfoldable pub close_all : Shared → Shared
unfolding close_streams mark_closed
close_all s = record s {
  heap = close_streams s.registry.streams s.heap;
  registry = record s.registry { streams = [] };
}
