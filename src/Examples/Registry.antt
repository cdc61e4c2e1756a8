-- ===== src/Examples/Registry.antt =====
-- src/session/registry.rs, reader.rs and stream.rs at a concrete session.
use rsadb.Base.{◌≡◌, ◌≢◌, refl, ascii, none, some, get_elem?, All, [], ◌∷◌, arith, true, false}
use rsadb.Error.{ok}
use rsadb.Wire.Command.{Command}
use rsadb.Wire.Message.{Message, message, empty_message}
use rsadb.Session.Registry.{StreamState, Shared, register, get, close_all, lookup, remote}
use rsadb.Session.Registry.Laws.{IsConsistent, register-IsConsistent, IsShut, close_all-IsShut}
use rsadb.Session.Reader.{receive}
use rsadb.Session.Reader.Routed.{Routed}
use rsadb.Session.Reader.Routes.{receive-Routed}
use rsadb.Session.Stream.{Arrivals, close_now, send}
use rsadb.Session.Stream.Close.{close_now_open}
use rsadb.Session.Stream.Flow.{Sends, send-Sends}

abbrev shell_stream : StreamState
shell_stream = record {
  local_id = 1;
  remote_id = 7;
  closed = false;
  acks = 1;
  sending = true;
  queue = [];
  listening = true;
}

abbrev session : Shared
session = record {
  heap = shell_stream ∷ [];
  registry = record { streams = (1, 0) ∷ []; next_id = 0 };
  outbox = [];
  writing = true;
  reading = true;
}

session-IsConsistent : IsConsistent session
unfolding lookup
session-IsConsistent = record {
  entries = ((shell_stream, refl, refl, (λ h. omega arith), omega arith), tt);
  distinct = (refl, tt);
  counter = omega arith;
}

-- The counter has just wrapped: the new stream gets the id 1 again, in the place of the old one.
register-IsConsistent_example :
    IsConsistent (register session).1
    × (t : StreamState) × (get_elem? (register session).1.heap (register session).0 ≡ some t)
    × (t.local_id ≢ 0)
    × (get t.local_id (register session).1 ≡ some (register session).0)
register-IsConsistent_example = register-IsConsistent session session-IsConsistent

close_all-IsShut_example :
    All (λ p. IsShut (close_all session).heap p.1) session.registry.streams
    × ((close_all session).registry.streams ≡ [])
close_all-IsShut_example = close_all-IsShut session session-IsConsistent

abbrev said_hi : Message
said_hi = message Command.write 7 1 (ascii "hi")

receive-Routed_example :
    Routed Command.write said_hi session (receive (ok said_hi) session) (get 1 session)
    × IsConsistent (receive (ok said_hi) session)
receive-Routed_example = receive-Routed said_hi session session-IsConsistent refl refl

close_now_open_example :
    IsShut (close_now 0 session).heap 0
    × (get 1 (close_now 0 session) ≡ none)
    × ((close_now 0 session).outbox ≡ empty_message Command.close 1 7 ∷ [])
unfolding remote
close_now_open_example = close_now_open 0 session shell_stream refl refl refl

abbrev one_okay : Arrivals
one_okay = ok (empty_message Command.okay 7 1) ∷ []

send-Sends_example : Sends 4 0 (ascii "ls -l") session (send 5 4 0 (ascii "ls -l") one_okay session)
send-Sends_example = send-Sends 5 4 0 (ascii "ls -l") one_okay session (omega arith) (omega arith)
