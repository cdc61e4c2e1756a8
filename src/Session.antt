-- ===== src/Session.antt =====
-- A direct session with `adbd` (src/session): the handshake, then multiplexed streams.
pub mod Banner
pub mod Handshake
pub mod Registry
pub mod Reader
pub mod Stream
use rsadb.Base.{Bytes, Bool, true, false, ◌&&◌, List}
use rsadb.Session.Handshake.{Negotiated}
use rsadb.Session.Registry.{Shared, new, close_all}

-- A session: what the handshake agreed on, and what its tasks and streams share. The tasks are the
-- read loop and the write loop of Reader.
pub record Session : Type 0 where
  pub negotiated : Negotiated
  pub shared : Shared

unfoldable pub start : Negotiated → Session
start negotiated = record { negotiated = negotiated; shared = new }

unfoldable pub is_alive : Session → Bool
is_alive s = s.shared.reading && s.shared.writing

-- `close`; dropping the session does the same.
unfoldable pub close : Session → Session
close s = record s { shared = record (close_all s.shared) { reading = false; writing = false } }

unfoldable pub features : Session → List Bytes
features s = s.negotiated.banner.features
