-- ===== src/Host/Channel.antt =====
-- src/host/channel.rs: the channel over the TCP stream that the server has bound to a service.
use rsadb.Base.{ℕ, ◌*◌, Bytes, Bool, true, false, if◌then◌else◌, Option, none, some, [], ◌∷◌}
use rsadb.Error.{Reason, Result, ok, err, io, unexpected_eof, ◌>>=◌}
use rsadb.Transport.Io.{IoResult, done, eof, failed, AsyncRead, AsyncWrite}
use rsadb.Transport.Framed.{from_io}
use rsadb.Host.Client.{TcpStream}

abbrev pub chunk : ℕ
chunk = 64 * 1024

module _ (R : AsyncRead) (W : AsyncWrite) where
  pub record HostChannel : Type 0 where
    pub stream : TcpStream R W
    pub closed : Bool

  abbrev pub new : TcpStream R W → HostChannel
  new stream = record { stream = stream; closed = false }

  -- `is_reset` tells the error kind `ConnectionReset`: the end of the stream.
  received :
      (Reason → Bool)
      → HostChannel
      → IoResult (Bytes × R.State)
      → Result (Option Bytes) × HostChannel
  received is_reset c (done ([], r)) =
      (ok none, record c { stream = record c.stream { reader = r } })
  received is_reset c (done (b ∷ bs, r)) =
      (ok (some (b ∷ bs)), record c { stream = record c.stream { reader = r } })
  received is_reset c eof = (err (io unexpected_eof), c)
  received is_reset c (failed e) = (if is_reset e then ok none else err (io e), c)

  unfoldable pub recv : (Reason → Bool) → HostChannel → Result (Option Bytes) × HostChannel
  unfolding received
  recv is_reset c = received is_reset c (R.read chunk c.stream.reader)

  unfoldable pub send : Bytes → HostChannel → Result HostChannel
  send bytes c = do
    w ← from_io (W.write_all bytes c.stream.writer)
    w' ← from_io (W.flush w)
    ok (record c { stream = record c.stream { writer = w' } })

  -- `shutdown` is the stream's, whose failure does not count.
  unfoldable pub close : (TcpStream R W → TcpStream R W) → HostChannel → HostChannel
  close shutdown c = if c.closed then c else record { stream = shutdown c.stream; closed = true }
