-- ===== src/Host/Client.antt =====
-- src/host/mod.rs: the requests of a client, and a device behind the server.
-- `connect` is the connection of the TCP stream, with `TCP_NODELAY` set: each request has its own.
pub mod Query
use rsadb.Base.{
  ℕ, zero, suc, ◌-◌, ◌^◌, Bytes, ascii, bytes_eq, Bool, true, false, if◌then◌else◌, Option, none,
  some, length, List, [], ◌∷◌, ◌++◌,
}
use rsadb.Error.{
  Result, ok, err, Error, disconnected, parse, no_device, service_refused, remote_failure,
  bad_version, ◌>>=◌, ok_or,
}
use rsadb.Text.{split, non_empty}
use rsadb.Text.Decimal.{decimal}
use rsadb.Text.White.{trim}
use rsadb.Transport.Io.{AsyncRead, AsyncWrite}
use rsadb.Host.Proto.{DeviceEntry, from_hex, send_request, read_block, read_status, parse_devices}

abbrev pub u32_max : ℕ
u32_max = 2 ^ 32 - 1

trim_all : List Bytes → List Bytes
trim_all [] = []
trim_all (f ∷ fs) = trim f ∷ trim_all fs

unfoldable pub split_features : Bytes → List Bytes
unfolding trim_all
split_features text = non_empty (trim_all (split b',' text))

-- `devices.retain(|d| d.state == "device")`
unfoldable pub online : List DeviceEntry → List DeviceEntry
online [] = []
online (d ∷ ds) =
    let rest = online ds in if bytes_eq d.state (ascii "device") then d ∷ rest else rest

-- The serial of the only one.
pub single : List DeviceEntry → Result Bytes
single (d ∷ []) = ok d.serial
single [] = err (no_device (some (ascii "adb server lists no online device")))
single (d ∷ e ∷ ds) = err (
    no_device (
      some (
        ascii "adb server lists "
        ++ (decimal (length (d ∷ e ∷ ds)) ++ ascii " devices, pass a serial"))))

-- The two halves of a stream.
pub record TcpStream (R : AsyncRead) (W : AsyncWrite) : Type 0 where
  pub reader : R.State
  pub writer : W.State

module _ (R : AsyncRead) (W : AsyncWrite) where
  -- A request and its status.
  unfoldable pub request_status : Bytes → TcpStream R W → Result (TcpStream R W)
  request_status request s = do
    w ← send_request W s.writer request
    r ← read_status R s.reader
    ok (record { reader = r; writer = w })

  block_text : Bytes × R.State → Result Bytes
  block_text (text, _) = ok text

  module _ (connect : Result (TcpStream R W)) where
    unfoldable pub query : Bytes → Result Bytes
    unfolding block_text
    query request = do
      stream ← connect
      s ← request_status request stream
      read_block R s.reader >>= block_text

    version_of : Bytes → Result ℕ
    version_of hex = ok_or (from_hex u32_max (trim hex)) (parse (bad_version hex))

    unfoldable pub version : Result ℕ
    unfolding version_of
    version = query (ascii "host:version") >>= version_of

    unfoldable pub devices : Result (List DeviceEntry)
    devices = query (ascii "host:devices-l") >>= λ text. ok (parse_devices text)

    unfoldable pub host_features : Result (List Bytes)
    host_features = query (ascii "host:features") >>= λ text. ok (split_features text)

    unfoldable pub only_device : Result Bytes
    unfolding single
    only_device = devices >>= λ ds. single (online ds)

    -- The features of the device with a serial.
    unfoldable pub device_features : Bytes → Result (List Bytes)
    device_features serial =
        query (ascii "host-serial:" ++ (serial ++ ascii ":features")) >>= λ text.
        ok (split_features text)

    -- The failure of the second status: the server has refused the service.
    pub refused : Bytes → Result (TcpStream R W) → Result (TcpStream R W)
    refused service (ok s) = ok s
    refused service (err (remote_failure _)) = err (service_refused service)
    refused service (err e) = err e

    open_service : Bytes → TcpStream R W → Result (TcpStream R W)
    unfolding refused
    open_service service s = do
      w ← send_request W s.writer service
      refused service (read_status R s.reader >>= λ r. ok (record { reader = r; writer = w }))

    -- `HostDevice::open`
    unfoldable pub open_device : Bytes → Bytes → Result (TcpStream R W)
    unfolding open_service
    open_device serial service = do
      stream ← connect
      s ← request_status (ascii "host:transport:" ++ serial) stream
      open_service service s

  -- The items of `track_devices` behind the status, for so many polls: a disconnection ends the
  -- stream, any other failure is its last item.
  snapshot :
      (R.State → List (Result (List DeviceEntry)))
      → Result (Bytes × R.State)
      → List (Result (List DeviceEntry))
  snapshot go (ok (text, r)) = ok (parse_devices text) ∷ go r
  snapshot go (err disconnected) = []
  snapshot go (err e) = err e ∷ []

  pub snapshots : ℕ → R.State → List (Result (List DeviceEntry))
  unfolding snapshot
  snapshots zero r = []
  snapshots (suc polls) r = snapshot (snapshots polls) (read_block R r)

  -- The connection behind the status, and the items that are read from it.
  unfoldable pub track_devices :
      Result (TcpStream R W) → ℕ → Result (TcpStream R W × List (Result (List DeviceEntry)))
  unfolding snapshots
  track_devices connect polls = do
    stream ← connect
    s ← request_status (ascii "host:track-devices") stream
    ok (s, snapshots polls s.reader)
