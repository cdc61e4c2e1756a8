-- ===== src/Examples/Host.antt =====
-- src/host at a concrete server.
use rsadb.Base.{◌≡◌, refl, Bytes, ascii, List, [], ◌∷◌, ◌++◌, arith}
use rsadb.Error.{ok, err, remote_failure}
use rsadb.Text.Lossy.{from_utf8_lossy}
use rsadb.Host.Proto.{DeviceEntry}
use rsadb.Host.Proto.RoundTrip.{framed}
use rsadb.Host.Client.{TcpStream, query, open_device}
use rsadb.Host.Client.Query.{Asked, query-reply, query-fail, open_device-opens, blocks}
use rsadb.Examples.Transport.{seven_at_most, pipe}

abbrev stream : Bytes → TcpStream seven_at_most pipe
stream replies = record { reader = replies; writer = [] }

abbrev version_reply : Bytes
version_reply = ascii "OKAY" ++ (framed (ascii "0029") ++ [])

query-reply_example :
    query seven_at_most pipe (ok (stream version_reply)) (ascii "host:version")
    ≡ ok (from_utf8_lossy (ascii "0029"))
query-reply_example =
    query-reply seven_at_most pipe (stream version_reply) (ascii "host:version") (ascii "0029") []
      tt (omega arith) (omega arith) (tt, refl)

abbrev fail_reply : Bytes
fail_reply = ascii "FAIL" ++ (framed (ascii "oops!") ++ ascii "x")

query-fail_example :
    query seven_at_most pipe (ok (stream fail_reply)) (ascii "host:kill")
    ≡ err (remote_failure (from_utf8_lossy (ascii "oops!")))
query-fail_example =
    query-fail seven_at_most pipe (stream fail_reply) (ascii "host:kill") (ascii "oops!")
      (ascii "x") tt (omega arith) (omega arith) (tt, refl)

abbrev accepted : Bytes
accepted = ascii "OKAY" ++ (ascii "OKAY" ++ ascii "hello")

open_device-opens_example :
    (t : TcpStream seven_at_most pipe) × (open_device seven_at_most pipe
        (ok (stream accepted))
        (ascii "R5CT1")
        (ascii "shell:ls")
      ≡ ok t)
    × Asked seven_at_most pipe
        (stream accepted)
        t
        (framed (ascii "host:transport:R5CT1") ++ framed (ascii "shell:ls"))
        (ascii "hello")
open_device-opens_example =
    open_device-opens seven_at_most pipe (stream accepted) (ascii "R5CT1") (ascii "shell:ls")
      (ascii "hello") tt (omega arith) (omega arith) (tt, refl)

abbrev phone : DeviceEntry
phone = record { serial = ascii "R5"; state = ascii "up"; attributes = (ascii "m", ascii "9") ∷ [] }

-- The device is there, and then it is gone.
abbrev lists : List (List DeviceEntry)
lists = (phone ∷ []) ∷ [] ∷ []

abbrev tracked : Bytes
tracked = ascii "OKAY" ++ blocks seven_at_most pipe lists
