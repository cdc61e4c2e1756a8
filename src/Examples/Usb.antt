-- ===== src/Examples/Usb.antt =====
-- src/transport/usb/io.rs at a concrete endpoint.
use rsadb.Base.{ascii, refl, [], ◌∷◌, arith}
use rsadb.Transport.Config.{initial}
use rsadb.Transport.Usb.{UsbSource, transferred, unplugged, read_exact}
use rsadb.Transport.Usb.Chunks.{Reads, read_exact-Reads}

abbrev endpoint : UsbSource
endpoint = record {
  config = initial;
  max_packet_size = 512;
  requested = [];
  completions =
      transferred (ascii "he")
      ∷ transferred (ascii "l")
      ∷ transferred (ascii "lo")
      ∷ unplugged
      ∷ [];
}

read_exact-Reads_example : Reads (read_exact 5 endpoint) (ascii "hello") (unplugged ∷ [])
read_exact-Reads_example =
    read_exact-Reads (ascii "he") (ascii "l" ∷ ascii "lo" ∷ []) (unplugged ∷ []) endpoint
      (omega arith, (omega arith, tt)) refl
