-- ===== src/Host/Client/Query.antt =====
-- Whole requests of src/host/mod.rs, on a server that answers.
use rsadb.Base.{◌≤◌, ◌≡◌, refl, ap, ◌∙◌, Bytes, ascii, length, append_assoc, List, [], ◌∷◌, ◌++◌}
use rsadb.Error.{ok, err, remote_failure}
use rsadb.Text.Lossy.{from_utf8_lossy}
use rsadb.Transport.Io.{AsyncRead, AsyncWrite}
use rsadb.Host.Proto.{DeviceEntry}
use rsadb.Host.Proto.Devices.{print_devices}
use rsadb.Host.Proto.RoundTrip.{
  framed, Before, send_request_lem, read_block-framed, status_okay, status_fail,
}
use rsadb.Host.Client.{
  TcpStream, request_status, block_text, query, refused, open_service, open_device,
}

module _ (R : AsyncRead) (W : AsyncWrite) where
  -- The stream has taken a request, and stands before `rest`.
  abbrev pub Asked : TcpStream R W → TcpStream R W → Bytes → Bytes → Type 0
  Asked s t sent rest =
      (W.written t.writer ≡ W.written s.writer ++ sent)
      × W.IsHealthy t.writer
      × Before R t.reader rest

  request_okay :
      (s : TcpStream R W) (request rest : Bytes)
      → W.IsHealthy s.writer
      → length request ≤ 0xFFFF
      → Before R s.reader (ascii "OKAY" ++ rest)
      → (t : TcpStream R W) × (request_status R W request s ≡ ok t)
        × Asked s t (framed request) rest
  unfolding request_status
  request_okay s request rest healthy fits before =
      let (w, sent, written, hw) = send_request_lem W s.writer request healthy fits in
      let (r, okay, after) = status_okay R s.reader rest before in
      (record { reader = r; writer = w }, rw (sent, okay) refl, (written, hw, after))

  -- A query whose request and reply are of up to 65535 bytes gives the text of the reply, on a
  -- stream that works and a server that answers `OKAY`.
  pub query-reply :
      (s : TcpStream R W) (request text rest : Bytes)
      → W.IsHealthy s.writer
      → length request ≤ 0xFFFF
      → length text ≤ 0xFFFF
      → Before R s.reader (ascii "OKAY" ++ (framed text ++ rest))
      → query R W (ok s) request ≡ ok (from_utf8_lossy text)
  unfolding query block_text
  query-reply s request text rest healthy fits short before =
      let (t, asked, (_, _, mid)) =
        request_okay s request (framed text ++ rest) healthy fits before in
      let (r, got, _) = read_block-framed R t.reader text rest short mid in rw (asked, got) refl

  -- Where the server answers a query with `FAIL` and a message, the query fails with the message. The
  -- request and the message are of up to 65535 bytes, and the stream works.
  pub query-fail :
      (s : TcpStream R W) (request message rest : Bytes)
      → W.IsHealthy s.writer
      → length request ≤ 0xFFFF
      → length message ≤ 0xFFFF
      → Before R s.reader (ascii "FAIL" ++ (framed message ++ rest))
      → query R W (ok s) request ≡ err (remote_failure (from_utf8_lossy message))
  unfolding query request_status
  query-fail s request message rest healthy fits short before =
      let (w, sent, _, _) = send_request_lem W s.writer request healthy fits in
      rw (sent, status_fail R s.reader message rest short before) refl

  -- Opening a service on a device, with requests of up to 65535 bytes on a stream that works: where
  -- the server answers both with `OKAY`, the opening succeeds, exactly the two requests are written,
  -- the device first, and the stream stands behind the second `OKAY`.
  pub open_device-opens :
      (s : TcpStream R W) (serial service rest : Bytes)
      → W.IsHealthy s.writer
      → length (ascii "host:transport:" ++ serial) ≤ 0xFFFF
      → length service ≤ 0xFFFF
      → Before R s.reader (ascii "OKAY" ++ (ascii "OKAY" ++ rest))
      → (t : TcpStream R W) × (open_device R W (ok s) serial service ≡ ok t)
        × Asked s t (framed (ascii "host:transport:" ++ serial) ++ framed service) rest
  unfolding open_device open_service refused
  open_device-opens s serial service rest healthy fits short before =
      let (t, asked, (written, hw, mid)) =
        request_okay s (ascii "host:transport:" ++ serial) (ascii "OKAY" ++ rest) healthy fits
          before in
      let (w, sent, more, hw') = send_request_lem W t.writer service hw short in
      let (r, okay, after) = status_okay R t.reader rest mid in
      (
        record { reader = r; writer = w },
        rw (asked, sent, okay) refl,
        (
          more
              ∙ ap (λ x. x ++ framed service) written
              ∙ append_assoc (W.written s.writer) (framed (ascii "host:transport:" ++ serial))
                  (framed service),
          hw',
          after,
        ),
      )

  -- What the server sends of the lists, a block for each.
  abbrev pub blocks : List (List DeviceEntry) → Bytes
  blocks [] = []
  blocks (ds ∷ rest) = framed (print_devices ds) ++ blocks rest
