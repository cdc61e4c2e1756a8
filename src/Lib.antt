-- ===== src/Lib.antt =====
-- rsadb is a client for Android's debug bridge. A `Session` speaks the wire protocol with `adbd` over
-- a transport: 24-byte headers with payloads, a handshake with authentication, and then many streams
-- that share the transport. A reader task dispatches what arrives to the streams; their owners post
-- messages to a writer task and wait for acknowledgements. The services use a stream as a channel.
-- Behind a running adb server, a TCP stream for each service takes the place of the session. A
-- `Device` calls the services over either; USB discovery finds the devices and follows their coming
-- and going.
--
-- The files, with the code they model:
--   Base, Text           helpers; what the source uses of Rust's strings, byte strings and maps
--   Error                src/error.rs
--   Wire                 src/wire: Command (command.rs), Message (mod.rs), Codec (codec.rs)
--   Transport            src/transport: Config (mod.rs), Framed (framed.rs); Io states what framed.rs
--                        relies on of tokio's byte streams; Usb (usb/io.rs), with Usb/Discovery
--                        (usb/mod.rs) over Usb/Nusb, which states what is used of the crate
--                        `nusb`; Tcp (tcp.rs)
--   Auth                 src/auth: what the handshake calls of mod.rs; Pubkey (pubkey.rs) over Rsa,
--                        which states what is used of `num-bigint`, `rsa` and `base64`; Keyfile
--                        (keyfile.rs, and the keys of mod.rs)
--   Session              src/session: Banner, Handshake, Registry, Reader, Stream, which has also
--                        `open_stream` of mod.rs; Session itself has the start and the close
--   Channel              src/channel.rs
--   Services             src/services: ShellV2 (shell_v2.rs), Shell (shell.rs), Sync (sync),
--                        Props (props.rs), Content (content.rs); Services itself has the reboot
--                        of mod.rs
--   Host                 src/host: Proto (proto.rs), Client (mod.rs), Channel (channel.rs)
--   Track                src/track.rs
--   Device               src/device/mod.rs, and Files (files.rs)
--   Examples             the theorems at concrete inputs
--
-- An operation has the name that it has in the source. Code that changes state is a function from the
-- old state to the result and the new one; errors are values of `Result`, and the text of an error is
-- a constructor of `Reason` with the values that the text shows. Strings are the bytes of their
-- UTF-8 encoding. The handshake is a function of the messages, failures and lapses that the transport
-- gives. A `StreamState`, which the registry and an owner share, lives on a heap, and both hold its
-- address; the runtime's channels are first-in-first-out lists. A channel of a service is what its
-- later calls give.
--
-- Numbers are natural numbers; the counter of stream ids, checksums and the layouts of u32, u64 and
-- i64 keep the wrap-around of the machine. Loops recurse on the list that they read, or on fuel: the
-- `send` of a stream takes fuel for each byte, the parser of shell frames and the loops of the sync
-- client take fuel for each byte that is there or to come, and each round uses up a byte at least.
--
-- Parameters are the byte streams under the framing, the big integers, keys and texts of the crates
-- that `Auth` uses, the USB library, the connection of a TCP stream, the `open` and the features of a
-- connection, and local files. A USB endpoint is the completions of its transfers. The payload limit
-- of a stream is an argument. The enumerations and the events that a device tracker gets are lists,
-- and so are the polls of the server's tracking stream: the streams are followed as far as these go.
-- A `HashMap` keeps the order of its insertions, where the standard library promises none.
--
-- Not modelled: while an owner waits, what other owners do meanwhile (only the reader task acts then);
-- some accessors of a session; the modes of key files; the pause between two polls; the length of a
-- wait in the handshake, where a lapse of `auth_wait` is an input, so that the model does not show
-- that each message starts the wait again; the wrap-around of the 64-bit counter of a stream's
-- acknowledgements; the command line, which parses arguments and prints. The random numbers that a
-- new key draws are an argument.
pub mod Base
pub mod Error
pub mod Wire
pub mod Transport
pub mod Text
pub mod Auth
pub mod Session
pub mod Channel
pub mod Services
pub mod Host
pub mod Track
pub mod Device
pub mod Examples
