-- ===== src/Services/Sync/Client/Start.antt =====
-- What the requests of src/services/sync/mod.rs send.
use rsadb.Base.{
  ◌≡◌, ◌<◌, ◌^◌, Bytes, if◌then◌else◌, Bool-cases, inl, inr, lt→ltb, length, u32_le, [], ◌++◌,
}
use rsadb.Error.{ok}
use rsadb.Channel.{ChannelReader, bind_result, lift, send}
use rsadb.Channel.Sending.{Puts, send-Puts, bind-Puts}
use rsadb.Services.Sync.Codec.{request, word, id_recv, id_rcv2}
use rsadb.Services.Sync.Client.{SyncFeatures, start_pull, pull_v1, pull_v2}

pub request_fits :
    (id path : Bytes)
    → length path < 2 ^ 32
    → request id path ≡ ok (id ++ (u32_le (length path) ++ path))
unfolding request
request_fits id path h = rw (lt→ltb (length path) (2 ^ 32) h)

-- An id, the length of a path, and the path.
abbrev pub asked : Bytes → Bytes → Bytes
asked id path = id ++ (u32_le (length path) ++ path)

pub request-Puts :
    (id path : Bytes) (r : ChannelReader)
    → length path < 2 ^ 32
    → r.channel.outcomes ≡ []
    → Puts (asked id path) r (bind_result send (lift (request id path) r))
request-Puts id path r short quiet =
    rw (request_fits id path short) (send-Puts (asked id path) r quiet)

abbrev pub pull_request : SyncFeatures → Bytes → Bytes
pull_request f path =
    if f.sendrecv_v2 then asked id_rcv2 path ++ word id_rcv2 0 else asked id_recv path

pub start_pull-Puts :
    (f : SyncFeatures) (path : Bytes) (r : ChannelReader)
    → length path < 2 ^ 32
    → r.channel.outcomes ≡ []
    → Puts (pull_request f path) r (start_pull f path r)
unfolding start_pull pull_v1 pull_v2
start_pull-Puts f path r short quiet = elim (Bool-cases f.sendrecv_v2) [
  | inr e ↦ rw e (request-Puts id_recv path r short quiet)
  | inl e ↦ rw e (
      rw (request_fits id_rcv2 path short) (
        bind-Puts (asked id_rcv2 path) (word id_rcv2 0) r (send (asked id_rcv2 path) r)
          (λ _. send (word id_rcv2 0)) (send-Puts (asked id_rcv2 path) r quiet)
          (λ s q. send-Puts (word id_rcv2 0) s q)))
]
