-- ===== src/Session/Handshake.antt =====
-- src/session/handshake.rs: the `A_CNXN` / `A_AUTH` exchange.
pub mod Rule
pub mod Negotiate
pub mod Offers
pub mod Stale
pub mod Progress
use rsadb.Base.{
  ℕ, suc, ◌+◌, Bytes, Bool, true, false, ltb, ◌==◌, if◌then◌else◌, Option, none, some, List, [],
  ◌∷◌, ◌++◌, min,
}
use rsadb.Error.{
  Result, ok, err, Error, disconnected, unauthorized, unsupported, protocol, version_too_old,
  unexpected_auth, tls_requested, stale_frames, unexpected_open,
}
use rsadb.Text.Lossy.{from_utf8_lossy}
use rsadb.Wire.Command.{Command, sync, connect, auth, open_stream, okay, close, write, start_tls}
use rsadb.Wire.Message.{
  Message, message, version_offered, version_min, max_payload, legacy_max_payload, auth_token,
  auth_signature, auth_rsapublickey,
}
use rsadb.Transport.Config.{WireConfig, initial, negotiated}
use rsadb.Session.Banner
use rsadb.Session.Banner.{Banner}
use rsadb.Auth.{HostKey, sign_token, public_key_payload}

pub record Negotiated : Type 0 where
  pub banner : Banner
  pub version : ℕ
  pub payload_limit : ℕ

-- How many stale stream frames are skipped.
abbrev pub max_stale : ℕ
max_stale = 64

unfoldable pub negotiate : Message → Result Negotiated
negotiate msg =
    if ltb msg.arg0 version_min
    then err (protocol (version_too_old msg.arg0))
    else ok (record {
      banner = Banner.parse (from_utf8_lossy msg.payload);
      version = min msg.arg0 version_offered;
      payload_limit = min (if msg.arg1 == 0 then legacy_max_payload else msg.arg1) max_payload;
    })

-- What the transport's `recv` meets: a message, a failure, or `auth_wait` with no message.
pub data Event : Type 0 where
  arrives : Message → Event
  fails : Error → Event
  lapse : Event

-- The transport: what was sent, the outcome of each later `send` (none is left: it succeeds), and
-- the framing policy.
pub record Link : Type 0 where
  pub sent : List Message
  pub outcomes : List (Option Error)
  pub config : WireConfig

pub record Phase : Type 0 where
  pub sent_signature : Bool
  pub sent_pubkey : Bool
  pub skipped : ℕ

-- A round of the loop: it returns, or goes on.
pub data Round : Type 0 where
  finished : Result Negotiated → Link → Round
  goes_on : Phase → Link → Round

post_outcome : Message → Link → List (Option Error) → Result (Unit {0}) × Link
post_outcome m l [] = (ok tt, record l { sent = l.sent ++ (m ∷ []) })
post_outcome m l (none ∷ os) = (ok tt, record l { sent = l.sent ++ (m ∷ []); outcomes = os })
post_outcome m l (some e ∷ os) = (err e, record l { outcomes = os })

-- `transport.send(m).await`
pub post : Message → Link → Result (Unit {0}) × Link
unfolding post_outcome
post m l = post_outcome m l l.outcomes

-- The rest of a round after a `send`.
after_post : Phase → Result (Unit {0}) × Link → Round
after_post p (ok _, l) = goes_on p l
after_post p (err e, l) = finished (err e) l

offer : (Bytes → Message) → Phase → Link → Result Bytes → Round
unfolding after_post
offer make p l (ok bytes) = after_post p (post (make bytes) l)
offer make p l (err e) = finished (err e) l

abbrev pub fresh : Phase
fresh = record { sent_signature = false; sent_pubkey = false; skipped = 0 }

abbrev pub hello : Message
hello = message connect version_offered max_payload Banner.host

module _ (key : HostKey) where
  answer_token : Phase → Message → Link → Round
  unfolding offer
  answer_token p msg l =
      if p.sent_signature
      then if p.sent_pubkey
        then finished (err unauthorized) l
        else offer (message auth auth_rsapublickey 0) (record p { sent_pubkey = true }) l
            (public_key_payload key)
      else offer (message auth auth_signature 0) (record p { sent_signature = true }) l
          (sign_token key msg.payload)

  finish : Link → Result Negotiated → Round
  finish l (ok n) = finished (ok n) (record l { config = negotiated n.version n.payload_limit })
  finish l (err e) = finished (err e) l

  skip : Phase → Link → Round
  skip p l =
      if ltb max_stale (p.skipped + 1)
      then finished (err (protocol (stale_frames (p.skipped + 1)))) l
      else goes_on (record p { skipped = p.skipped + 1 }) l

  answer : Command → Phase → Message → Link → Round
  unfolding answer_token finish skip
  answer connect p msg l = finish l (negotiate msg)
  answer auth p msg l =
      if msg.arg0 == auth_token
      then answer_token p msg l
      else finished (err (protocol (unexpected_auth msg.arg0))) l
  answer start_tls p msg l = finished (err (unsupported tls_requested)) l
  answer close p msg l = skip p l
  answer write p msg l = skip p l
  answer okay p msg l = skip p l
  answer sync p msg l = skip p l
  answer open_stream p msg l = finished (err (protocol unexpected_open)) l

  -- One message of the device.
  pub round : Phase → Message → Link → Round
  unfolding answer
  round p msg l = answer msg.command p msg l

  -- One `recv`, with the time limit once the public key is sent.
  pub event_round : Phase → Event → Link → Round
  unfolding round
  event_round p (arrives msg) l = round p msg l
  event_round p (fails e) l = finished (err e) l
  event_round p lapse l = if p.sent_pubkey then finished (err unauthorized) l else goes_on p l

  -- The loop over what the transport meets; what is left of it comes last. The end of the list is
  -- the end of the stream.
  pub rounds : Phase → Link → List Event → Result Negotiated × Link × List Event
  rounds p l [] = (err disconnected, l, [])
  rounds p l (e ∷ es) = elim (event_round p e l) [
    | finished r l' ↦ (r, l', es)
    | goes_on p' l' ↦ rounds p' l' es
  ]

  first_round : Result (Unit {0}) × Link → List Event → Result Negotiated × Link × List Event
  first_round (ok _, l) es = rounds fresh l es
  first_round (err e, l) es = (err e, l, es)

  unfoldable pub handshake :
      List (Option Error) → List Event → Result Negotiated × Link × List Event
  unfolding first_round
  handshake outcomes es =
      first_round (post hello (record { sent = []; outcomes = outcomes; config = initial })) es
