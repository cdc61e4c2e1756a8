-- ===== src/Session/Handshake/Offers.antt =====
-- What src/session/handshake.rs sends: the banner, then at most one signature and one public key.
use rsadb.Base.{ℕ, ◌≡◌, Bytes, true, false, List, [], ◌∷◌}
use rsadb.Error.{Result, ok, Error}
use rsadb.Auth.{HostKey, sign_token, public_key_payload}
use rsadb.Wire.Command.{Command, auth}
use rsadb.Wire.Message.{Message, message, auth_signature, auth_rsapublickey}
use rsadb.Session.Handshake.{Negotiated, Link, Phase, hello}

abbrev signature_message : Bytes → Message
signature_message = message auth auth_signature 0

abbrev key_message : Bytes → Message
key_message = message auth auth_rsapublickey 0

module _ (key : HostKey) where
  -- The messages of a handshake, in their order, with what they carry.
  pub data Offered (p : Phase) : List Message → Type 0 where
    greeted : p.sent_signature ≡ false → p.sent_pubkey ≡ false → Offered p (hello ∷ [])
    signed :
        (token signature : Bytes)
        → p.sent_signature ≡ true
        → p.sent_pubkey ≡ false
        → sign_token key token ≡ ok signature
        → Offered p (hello ∷ signature_message signature ∷ [])
    keyed :
        (token signature public_key : Bytes)
        → p.sent_signature ≡ true
        → p.sent_pubkey ≡ true
        → sign_token key token ≡ ok signature
        → public_key_payload key ≡ ok public_key
        → Offered p (hello ∷ signature_message signature ∷ key_message public_key ∷ [])

  abbrev Held : Phase → Link → Type 0
  Held p l = Offered p l.sent

  abbrev Sent : Result Negotiated → Link → Type 0
  Sent r l = (p : Phase) × Offered p l.sent

  keep :
      (p : Phase) (n : ℕ) (ms : List Message) → Offered p ms → Offered (record p { skipped = n }) ms
  keep p n _ (greeted a b) = greeted a b
  keep p n _ (signed t s a b c) = signed t s a b c
  keep p n _ (keyed t s k a b c d) = keyed t s k a b c d
