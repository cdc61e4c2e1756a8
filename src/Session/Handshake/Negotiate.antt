-- ===== src/Session/Handshake/Negotiate.antt =====
-- What src/session/handshake.rs agrees on with the device.
use rsadb.Base.{
  ◌+◌, Bool, true, false, ◌&&◌, leb, ◌∙◌, All, ℕ, ◌⊎◌, ◌≤◌, ◌<◌, ◌≡◌, refl, ap, sym, subst, List,
  [], ◌∷◌, ◌++◌, Option, Bytes, ◌==◌, ltb, Bool-cases, inl, inr, arith,
}
use rsadb.Error.{Result, ok, err, Error}
use rsadb.Auth.{HostKey, sign_token, public_key_payload}
use rsadb.Wire.Command.{Command, sync, connect, auth, open_stream, okay, close, write, start_tls}
use rsadb.Wire.Message.{
  Message, version_offered, version_min, max_payload, legacy_max_payload, auth_token,
}
use rsadb.Transport.Config.{negotiated}
use rsadb.Session.Handshake.{
  max_stale, Negotiated, Event, arrives, fails, lapse, Link, Phase, negotiate, answer, answer_token,
  offer, after_post, finish, skip, post, event_round, round, rounds, handshake, first_round, fresh,
}
use rsadb.Session.Handshake.Rule.{Ensures, Round-cases, rounds_finished, rounds_goes_on}
use rsadb.Session.Banner
use rsadb.Text.Lossy.{from_utf8_lossy}

-- The limit of a device that names `theirs`: the lower one of the two sides, or that of the old protocol.
abbrev pub IsLimit : ℕ → ℕ → Type 0
IsLimit theirs limit =
    ((theirs ≡ 0) × (limit ≡ legacy_max_payload))
    ⊎ ((0 < theirs) × (limit ≤ theirs) × ((limit ≡ theirs) ⊎ (limit ≡ max_payload)))

-- What the two sides have agreed on, from the `A_CNXN` of the device: the lower one of their versions,
-- the limit, the banner, and the framing policy for them.
pub record IsAgreed (msg : Message) (n : Negotiated) (l : Link) : Type 0 where
  pub version_low : version_min ≤ n.version
  pub version_ours : n.version ≤ version_offered
  pub version_theirs : n.version ≤ msg.arg0
  pub version_greatest : (n.version ≡ msg.arg0) ⊎ (n.version ≡ version_offered)
  pub payload_low : 0 < n.payload_limit
  pub payload_ours : n.payload_limit ≤ max_payload
  pub payload_theirs : IsLimit msg.arg1 n.payload_limit
  pub banner : n.banner ≡ Banner.parse (from_utf8_lossy msg.payload)
  pub configured : l.config ≡ negotiated n.version n.payload_limit

is_connect : Command → Bool
is_connect connect = true
is_connect _ = false

-- An `A_CNXN` with a version that this side speaks.
pub is_offer : Event → Bool
unfolding is_connect
is_offer (arrives msg) = is_connect msg.command && leb version_min msg.arg0
is_offer (fails e) = false
is_offer lapse = false

-- A round on the event `e` succeeds where `e` is an offer.
abbrev Agreed : Event → Result Negotiated → Link → Type 0
Agreed e (ok n) l = (msg : Message) × (e ≡ arrives msg) × (msg.command ≡ connect) × IsAgreed msg n l
Agreed e (err _) l = is_offer e ≡ false

abbrev NoOffer : Event → Phase → Link → Type 0
NoOffer e p l = is_offer e ≡ false

finish-Agreed :
    (key : HostKey) (msg : Message) (l : Link)
    → msg.command ≡ connect
    → Ensures (NoOffer (arrives msg)) (Agreed (arrives msg)) (finish key l (negotiate msg))
unfolding finish negotiate is_offer is_connect
finish-Agreed key msg l c = elim (Bool-cases (ltb msg.arg0 version_min)) [
  | inl old ↦ rw old (rw c (ground (arith, old)))
  | inr new ↦ rw new (
    msg,
    refl,
    c,
    record {
      version_low = ground arith;
      version_ours = ground arith;
      version_theirs = ground arith;
      version_greatest = ground arith;
      payload_low = ground arith;
      payload_ours = ground arith;
      payload_theirs = ground arith;
      banner = refl;
      configured = refl;
    },
  )
]

module _ (e : Event) (h : is_offer e ≡ false) where
  after_post-Agreed :
      (p : Phase) (r : Result (Unit {0}) × Link) → Ensures (NoOffer e) (Agreed e) (after_post p r)
  unfolding after_post
  after_post-Agreed p (ok _, l) = h
  after_post-Agreed p (err _, l) = h

  offer-Agreed :
      (make : Bytes → Message) (p : Phase) (l : Link) (r : Result Bytes)
      → Ensures (NoOffer e) (Agreed e) (offer make p l r)
  unfolding offer
  offer-Agreed make p l (ok b) = after_post-Agreed p (post (make b) l)
  offer-Agreed make p l (err _) = h

no_offer :
    (msg : Message) (c : Command)
    → msg.command ≡ c
    → is_connect c ≡ false
    → is_offer (arrives msg) ≡ false
unfolding is_offer
no_offer msg c h k = ap (λ x. is_connect x && leb version_min msg.arg0) h ∙ (rw k refl)

-- A handshake ends at the first offer that it reads, and has agreed on it. Where it fails, it has
-- read none.
abbrev pub Concluded : List Event → Result Negotiated × Link × List Event → Type 0
Concluded es (err _, l, left) =
    (front : List Event) × (es ≡ front ++ left) × All (λ e. is_offer e ≡ false) front
Concluded es (ok n, l, left) =
    (front : List Event) × (msg : Message) × (es ≡ front ++ (arrives msg ∷ left))
    × All (λ e. is_offer e ≡ false) front
    × (msg.command ≡ connect)
    × IsAgreed msg n l

module _ (key : HostKey) where
  answer_token-Agreed :
      (e : Event) (p : Phase) (msg : Message) (l : Link)
      → is_offer e ≡ false
      → Ensures (NoOffer e) (Agreed e) (answer_token key p msg l)
  unfolding answer_token
  answer_token-Agreed e p msg l h = elim (Bool-cases p.sent_signature) [
    | inl s ↦ elim (Bool-cases p.sent_pubkey) [
      | inl k ↦ rw (s, k) h
      | inr k ↦ rw (s, k) (offer-Agreed e h _ _ l (public_key_payload key))
    ]
    | inr s ↦ rw s (offer-Agreed e h _ _ l (sign_token key msg.payload))
  ]

  skip-Agreed :
      (e : Event) (p : Phase) (l : Link)
      → is_offer e ≡ false
      → Ensures (NoOffer e) (Agreed e) (skip key p l)
  unfolding skip
  skip-Agreed e p l h = elim (Bool-cases (ltb max_stale (p.skipped + 1))) [
    | inl many ↦ rw many h
    | inr few ↦ rw few h
  ]

  answer-Agreed :
      (c : Command) (p : Phase) (msg : Message) (l : Link)
      → msg.command ≡ c
      → Ensures (NoOffer (arrives msg)) (Agreed (arrives msg)) (answer key c p msg l)
  unfolding answer is_connect
  answer-Agreed connect p msg l c = finish-Agreed key msg l c
  answer-Agreed auth p msg l c = elim (Bool-cases (msg.arg0 == auth_token)) [
    | inl t ↦ rw t (answer_token-Agreed (arrives msg) p msg l (no_offer msg auth c refl))
    | inr o ↦ rw o (no_offer msg auth c refl)
  ]
  answer-Agreed start_tls p msg l c = no_offer msg start_tls c refl
  answer-Agreed open_stream p msg l c = no_offer msg open_stream c refl
  answer-Agreed close p msg l c = skip-Agreed (arrives msg) p l (no_offer msg close c refl)
  answer-Agreed write p msg l c = skip-Agreed (arrives msg) p l (no_offer msg write c refl)
  answer-Agreed okay p msg l c = skip-Agreed (arrives msg) p l (no_offer msg okay c refl)
  answer-Agreed sync p msg l c = skip-Agreed (arrives msg) p l (no_offer msg sync c refl)

  event_round-Agreed :
      (p : Phase) (e : Event) (l : Link) → Ensures (NoOffer e) (Agreed e) (event_round key p e l)
  unfolding event_round round is_offer
  event_round-Agreed p (arrives msg) l = answer-Agreed msg.command p msg l refl
  event_round-Agreed p (fails _) l = refl
  event_round-Agreed p lapse l = elim (Bool-cases p.sent_pubkey) [
    | inl k ↦ rw k refl
    | inr k ↦ rw k refl
  ]

  Concluded-Agreed :
      (e : Event) (es : List Event) (r : Result Negotiated) (l : Link)
      → Agreed e r l
      → Concluded (e ∷ es) (r, l, es)
  Concluded-Agreed e es (ok n) l (msg, same, c, a) = ([], msg, ap (λ x. x ∷ es) same, tt, c, a)
  Concluded-Agreed e es (err _) l h = (e ∷ [], refl, (h, tt))

  Concluded-cons :
      (e : Event) (es : List Event) (x : Result Negotiated × Link × List Event)
      → is_offer e ≡ false
      → Concluded es x
      → Concluded (e ∷ es) x
  Concluded-cons e es (ok n, l, left) before (front, msg, same, others, c, h) =
      (e ∷ front, msg, ap (λ x. e ∷ x) same, (before, others), c, h)
  Concluded-cons e es (err _, l, left) before (front, same, others) =
      (e ∷ front, ap (λ x. e ∷ x) same, (before, others))

  rounds-Concluded : (p : Phase) (l : Link) (es : List Event) → Concluded es (rounds key p l es)
  unfolding rounds
  rounds-Concluded p l [] = ([], refl, tt)
  rounds-Concluded p l (e ∷ es) = elim (Round-cases (event_round key p e l)) [
    | inl (r, l', eq) ↦ subst (Concluded (e ∷ es)) (sym (rounds_finished key p l e es eq)) (
        Concluded-Agreed e es r l'
          (subst (Ensures (NoOffer e) (Agreed e)) eq (event_round-Agreed p e l)))
    | inr (p', l', eq) ↦ subst (Concluded (e ∷ es)) (sym (rounds_goes_on key p l e es eq)) (
        Concluded-cons e es (rounds key p' l' es)
          (subst (Ensures (NoOffer e) (Agreed e)) eq (event_round-Agreed p e l))
          (rounds-Concluded p' l' es))
  ]

  first_round-Concluded :
      (r : Result (Unit {0}) × Link) (es : List Event) → Concluded es (first_round key r es)
  unfolding first_round
  first_round-Concluded (ok _, l) es = rounds-Concluded fresh l es
  first_round-Concluded (err e, l) es = ([], refl, tt)

  -- A handshake that fails has read no `A_CNXN` with a version that this side speaks, whatever the device
  -- has sent. One that succeeds ends with the first such `A_CNXN`: it has agreed on the lower version
  -- of the two sides, which this side speaks, and on the lower payload limit of the two, that of the
  -- old protocol where the device names none, which is between 1 and 1 MiB. It keeps the device's
  -- banner, and has set the framing policy for the version and the limit.
  pub handshake-Concluded :
      (outcomes : List (Option Error)) (es : List Event) → Concluded es (handshake key outcomes es)
  unfolding handshake
  handshake-Concluded outcomes es = first_round-Concluded _ es
