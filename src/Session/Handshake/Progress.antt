-- ===== src/Session/Handshake/Progress.antt =====
-- The loop of src/session/handshake.rs ends: each message of the device uses up part of a budget.
use rsadb.Base.{
  ℕ, suc, ◌+◌, ◌-◌, ◌<◌, ◌≡◌, refl, sym, ap, subst, ◌∙◌, true, ltb, ltb→le, ◌==◌, inl, inr,
  if◌then◌else◌, List, [], ◌∷◌, ◌++◌, Option, arith, Bytes,
}
use rsadb.Error.{Result, ok, err, Error, unauthorized, protocol, stale_frames, unexpected_auth}
use rsadb.Auth.{HostKey, sign_token, public_key_payload}
use rsadb.Wire.Command.{Command, connect, auth, open_stream, start_tls}
use rsadb.Wire.Message.{Message, auth_token}
use rsadb.Session.Handshake.{
  Negotiated, Event, arrives, fails, lapse, Link, Phase, finished, goes_on, negotiate, answer,
  answer_token, offer, after_post, finish, skip, post, event_round, round, rounds, handshake,
  first_round, fresh, max_stale,
}
use rsadb.Session.Handshake.Rule.{Ensures, if_rule, Round-cases, rounds_finished, rounds_goes_on}
use rsadb.Session.Handshake.Stale.{Ending}

-- How many messages the loop can still go on after.
abbrev budget : Phase → ℕ
budget p =
    (if p.sent_signature then 0 else 1) + (if p.sent_pubkey then 0 else 1) + (max_stale - p.skipped)

unfoldable pub count_arrivals : List Event → ℕ
count_arrivals [] = 0
count_arrivals (arrives msg ∷ es) = suc (count_arrivals es)
count_arrivals (fails e ∷ es) = count_arrivals es
count_arrivals (lapse ∷ es) = count_arrivals es

abbrev AnyEnd : Result Negotiated → Link → Type 0
AnyEnd r l = Unit {0}

abbrev Spends : ℕ → Phase → Link → Type 0
Spends n q l = budget q < n

after_post-Spends :
    (n : ℕ) (q : Phase) (r : Result (Unit {0}) × Link)
    → budget q < n
    → Ensures (Spends n) AnyEnd (after_post q r)
unfolding after_post
after_post-Spends n q (ok _, l) h = h
after_post-Spends n q (err e, l) h = tt

offer-Spends :
    (n : ℕ) (make : Bytes → Message) (q : Phase) (l : Link) (r : Result Bytes)
    → budget q < n
    → Ensures (Spends n) AnyEnd (offer make q l r)
unfolding offer
offer-Spends n make q l (ok b) h = after_post-Spends n q (post (make b) l) h
offer-Spends n make q l (err e) h = tt

module _ (key : HostKey) where
  answer_token-Spends :
      (p : Phase) (msg : Message) (l : Link)
      → Ensures (Spends (budget p)) AnyEnd (answer_token key p msg l)
  unfolding answer_token
  answer_token-Spends p msg l =
      if_rule (Spends (budget p)) AnyEnd p.sent_signature
        (if p.sent_pubkey then finished (err unauthorized) l else _) _
        (λ s.
          if_rule (Spends (budget p)) AnyEnd p.sent_pubkey (finished (err unauthorized) l) _
            (λ _. tt)
            λ k.
              offer-Spends (budget p) _ (record p { sent_pubkey = true }) l (public_key_payload key)
                (ground arith))
        λ s.
          offer-Spends (budget p) _ (record p { sent_signature = true }) l
            (sign_token key msg.payload) (ground arith)

  skip-Spends : (p : Phase) (l : Link) → Ensures (Spends (budget p)) AnyEnd (skip key p l)
  unfolding skip
  skip-Spends p l =
      if_rule (Spends (budget p)) AnyEnd (ltb max_stale (p.skipped + 1))
        (finished (err (protocol (stale_frames (p.skipped + 1)))) l)
        (goes_on (record p { skipped = p.skipped + 1 }) l) (λ _. tt)
        λ h. omega (arith, ltb→le _ _ h)

  finish-Spends :
      (n : ℕ) (l : Link) (r : Result Negotiated) → Ensures (Spends n) AnyEnd (finish key l r)
  unfolding finish
  finish-Spends n l (ok x) = tt
  finish-Spends n l (err e) = tt

  answer-Spends :
      (c : Command) (p : Phase) (msg : Message) (l : Link)
      → Ensures (Spends (budget p)) AnyEnd (answer key c p msg l)
  unfolding answer
  answer-Spends connect p msg l = finish-Spends (budget p) l (negotiate msg)
  answer-Spends auth p msg l =
      if_rule (Spends (budget p)) AnyEnd (msg.arg0 == auth_token) (answer_token key p msg l)
        (finished (err (protocol (unexpected_auth msg.arg0))) l) (λ _. answer_token-Spends p msg l)
        λ _. tt
  answer-Spends start_tls p msg l = tt
  answer-Spends open_stream p msg l = tt
  answer-Spends _ p msg l = skip-Spends p l

  spent :
      (p q : Phase) (msg : Message) (l l' : Link)
      → event_round key p (arrives msg) l ≡ goes_on q l'
      → budget q < budget p
  unfolding event_round round
  spent p q msg l l' eq =
      subst (Ensures (Spends (budget p)) AnyEnd) eq (answer-Spends msg.command p msg l)

  lapse_keeps : (p q : Phase) (l l' : Link) → event_round key p lapse l ≡ goes_on q l' → q ≡ p
  unfolding event_round
  lapse_keeps p q l l' eq = ground arith

  abbrev pub followed : Ending → List Event → Ending
  followed x more = (x.0, x.1, x.2 ++ more)

  followed_by :
      (x y : Ending) (z z' : Ending) (more : List Event)
      → x ≡ z
      → y ≡ z'
      → z ≡ followed z' more
      → x ≡ followed y more
  followed_by x y z z' more p q h = p ∙ h ∙ ap (λ w. followed w more) (sym q)

  rounds_decided :
      (es more : List Event) (p : Phase) (l : Link)
      → budget p < count_arrivals es
      → rounds key p l (es ++ more) ≡ followed (rounds key p l es) more
  unfolding count_arrivals
  rounds_decided [] more p l h = absurd (omega arith)
  rounds_decided (arrives msg ∷ es) more p l h =
      elim (Round-cases (event_round key p (arrives msg) l)) [
        | inl (r, l', eq) ↦
            followed_by _ _ (r, l', es ++ more) (r, l', es) more
              (rounds_finished key p l (arrives msg) (es ++ more) eq)
              (rounds_finished key p l (arrives msg) es eq) refl
        | inr (q, l', eq) ↦
            followed_by _ _ (rounds key q l' (es ++ more)) (rounds key q l' es) more
              (rounds_goes_on key p l (arrives msg) (es ++ more) eq)
              (rounds_goes_on key p l (arrives msg) es eq)
              (rounds_decided es more q l' (omega (arith, spent p q msg l l' eq)))
      ]
  rounds_decided (fails e ∷ es) more p l h = unfold rounds event_round in refl
  rounds_decided (lapse ∷ es) more p l h = elim (Round-cases (event_round key p lapse l)) [
    | inl (r, l', eq) ↦
        followed_by _ _ (r, l', es ++ more) (r, l', es) more
          (rounds_finished key p l lapse (es ++ more) eq) (rounds_finished key p l lapse es eq) refl
    | inr (q, l', eq) ↦
        followed_by _ _ (rounds key q l' (es ++ more)) (rounds key q l' es) more
          (rounds_goes_on key p l lapse (es ++ more) eq) (rounds_goes_on key p l lapse es eq)
          (rounds_decided es more q l'
            (subst (λ x. budget x < count_arrivals es) (sym (lapse_keeps p q l l' eq)) h))
  ]

  first_round-decided :
      (r : Result (Unit {0}) × Link) (es more : List Event)
      → 66 < count_arrivals es
      → first_round key r (es ++ more) ≡ followed (first_round key r es) more
  unfolding first_round
  first_round-decided (ok _, l) es more h = rounds_decided es more fresh l h
  first_round-decided (err e, l) es more h = refl

  -- The handshake is decided by the first 67 messages of the device: what comes behind them is left
  -- unread and changes nothing.
  pub handshake-decided :
      (outcomes : List (Option Error)) (es more : List Event)
      → 66 < count_arrivals es
      → handshake key outcomes (es ++ more) ≡ followed (handshake key outcomes es) more
  unfolding handshake
  handshake-decided outcomes es more h = first_round-decided _ es more h
