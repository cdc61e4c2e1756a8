-- ===== src/Session/Handshake/Stale.antt =====
-- src/session/handshake.rs on the stream frames that an earlier session has left behind.
use rsadb.Base.{
  ℕ, ◌+◌, ◌≤◌, ◌≡◌, refl, sym, ap, ◌∙◌, Bool, true, false, ltb, ◌==◌, le→ltb, Bool-cases, inl, inr,
  if◌then◌else◌, List, [], ◌∷◌, ◌++◌, Option, arith, Bytes, All, length, eq_nil_of_length,
}
use rsadb.Error.{Result, ok, err, Error, protocol, stale_frames}
use rsadb.Auth.{HostKey, sign_token, public_key_payload}
use rsadb.Wire.Command.{Command, sync, connect, auth, open_stream, okay, close, write, start_tls}
use rsadb.Wire.Message.{Message, auth_token}
use rsadb.Transport.Config.{initial}
use rsadb.Session.Handshake.{
  Negotiated, Event, arrives, fails, lapse, Link, Phase, Round, finished, goes_on, negotiate,
  answer, answer_token, offer, after_post, finish, skip, post, post_outcome, event_round, round,
  rounds, handshake, first_round, fresh, hello, max_stale,
}
use rsadb.Session.Handshake.Rule.{Round-cases, rounds_finished, rounds_goes_on}

-- The commands of stream traffic.
abbrev pub is_stream_frame : Command → Bool
is_stream_frame close = true
is_stream_frame write = true
is_stream_frame okay = true
is_stream_frame sync = true
is_stream_frame _ = false

abbrev pub is_stale : Event → Bool
is_stale (arrives msg) = is_stream_frame msg.command
is_stale _ = false

unfoldable pub count_stale : List Event → ℕ
count_stale [] = 0
count_stale (e ∷ es) = (if is_stale e then 1 else 0) + count_stale es

unfoldable pub without_stale : List Event → List Event
without_stale [] = []
without_stale (e ∷ es) = let rest = without_stale es in if is_stale e then rest else e ∷ rest

-- The round with another count of skipped frames.
abbrev reskip : ℕ → Round → Round
reskip n (finished r l) = finished r l
reskip n (goes_on p l) = goes_on (record p { skipped = n }) l

after_post-reskip :
    (n : ℕ) (p : Phase) (r : Result (Unit {0}) × Link)
    → after_post (record p { skipped = n }) r ≡ reskip n (after_post p r)
unfolding after_post
after_post-reskip n p (ok _, l) = refl
after_post-reskip n p (err e, l) = refl

offer-reskip :
    (n : ℕ) (make : Bytes → Message) (p : Phase) (l : Link) (r : Result Bytes)
    → offer make (record p { skipped = n }) l r ≡ reskip n (offer make p l r)
unfolding offer
offer-reskip n make p l (ok b) = after_post-reskip n p (post (make b) l)
offer-reskip n make p l (err e) = refl

finish-reskip :
    (n : ℕ) (key : HostKey) (l : Link) (r : Result Negotiated)
    → finish key l r ≡ reskip n (finish key l r)
unfolding finish
finish-reskip n key l (ok x) = refl
finish-reskip n key l (err e) = refl

reskip-if :
    (n : ℕ) (b : Bool) (x y x' y' : Round)
    → x' ≡ reskip n x
    → y' ≡ reskip n y
    → (if b then x' else y') ≡ reskip n (if b then x else y)
reskip-if n true x y x' y' h k = h
reskip-if n false x y x' y' h k = k

module _ (key : HostKey) (n : ℕ) where
  answer_token-reskip :
      (p : Phase) (msg : Message) (l : Link)
      → answer_token key (record p { skipped = n }) msg l ≡ reskip n (answer_token key p msg l)
  unfolding answer_token
  answer_token-reskip p msg l =
      reskip-if n p.sent_signature _ _ _ _
        (reskip-if n p.sent_pubkey _ _ _ _ refl (offer-reskip n _ _ l (public_key_payload key)))
        (offer-reskip n _ _ l (sign_token key msg.payload))

  answer-reskip :
      (c : Command) (p : Phase) (msg : Message) (l : Link)
      → is_stream_frame c ≡ false
      → answer key c (record p { skipped = n }) msg l ≡ reskip n (answer key c p msg l)
  unfolding answer
  answer-reskip connect p msg l h = finish-reskip n key l (negotiate msg)
  answer-reskip auth p msg l h =
      reskip-if n (msg.arg0 == auth_token) _ _ _ _ (answer_token-reskip p msg l) refl
  answer-reskip start_tls p msg l h = refl
  answer-reskip open_stream p msg l h = refl
  answer-reskip _ p msg l h = cc

  event_round-reskip :
      (p : Phase) (e : Event) (l : Link)
      → is_stale e ≡ false
      → event_round key (record p { skipped = n }) e l ≡ reskip n (event_round key p e l)
  unfolding event_round round
  event_round-reskip p (arrives msg) l h = answer-reskip msg.command p msg l h
  event_round-reskip p (fails e) l h = refl
  event_round-reskip p lapse l h = reskip-if n p.sent_pubkey _ _ _ _ refl refl

module _ (key : HostKey) where
  answer_stale :
      (c : Command) (p : Phase) (msg : Message) (l : Link)
      → is_stream_frame c ≡ true
      → answer key c p msg l ≡ skip key p l
  unfolding answer
  answer_stale close p msg l h = refl
  answer_stale write p msg l h = refl
  answer_stale okay p msg l h = refl
  answer_stale sync p msg l h = refl
  answer_stale _ p msg l h = absurd (cc)

  event_round_stale :
      (p : Phase) (e : Event) (l : Link) → is_stale e ≡ true → event_round key p e l ≡ skip key p l
  unfolding event_round round
  event_round_stale p (arrives msg) l h = answer_stale msg.command p msg l h
  event_round_stale p (fails e) l h = absurd (cc)
  event_round_stale p lapse l h = absurd (cc)

abbrev pub Ending : Type 0
Ending = Result Negotiated × Link × List Event

-- The same result and the same messages sent.
abbrev pub SameEnd : Ending → Ending → Type 0
SameEnd x y = (x.0 ≡ y.0) × (x.1 ≡ y.1)

SameEnd-of : (x y x' y' : Ending) → x ≡ x' → y ≡ y' → SameEnd x' y' → SameEnd x y
SameEnd-of x y x' y' p q (h, k) = (cc, cc)

module _ (key : HostKey) where
  skip_on :
      (p : Phase) (l : Link)
      → p.skipped + 1 ≤ max_stale
      → skip key p l ≡ goes_on (record p { skipped = p.skipped + 1 }) l
  unfolding skip
  skip_on p l h = rw (le→ltb max_stale (p.skipped + 1) h)

  kept_skips :
      (p q : Phase) (e : Event) (l l' : Link)
      → is_stale e ≡ false
      → event_round key p e l ≡ goes_on q l'
      → q.skipped ≡ p.skipped
  kept_skips p q e l l' h eq =
      goes_on_skips (sym eq ∙ event_round-reskip key p.skipped p e l h ∙ ap (reskip p.skipped) eq)
    where
      goes_on_skips :
          goes_on q l' ≡ goes_on (record q { skipped = p.skipped }) l' → q.skipped ≡ p.skipped
      goes_on_skips x = ground arith

  rounds-without_stale :
      (es : List Event) (p : Phase) (l : Link) (n : ℕ)
      → p.skipped + count_stale es ≤ max_stale
      → SameEnd (rounds key p l es) (rounds key (record p { skipped = n }) l (without_stale es))
  unfolding count_stale without_stale
  rounds-without_stale [] p l n h = unfold rounds in (refl, refl)
  rounds-without_stale (e ∷ es) p l n h = elim (Bool-cases (is_stale e)) [
    | inl s ↦
        let room : p.skipped + 1 + count_stale es ≤ max_stale = ground arith in
        let rest = rounds-without_stale es (record p { skipped = p.skipped + 1 }) l n room in
        rw (s) (
          SameEnd-of (rounds key p l (e ∷ es))
            (rounds key (record p { skipped = n }) l (without_stale es))
            (rounds key (record p { skipped = p.skipped + 1 }) l es)
            (rounds key (record p { skipped = n }) l (without_stale es))
            (rounds_goes_on key p l e es
              (event_round_stale key p e l s ∙ skip_on p l (omega arith)))
            refl rest)
    | inr s ↦ rw (s) (elim (Round-cases (event_round key p e l)) [
      | inl (r, l', eq) ↦
          SameEnd-of _ _ (r, l', es) (r, l', without_stale es) (rounds_finished key p l e es eq)
            (rounds_finished key (record p { skipped = n }) l e (without_stale es)
              (event_round-reskip key n p e l s ∙ ap (reskip n) eq))
            (refl, refl)
      | inr (q, l', eq) ↦
          let same = kept_skips p q e l l' s eq in
          let room : q.skipped + count_stale es ≤ max_stale = ground arith in
          SameEnd-of _ _ (rounds key q l' es)
            (rounds key (record q { skipped = n }) l' (without_stale es))
            (rounds_goes_on key p l e es eq)
            (rounds_goes_on key (record p { skipped = n }) l e (without_stale es)
              (event_round-reskip key n p e l s ∙ ap (reskip n) eq))
            (rounds-without_stale es q l' n room)
    ])
  ]

  first_round-without_stale :
      (r : Result (Unit {0}) × Link) (es : List Event)
      → count_stale es ≤ max_stale
      → SameEnd (first_round key r es) (first_round key r (without_stale es))
  unfolding first_round
  first_round-without_stale (ok _, l) es h = rounds-without_stale es fresh l 0 (omega arith)
  first_round-without_stale (err e, l) es h = (refl, refl)

  -- Up to 64 stream frames of an earlier session, wherever they come among the device's messages,
  -- change neither the result of a handshake nor what it sends nor the policy that it sets.
  pub handshake-without_stale :
      (outcomes : List (Option Error)) (es : List Event)
      → count_stale es ≤ max_stale
      → SameEnd (handshake key outcomes es) (handshake key outcomes (without_stale es))
  unfolding handshake
  handshake-without_stale outcomes es h = first_round-without_stale _ es h

  skip_full :
      (p : Phase) (l : Link)
      → p.skipped ≡ max_stale
      → skip key p l ≡ finished (err (protocol (stale_frames (max_stale + 1)))) l
  unfolding skip
  skip_full p l h = rw h

  rounds_too_stale :
      (es more : List Event) (p : Phase) (l : Link)
      → All (λ e. is_stale e ≡ true) es
      → p.skipped ≤ max_stale
      → length es + p.skipped ≡ max_stale + 1
      → rounds key p l (es ++ more) ≡ (err (protocol (stale_frames (max_stale + 1))), l, more)
  rounds_too_stale [] more p l a b h = absurd (omega arith)
  rounds_too_stale (e ∷ es) more p l a b h = elim (Bool-cases (ltb max_stale (p.skipped + 1))) [
    | inl full ↦
        let none_left = eq_nil_of_length es (ground arith) in
        rounds_finished key p l e (es ++ more)
          (event_round_stale key p e l a.0 ∙ skip_full p l (ground arith))
        ∙ ap (λ (x : List Event). (err (protocol (stale_frames (max_stale + 1))), l, x ++ more))
            none_left
    | inr room ↦
        rounds_goes_on key p l e (es ++ more)
          (event_round_stale key p e l a.0 ∙ skip_on p l (ground arith))
        ∙ rounds_too_stale es more (record p { skipped = p.skipped + 1 }) l a.1 (ground arith)
            (omega arith)
  ]

  -- A device that sends 65 stream frames and nothing else makes the handshake fail, with all that
  -- it sends behind them unread.
  pub handshake_too_stale :
      (es more : List Event)
      → All (λ e. is_stale e ≡ true) es
      → length es ≡ max_stale + 1
      → ((handshake key [] (es ++ more)).0 ≡ err (protocol (stale_frames (max_stale + 1))))
        × ((handshake key [] (es ++ more)).2 ≡ more)
  unfolding handshake first_round post post_outcome
  handshake_too_stale es more a h =
      let end =
        rounds_too_stale es more fresh
          (record { sent = hello ∷ []; outcomes = []; config = initial }) a (omega arith)
          (omega arith) in
      (ap (λ (x : Ending). x.0) end, ap (λ (x : Ending). x.2) end)
