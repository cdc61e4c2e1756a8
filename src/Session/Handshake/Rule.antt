-- ===== src/Session/Handshake/Rule.antt =====
-- The invariant rule of the loop in src/session/handshake.rs.
use rsadb.Base.{◌≡◌, refl, ◌⊎◌, inl, inr, List, [], ◌∷◌, subst, Bool, true, false, if◌then◌else◌}
use rsadb.Error.{Result, err, disconnected}
use rsadb.Auth.{HostKey}
use rsadb.Session.Handshake.{
  Negotiated, Event, Link, Phase, Round, finished, goes_on, event_round, rounds,
}

-- A round returns with `Q`, or goes on with `P`.
abbrev pub Ensures :
    (P : Phase → Link → Type 0) (Q : Result Negotiated → Link → Type 0) → Round → Type 0
Ensures P Q (finished r l) = Q r l
Ensures P Q (goes_on p l) = P p l

pub Round-cases :
    (r : Round)
    → ((x : Result Negotiated) × (l : Link) × (r ≡ finished x l))
      ⊎ ((p : Phase) × (l : Link) × (r ≡ goes_on p l))
Round-cases (finished x l) = inl (x, l, refl)
Round-cases (goes_on p l) = inr (p, l, refl)

-- A test decides between two rounds.
pub if_rule :
    (P : Phase → Link → Type 0) (Q : Result Negotiated → Link → Type 0) (b : Bool) (x y : Round)
    → (b ≡ true → Ensures P Q x)
    → (b ≡ false → Ensures P Q y)
    → Ensures P Q (if b then x else y)
if_rule P Q true x y h k = h refl
if_rule P Q false x y h k = k refl

module _ (key : HostKey) (P : Phase → Link → Type 0) (Q : Result Negotiated → Link → Type 0) where
  pub rounds_rule :
      ((p : Phase) (e : Event) (l : Link) → P p l → Ensures P Q (event_round key p e l))
      → ((p : Phase) (l : Link) → P p l → Q (err disconnected) l)
      → (p : Phase) (l : Link) (es : List Event) → P p l
      → Q (rounds key p l es).0 (rounds key p l es).1
  unfolding rounds
  rounds_rule keep ends p l [] h = ends p l h
  rounds_rule keep ends p l (e ∷ es) h = elim (Round-cases (event_round key p e l)) [
    | inl (x, l', eq) ↦ rw (eq, rounds) (subst (Ensures P Q) eq (keep p e l h))
    | inr (p', l', eq) ↦
        rw (eq, rounds) (rounds_rule keep ends p' l' es (subst (Ensures P Q) eq (keep p e l h)))
  ]

module _ (key : HostKey) (p : Phase) (l : Link) (e : Event) (es : List Event) where
  pub rounds_finished :
      {r : Result Negotiated} {l' : Link}
      → event_round key p e l ≡ finished r l'
      → rounds key p l (e ∷ es) ≡ (r, l', es)
  unfolding rounds
  rounds_finished eq = rw (eq, rounds)

  pub rounds_goes_on :
      {p' : Phase} {l' : Link}
      → event_round key p e l ≡ goes_on p' l'
      → rounds key p l (e ∷ es) ≡ rounds key p' l' es
  unfolding rounds
  rounds_goes_on eq = rw (eq, rounds)
