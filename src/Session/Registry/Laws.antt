-- ===== src/Session/Registry/Laws.antt =====
-- The invariant of src/session/registry.rs.
use rsadb.Base.{
  ℕ, zero, suc, ◌≤◌, ◌≡◌, ◌≢◌, refl, sym, subst, ◌∙◌, inl, inr, true, false, ◌==◌, Bool-cases,
  if◌then◌else◌, none, some, IsU32, get_elem?, get_elem?-modify_self, get_elem?-modify_ne,
  get_elem?-append, get_elem?-last, modify, All, List, [], ◌∷◌, ◌++◌, arith,
}
use native.Mathlib.Decide.{ℕ_discrete}
use rsadb.Session.Registry.{
  StreamState, Shared, fresh_stream, take_id, lookup, delete, register, get, remove, change,
  mark_closed, close_streams, close_all, acks_at,
}

-- An entry of the map leads to a stream with the id of its key, which is not zero.
abbrev pub Holds : List StreamState → ℕ × ℕ → Type 0
Holds h p =
    (t : StreamState) × (get_elem? h p.1 ≡ some t) × (t.local_id ≡ p.0) × (p.0 ≢ 0) × IsU32 p.0

abbrev pub Distinct : List (ℕ × ℕ) → Type 0
Distinct [] = Unit {0}
Distinct ((id, a) ∷ m) = (lookup id m ≡ none) × Distinct m

pub record IsConsistent (s : Shared) : Type 0 where
  pub entries : All (Holds s.heap) s.registry.streams
  pub distinct : Distinct s.registry.streams
  pub counter : IsU32 s.registry.next_id

-- A change of a stream that leaves its id alone.
abbrev pub KeepsId : (StreamState → StreamState) → Type 0
KeepsId f = (t : StreamState) → (f t).local_id ≡ t.local_id

Holds-modify :
    (a : ℕ) (f : StreamState → StreamState) (h : List StreamState) (p : ℕ × ℕ)
    → KeepsId f
    → Holds h p
    → Holds (modify a f h) p
Holds-modify a f h (id, b) k (t, e, i, n, w) = elim (ℕ_discrete a b) [
  | yes same ↦ (
    f t,
    subst (λ x. get_elem? (modify x f h) b ≡ some (f t)) (sym same) (get_elem?-modify_self b f h e),
    k t ∙ i,
    n,
    w,
  )
  | no other ↦ (t, get_elem?-modify_ne a b f h other ∙ e, i, n, w)
]

All-Holds-modify :
    (a : ℕ) (f : StreamState → StreamState) (h : List StreamState) (m : List (ℕ × ℕ))
    → KeepsId f
    → All (Holds h) m
    → All (Holds (modify a f h)) m
All-Holds-modify a f h [] k x = tt
All-Holds-modify a f h (p ∷ m) k x = (Holds-modify a f h p k x.0, All-Holds-modify a f h m k x.1)

All-Holds-append :
    (h : List StreamState) (t : StreamState) (m : List (ℕ × ℕ))
    → All (Holds h) m
    → All (Holds (h ++ (t ∷ []))) m
All-Holds-append h t [] x = tt
All-Holds-append h t ((id, a) ∷ m) ((u, e, i, n, w), x) =
    ((u, get_elem?-append h (t ∷ []) a e, i, n, w), All-Holds-append h t m x)

All-delete : (P : ℕ × ℕ → Type 0) (id : ℕ) (m : List (ℕ × ℕ)) → All P m → All P (delete id m)
unfolding delete
All-delete P id [] x = tt
All-delete P id ((j, a) ∷ m) x = elim (Bool-cases (j == id)) [
  | inl e ↦ rw e (All-delete P id m x.1)
  | inr e ↦ rw e (x.0, All-delete P id m x.1)
]

pub lookup-delete_self : (id : ℕ) (m : List (ℕ × ℕ)) → lookup id (delete id m) ≡ none
unfolding lookup delete
lookup-delete_self id [] = refl
lookup-delete_self id ((j, a) ∷ m) = ground (arith, lookup-delete_self id m)

pub lookup-delete :
    (id k : ℕ) (m : List (ℕ × ℕ)) → lookup k (delete id m) ≡ (if id == k then none else lookup k m)
unfolding lookup delete
lookup-delete id k [] = ground arith
lookup-delete id k ((j, a) ∷ m) = ground (arith, lookup-delete id k m)

Distinct-delete : (id : ℕ) (m : List (ℕ × ℕ)) → Distinct m → Distinct (delete id m)
unfolding delete
Distinct-delete id [] x = tt
Distinct-delete id ((j, a) ∷ m) x = elim (Bool-cases (j == id)) [
  | inl e ↦ rw e (Distinct-delete id m x.1)
  | inr e ↦ rw e (lookup-delete id j m ∙ ground arith, Distinct-delete id m x.1)
]

take_id_lem :
    (id : ℕ) → IsU32 id → ((take_id id).0 ≢ 0) × IsU32 (take_id id).0 × IsU32 (take_id id).1
unfolding take_id
take_id_lem id h = ground arith

-- In a consistent registry, a new stream has an id that is not zero, the registry finds it under that
-- id, and stays consistent.
pub register-IsConsistent :
    (s : Shared)
    → IsConsistent s
    → IsConsistent (register s).1
      × (t : StreamState) × (get_elem? (register s).1.heap (register s).0 ≡ some t)
      × (t.local_id ≢ 0)
      × (get t.local_id (register s).1 ≡ some (register s).0)
unfolding register get lookup
register-IsConsistent s c =
    let (ne, word, counter) = take_id_lem s.registry.next_id c.counter in
    let id : ℕ = (take_id s.registry.next_id).0 in
    let here = get_elem?-last s.heap (fresh_stream id) in
    (
      record {
        entries = (
          (fresh_stream id, here, refl, ne, word),
          All-Holds-append s.heap (fresh_stream id) (delete id s.registry.streams)
              (All-delete (Holds s.heap) id s.registry.streams c.entries),
        );
        distinct = (
          lookup-delete_self id s.registry.streams,
          Distinct-delete id s.registry.streams c.distinct,
        );
        counter = counter;
      },
      fresh_stream id,
      here,
      ne,
      ground arith,
    )

pub remove-IsConsistent : (id : ℕ) (s : Shared) → IsConsistent s → IsConsistent (remove id s).1
unfolding remove
remove-IsConsistent id s c = record {
  entries = All-delete (Holds s.heap) id s.registry.streams c.entries;
  distinct = Distinct-delete id s.registry.streams c.distinct;
  counter = c.counter;
}

pub change-IsConsistent :
    (a : ℕ) (f : StreamState → StreamState) (s : Shared)
    → KeepsId f
    → IsConsistent s
    → IsConsistent (change a f s)
change-IsConsistent a f s k c = record {
  entries = All-Holds-modify a f s.heap s.registry.streams k c.entries;
  distinct = c.distinct;
  counter = c.counter;
}

pub close_all-IsConsistent : (s : Shared) → IsConsistent s → IsConsistent (close_all s)
unfolding close_all
close_all-IsConsistent s c = record { entries = tt; distinct = tt; counter = c.counter }

-- A stream of the heap that is closed, with no sender left for its payloads.
abbrev pub IsShut : List StreamState → ℕ → Type 0
IsShut h a = (t : StreamState) × (get_elem? h a ≡ some t) × (t.closed ≡ true) × (t.sending ≡ false)

IsShut-modify : (a b : ℕ) (h : List StreamState) → IsShut h b → IsShut (modify a mark_closed h) b
unfolding mark_closed
IsShut-modify a b h (t, e, c, x) = elim (ℕ_discrete a b) [
  | yes same ↦ (
    mark_closed t,
    subst (λ i. get_elem? (modify i mark_closed h) b ≡ some (mark_closed t)) (sym same)
        (get_elem?-modify_self b mark_closed h e),
    refl,
    refl,
  )
  | no other ↦ (t, get_elem?-modify_ne a b mark_closed h other ∙ e, c, x)
]

close_streams_keeps :
    (m : List (ℕ × ℕ)) (h : List StreamState) (b : ℕ) → IsShut h b → IsShut (close_streams m h) b
unfolding close_streams
close_streams_keeps [] h b x = x
close_streams_keeps ((id, a) ∷ m) h b x =
    close_streams_keeps m (modify a mark_closed h) b (IsShut-modify a b h x)

close_streams_shuts :
    (m : List (ℕ × ℕ)) (h : List StreamState)
    → All (Holds h) m
    → All (λ p. IsShut (close_streams m h) p.1) m
unfolding close_streams
close_streams_shuts [] h x = tt
close_streams_shuts ((id, a) ∷ m) h (x, xs) =
    let h' : List StreamState = modify a mark_closed h in
    (
      close_streams_keeps m h' a (
        mark_closed x.0,
        get_elem?-modify_self a mark_closed h x.1,
        unfold mark_closed in refl,
        unfold mark_closed in refl,
      ),
      close_streams_shuts m h'
          (All-Holds-modify a mark_closed h m (unfold mark_closed in λ t. refl) xs),
    )

-- When the transport is gone every stream of a consistent registry is closed, no sender of payloads
-- is left, and the registry is empty.
pub close_all-IsShut :
    (s : Shared)
    → IsConsistent s
    → All (λ p. IsShut (close_all s).heap p.1) s.registry.streams
      × ((close_all s).registry.streams ≡ [])
unfolding close_all
close_all-IsShut s c = (close_streams_shuts s.registry.streams s.heap c.entries, refl)

-- A change of a stream that loses no acknowledgement.
abbrev pub KeepsAcks : (StreamState → StreamState) → Type 0
KeepsAcks f = (t : StreamState) → t.acks ≤ (f t).acks

pub acks-modify :
    (i : ℕ) (f : StreamState → StreamState) (h : List StreamState) (a : ℕ)
    → KeepsAcks f
    → acks_at (get_elem? h a) ≤ acks_at (get_elem? (modify i f h) a)
acks-modify i f [] a k = omega arith
acks-modify zero f (t ∷ h) zero k = k t
acks-modify zero f (t ∷ h) (suc a) k = omega arith
acks-modify (suc i) f (t ∷ h) zero k = omega arith
acks-modify (suc i) f (t ∷ h) (suc a) k = acks-modify i f h a k

pub mark_closed-KeepsAcks : KeepsAcks mark_closed
unfolding mark_closed
mark_closed-KeepsAcks t = omega arith

close_streams-acks :
    (m : List (ℕ × ℕ)) (h : List StreamState) (a : ℕ)
    → acks_at (get_elem? h a) ≤ acks_at (get_elem? (close_streams m h) a)
unfolding close_streams
close_streams-acks [] h a = omega arith
close_streams-acks ((id, b) ∷ m) h a = omega (
  arith,
  acks-modify b mark_closed h a mark_closed-KeepsAcks,
  close_streams-acks m (modify b mark_closed h) a,
)

pub close_all-acks :
    (s : Shared) (a : ℕ) → acks_at (get_elem? s.heap a) ≤ acks_at (get_elem? (close_all s).heap a)
unfolding close_all
close_all-acks s a = close_streams-acks s.registry.streams s.heap a
