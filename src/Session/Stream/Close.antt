-- ===== src/Session/Stream/Close.antt =====
-- `close_now` of src/session/stream.rs.
use rsadb.Base.{
  ℕ, ◌≡◌, refl, ap, ◌∙◌, true, false, none, some, get_elem?, get_elem?-modify_self, [], ◌∷◌, ◌++◌,
  arith, Option-cases, Bool-cases, inl, inr,
}
use rsadb.Wire.Command.{close}
use rsadb.Wire.Message.{Message, empty_message}
use rsadb.Session.Registry.{StreamState, Registry, Shared, get, remove, change, mark_closed, lookup}
use rsadb.Session.Registry.Laws.{lookup-delete_self, IsShut}
use rsadb.Session.Reader.{post}
use rsadb.Session.Stream.{close_at, close_now, remote_or_zero}

post-heap : (m : Message) (s : Shared) → (post m s).1.heap ≡ s.heap
unfolding post
post-heap m s = ground arith

post-registry : (m : Message) (s : Shared) → (post m s).1.registry ≡ s.registry
unfolding post
post-registry m s = ground arith

post-outbox :
    (m : Message) (s : Shared) → s.writing ≡ true → (post m s).1.outbox ≡ s.outbox ++ (m ∷ [])
unfolding post
post-outbox m s h = ground arith

close_now_absent : (a : ℕ) (s : Shared) → get_elem? s.heap a ≡ none → close_now a s ≡ s
unfolding close_now close_at
close_now_absent a s h = rw (h, close_at)

-- The state in which the `A_CLSE` of an open stream is posted.
abbrev shut : ℕ → StreamState → Shared → Shared
shut a t s = (remove t.local_id (change a mark_closed s)).1

module _ (a : ℕ) (s : Shared) (t : StreamState) (held : get_elem? s.heap a ≡ some t) where
  close_now_shut : t.closed ≡ true → close_now a s ≡ s
  unfolding close_now close_at
  close_now_shut h = rw (held, close_at, h)

  close_now_lem :
      t.closed ≡ false
      → close_now a s ≡ (post (empty_message close t.local_id (remote_or_zero t)) (shut a t s)).1
  unfolding close_now close_at
  close_now_lem h = rw (held, close_at, h)

  -- Closing an open stream marks it closed, takes its id out of the registry, and tells the device
  -- once, with the device's id, or zero while that is not known. The writer task still runs.
  pub close_now_open :
      t.closed ≡ false
      → s.writing ≡ true
      → IsShut (close_now a s).heap a
        × (get t.local_id (close_now a s) ≡ none)
        × ((close_now a s).outbox
            ≡ s.outbox ++ (empty_message close t.local_id (remote_or_zero t) ∷ []))
  unfolding get remove mark_closed
  close_now_open h w =
      let m : Message = empty_message close t.local_id (remote_or_zero t) in
      let eq = close_now_lem h in
      let heap_eq = ap (λ (x : Shared). x.heap) eq ∙ post-heap m (shut a t s) in
      let map_eq = ap (λ (x : Shared). x.registry) eq ∙ post-registry m (shut a t s) in
      (
        (
          mark_closed t,
          ap (λ x. get_elem? x a) heap_eq ∙ get_elem?-modify_self a mark_closed s.heap held,
          refl,
          refl,
        ),
        ap (λ (x : Registry). lookup t.local_id x.streams) map_eq
            ∙ lookup-delete_self t.local_id s.registry.streams,
        ap (λ (x : Shared). x.outbox) eq ∙ post-outbox m (shut a t s) w,
      )

  closed_held : t.closed ≡ false → get_elem? (close_now a s).heap a ≡ some (mark_closed t)
  unfolding remove
  closed_held h =
      let m : Message = empty_message close t.local_id (remote_or_zero t) in
      ap (λ (x : Shared). get_elem? x.heap a) (close_now_lem h)
      ∙ ap (λ x. get_elem? x a) (post-heap m (shut a t s))
      ∙ get_elem?-modify_self a mark_closed s.heap held

-- Closing is idempotent: a second close, or the drop after a close, changes nothing and posts nothing.
pub close_now_twice : (a : ℕ) (s : Shared) → close_now a (close_now a s) ≡ close_now a s
close_now_twice a s = elim (Option-cases (get_elem? s.heap a)) [
  | inl e ↦ let eq = close_now_absent a s e in ap (close_now a) eq
  | inr (t, e) ↦ elim (Bool-cases t.closed) [
    | inl c ↦ let eq = close_now_shut a s t e c in ap (close_now a) eq
    | inr o ↦
        close_now_shut a (close_now a s) (mark_closed t) (closed_held a s t e o)
          (unfold mark_closed in refl)
  ]
]
