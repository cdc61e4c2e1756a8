-- ===== src/Track/Sets.antt =====
-- The sets and maps of src/track.rs: what their operations leave in them.
use rsadb.Base.{
  ◌≡◌, refl, sym, ap, ◌∙◌, inl, inr, Bool, true, false, not, ◌&&◌, ◌||◌, Bool-cases, if_holds, All,
  List, [], ◌∷◌, map, arith,
}
use rsadb.Transport.Usb.Nusb.{Nusb}
use rsadb.Transport.Usb.Discovery.{UsbDeviceInfo, device_id}
use rsadb.Track.{contains, removed, keys, insert, collect, added, Known, keyed}

pub or_false : (a b : Bool) → (a || b) ≡ false → (a ≡ false) × (b ≡ false)
or_false a b h = ground arith

pub and_not-or : (a b c : Bool) → (a && not (b || c)) ≡ ((a && not b) && not c)
and_not-or a b c = ground arith

pub and_true : (a : Bool) → (a && true) ≡ a
and_true a = ground arith

pub or_true : (a : Bool) → (a || true) ≡ true
or_true a = ground arith

pub or_assoc : (a b c : Bool) → (a || (b || c)) ≡ ((a || b) || c)
or_assoc a b c = ground arith

pub or_absorb : (a b : Bool) → (a || b) ≡ ((a || b) || a)
or_absorb a b = ground arith

pub or_false_right : (a : Bool) → (a || false) ≡ a
or_false_right a = ground arith

pub or_rotate : (a b c : Bool) → (a || (b || c)) ≡ ((b || a) || c)
or_rotate a b c = ground arith

pub skipped : (a b c : Bool) → (a ≡ true → c ≡ true) → (b && not c) ≡ ((a || b) && not c)
skipped true b c h = rw (h refl) (ground arith)
skipped false b c h = refl

pub taken : (a b c : Bool) → (a ≡ true → c ≡ false) → (a || (b && not c)) ≡ ((a || b) && not c)
taken true b c h = rw (h refl)
taken false b c h = refl

pub settle : (p c : Bool) → c ≡ ((p && not (p && not c)) || (c && not p))
settle p c = ground arith

module _ (N : Nusb) where
  pub same_comm : (a b : N.DeviceId) → N.same a b ≡ false → N.same b a ≡ false
  same_comm a b h = elim (Bool-cases (N.same b a)) [
    | inl e ↦ (let k = (N.same_iff a b).1 (sym ((N.same_iff b a).0 e)) in cc)
    | inr e ↦ e
  ]

  abbrev pub Distinct : List N.DeviceId → Type 0
  Distinct [] = Unit {0}
  Distinct (i ∷ is) = (contains N.same is i ≡ false) × Distinct is

  pub contains_same :
      (ks : List N.DeviceId) (a b : N.DeviceId)
      → N.same a b ≡ true
      → contains N.same ks b ≡ contains N.same ks a
  contains_same ks a b h = let e = (N.same_iff a b).0 h in rw e

  pub contains-removed :
      (current ks : List N.DeviceId) (i : N.DeviceId)
      → contains N.same (removed N.same current ks) i
        ≡ (contains N.same ks i && not (contains N.same current i))
  unfolding contains removed
  contains-removed current [] i = refl
  contains-removed current (k ∷ ks) i =
      if_holds
        (λ l.
          contains N.same l i
          ≡ ((N.same k i || contains N.same ks i) && not (contains N.same current i)))
        (contains N.same current k) (removed N.same current ks) (k ∷ removed N.same current ks)
        (λ known.
          contains-removed current ks i
          ∙ skipped (N.same k i) (contains N.same ks i) (contains N.same current i)
              (λ e. contains_same current k i e ∙ known))
        (λ absent.
          ap (◌||◌ (N.same k i)) (contains-removed current ks i)
          ∙ taken (N.same k i) (contains N.same ks i) (contains N.same current i)
              (λ e. contains_same current k i e ∙ absent))

  pub removed-Distinct :
      (current ks : List N.DeviceId) → Distinct ks → Distinct (removed N.same current ks)
  unfolding removed
  removed-Distinct current [] d = tt
  removed-Distinct current (k ∷ ks) (fresh, d) =
      if_holds Distinct (contains N.same current k) (removed N.same current ks)
        (k ∷ removed N.same current ks) (λ _. removed-Distinct current ks d)
        (λ _. (rw (contains-removed current ks k, fresh), removed-Distinct current ks d))

  pub removed_all :
      (current ks : List N.DeviceId)
      → All (λ i. contains N.same current i ≡ false) (removed N.same current ks)
  unfolding removed
  removed_all current [] = tt
  removed_all current (k ∷ ks) =
      if_holds (All (λ i. contains N.same current i ≡ false)) (contains N.same current k)
        (removed N.same current ks) (k ∷ removed N.same current ks) (λ _. removed_all current ks)
        (λ absent. (absent, removed_all current ks))

  pub All-removed :
      (P : N.DeviceId → Type 0) (current ks : List N.DeviceId)
      → All P ks
      → All P (removed N.same current ks)
  unfolding removed
  All-removed P current [] h = tt
  All-removed P current (k ∷ ks) (h, hs) =
      if_holds (All P) (contains N.same current k) (removed N.same current ks)
        (k ∷ removed N.same current ks) (λ _. All-removed P current ks hs)
        (λ _. (h, All-removed P current ks hs))

  pub contains_weaken :
      (j : N.DeviceId) (ks is : List N.DeviceId)
      → All (λ i. contains N.same ks i ≡ true) is
      → All (λ i. contains N.same (j ∷ ks) i ≡ true) is
  unfolding contains
  contains_weaken j ks [] h = tt
  contains_weaken j ks (i ∷ is) (h, hs) = (rw h (or_true (N.same j i)), contains_weaken j ks is hs)

  pub contains_self : (ks : List N.DeviceId) → All (λ i. contains N.same ks i ≡ true) ks
  contains_self [] = tt
  contains_self (k ∷ ks) = (
    (unfold contains in rw ((N.same_iff k k).1 refl)),
    contains_weaken k ks ks (contains_self ks),
  )

  -- A map of devices by their ids, without a key twice.
  abbrev pub IsKeyed : Known N → Type 0
  IsKeyed m = All (λ p. device_id N p.1 ≡ p.0) m × Distinct (keys N.same m)

  pub added-removed :
      (previous : List N.DeviceId) (m : Known N)
      → All (λ p. device_id N p.1 ≡ p.0) m
      → map (device_id N) (added N.same previous m) ≡ removed N.same previous (keys N.same m)
  unfolding added removed
  added-removed previous [] h = refl
  added-removed previous ((k, d) ∷ m) (h, hs) = elim (Bool-cases (contains N.same previous k)) [
    | inl e ↦ rw e (added-removed previous m hs)
    | inr e ↦ rw (e, h, added-removed previous m hs)
  ]

  pub contains-insert :
      (d : UsbDeviceInfo N) (m : Known N) (i : N.DeviceId)
      → contains N.same (keys N.same (insert N.same (device_id N d) d m)) i
        ≡ (contains N.same (keys N.same m) i || N.same (device_id N d) i)
  unfolding contains insert
  contains-insert d [] i = or_false_right (N.same (device_id N d) i)
  contains-insert d ((j, e) ∷ m) i =
      if_holds
        (λ l.
          contains N.same (keys N.same l) i
          ≡ ((N.same j i || contains N.same (keys N.same m) i) || N.same (device_id N d) i))
        (N.same j (device_id N d)) ((j, d) ∷ m) ((j, e) ∷ insert N.same (device_id N d) d m)
        (λ equal.
          rw (← (N.same_iff j (device_id N d)).0 equal)
            (or_absorb (N.same j i) (contains N.same (keys N.same m) i)))
        (λ _.
          rw (contains-insert d m i)
            (or_assoc (N.same j i) (contains N.same (keys N.same m) i) (N.same (device_id N d) i)))

  pub insert-IsKeyed :
      (d : UsbDeviceInfo N) (m : Known N) → IsKeyed m → IsKeyed (insert N.same (device_id N d) d m)
  unfolding insert
  insert-IsKeyed d [] h = ((refl, tt), ((unfold contains in refl), tt))
  insert-IsKeyed d ((j, e) ∷ m) ((same, sames), (fresh, d')) =
      let below = insert-IsKeyed d m (sames, d') in
      if_holds IsKeyed (N.same j (device_id N d)) ((j, d) ∷ m)
        ((j, e) ∷ insert N.same (device_id N d) d m)
        (λ equal. ((sym ((N.same_iff j (device_id N d)).0 equal), sames), (fresh, d')))
        (λ apart. (
          (same, below.0),
          (contains-insert d m j ∙ (rw (fresh, same_comm j (device_id N d) apart)), below.1),
        ))

  pub collect-IsKeyed :
      (m : Known N) (ds : List (UsbDeviceInfo N))
      → IsKeyed m
      → IsKeyed (collect N.same m (map (keyed N) ds))
  unfolding collect keyed
  collect-IsKeyed m [] h = h
  collect-IsKeyed m (d ∷ ds) h =
      collect-IsKeyed (insert N.same (device_id N d) d m) ds (insert-IsKeyed d m h)

  pub contains-collect :
      (m : Known N) (ds : List (UsbDeviceInfo N)) (i : N.DeviceId)
      → contains N.same (keys N.same (collect N.same m (map (keyed N) ds))) i
        ≡ (contains N.same (keys N.same m) i || contains N.same (map (device_id N) ds) i)
  unfolding collect keyed contains
  contains-collect m [] i = sym (or_false_right (contains N.same (keys N.same m) i))
  contains-collect m (d ∷ ds) i =
      contains-collect (insert N.same (device_id N d) d m) ds i
      ∙ (rw (contains-insert d m i) (
          sym (
            or_assoc (contains N.same (keys N.same m) i) (N.same (device_id N d) i)
              (contains N.same (map (device_id N) ds) i))))
