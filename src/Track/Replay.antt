-- ===== src/Track/Replay.antt =====
-- The event streams, replayed by an observer that keeps the set of the attached devices.
use rsadb.Base.{
  ◌≡◌, refl, sym, ap, ◌∙◌, ◌⊎◌, Bool, true, false, not, ◌&&◌, ◌||◌, if◌then◌else◌, Option, none,
  some, All, List, [], ◌∷◌, ◌++◌, map,
}
use mathlib.Core.Path.{fun_ext}
use rsadb.Error.{Result, ok, err}
use rsadb.Transport.Usb.Nusb.{NusbError, Nusb}
use rsadb.Transport.Usb.Discovery.{UsbDeviceInfo, device_id, list}
use rsadb.Track.{
  contains, removed, keys, collect, added, diff, UsbEvent, attached, detached, Known, keyed, attach,
  detach, events_of, poll, poll_from, poll_usb,
}
use rsadb.Track.Sets.{
  or_false, and_not-or, and_true, or_false_right, or_rotate, settle, same_comm, Distinct,
  contains-removed, removed-Distinct, removed_all, All-removed, contains_self, IsKeyed,
  added-removed, collect-IsKeyed, contains-collect,
}

module _ (N : Nusb) where
  -- A set of devices: what is in it.
  abbrev pub DeviceSet : Type 0
  DeviceSet = N.DeviceId → Bool

  abbrev pub empty : DeviceSet
  empty i = false

  abbrev pub with_id : N.DeviceId → DeviceSet → DeviceSet
  with_id id s i = N.same id i || s i

  abbrev pub without_id : N.DeviceId → DeviceSet → DeviceSet
  without_id id s i = s i && not (N.same id i)

  -- A device that is attached was absent, one that is detached was present.
  abbrev pub observe : UsbEvent N → DeviceSet → Option DeviceSet
  observe (attached d) s = if s (device_id N d) then none else some (with_id (device_id N d) s)
  observe (detached id) s = if s id then some (without_id id s) else none

  -- An error tells the observer nothing.
  abbrev pub observe_item : Result (UsbEvent N) → DeviceSet → Option DeviceSet
  observe_item (err e) s = some s
  observe_item (ok event) s = observe event s

  abbrev pub next : Option DeviceSet → (DeviceSet → Option DeviceSet) → Option DeviceSet
  next none go = none
  next (some s) go = go s

  abbrev pub replay : List (Result (UsbEvent N)) → DeviceSet → Option DeviceSet
  replay [] s = some s
  replay (item ∷ items) s = next (observe_item item s) (λ t. replay items t)

  next-append :
      (es fs : List (Result (UsbEvent N))) (t : DeviceSet)
      → ((u : DeviceSet) → replay es u ≡ some t → replay (es ++ fs) u ≡ replay fs t)
      → (o : Option DeviceSet) → next o (λ u. replay es u) ≡ some t
      → next o (λ u. replay (es ++ fs) u) ≡ replay fs t
  next-append es fs t go none h = cc
  next-append es fs t go (some u) h = go u h

  replay-append :
      (es fs : List (Result (UsbEvent N))) (s t : DeviceSet)
      → replay es s ≡ some t
      → replay (es ++ fs) s ≡ replay fs t
  replay-append [] fs s t h = let same : s ≡ t = cc in ap (λ u. replay fs u) same
  replay-append (e ∷ es) fs s t h =
      next-append es fs t (λ u. replay-append es fs u t) (observe_item e s) h

  -- The members of a list see no change at an id that is not in it.
  kept_all :
      (j : N.DeviceId) (is : List N.DeviceId) (s t : DeviceSet) (b : Bool)
      → contains N.same is j ≡ false
      → ((i : N.DeviceId) → N.same j i ≡ false → t i ≡ s i)
      → All (λ i. s i ≡ b) is
      → All (λ i. t i ≡ b) is
  unfolding contains
  kept_all j [] s t b h k a = tt
  kept_all j (i ∷ is) s t b h k (a, as') =
      let apart = or_false (N.same i j) (contains N.same is j) h in
      (k i (same_comm N i j apart.0) ∙ a, kept_all j is s t b apart.1 k as')

  -- Devices of the set, detached one by one.
  replay-detach :
      (is : List N.DeviceId) (s t : DeviceSet)
      → Distinct N is
      → All (λ i. s i ≡ true) is
      → ((i : N.DeviceId) → t i ≡ (s i && not (contains N.same is i)))
      → replay (map (detach N) is) s ≡ some t
  unfolding detach contains
  replay-detach [] s t d h k = ap some (fun_ext (λ i. sym (k i ∙ and_true (s i))))
  replay-detach (j ∷ is) s t (fresh, d) (here, h) k = rw here (
      replay-detach is (without_id j s) t d
        (kept_all j is s (without_id j s) true fresh (λ i e. rw e (and_true (s i))) h)
        (λ i. k i ∙ and_not-or (s i) (N.same j i) (contains N.same is i)))

  -- Devices outside the set, attached one by one.
  replay-attach :
      (ds : List (UsbDeviceInfo N)) (s t : DeviceSet)
      → Distinct N (map (device_id N) ds)
      → All (λ i. s i ≡ false) (map (device_id N) ds)
      → ((i : N.DeviceId) → t i ≡ (s i || contains N.same (map (device_id N) ds) i))
      → replay (map (attach N) ds) s ≡ some t
  unfolding attach contains
  replay-attach [] s t d h k = ap some (fun_ext (λ i. sym (k i ∙ or_false_right (s i))))
  replay-attach (j ∷ is) s t (fresh, d) (here, h) k = rw here (
      replay-attach is (with_id (device_id N j) s) t d
        (kept_all (device_id N j) (map (device_id N) is) s (with_id (device_id N j) s) false fresh
          (λ i e. rw e) h)
        (λ i.
          k i
          ∙ or_rotate (s i) (N.same (device_id N j) i) (contains N.same (map (device_id N) is) i)))

  still_outside :
      (gone : List N.DeviceId) (s : DeviceSet) (is : List N.DeviceId)
      → All (λ i. s i ≡ false) is
      → All (λ i. (s i && not (contains N.same gone i)) ≡ false) is
  still_outside gone s [] h = tt
  still_outside gone s (i ∷ is) (h, hs) = (rw h, still_outside gone s is hs)

  -- The events between two snapshots lead from the one to the other.
  replay-diff :
      (m n : Known N)
      → IsKeyed N m
      → IsKeyed N n
      → replay (events_of N (diff N.same m n)) (contains N.same (keys N.same m))
        ≡ some (contains N.same (keys N.same n))
  unfolding events_of diff
  replay-diff m n (_, dm) (kn, dn) =
      let ms = keys N.same m in
      let ns = keys N.same n in
      let before : DeviceSet = contains N.same ms in
      let gone = removed N.same ns ms in
      let come = added N.same ms n in
      let between : DeviceSet = λ i. before i && not (contains N.same gone i) in
      replay-append (map (detach N) gone) (map (attach N) come) before between (
        replay-detach gone before between (removed-Distinct N ns ms dm)
          (All-removed N (λ i. before i ≡ true) ns ms (contains_self N ms)) (λ i. refl))
      ∙ replay-attach come between (contains N.same ns)
          (rw (added-removed N ms n kn) (removed-Distinct N ms ns dn))
          (rw (added-removed N ms n kn)
            (still_outside gone before (removed N.same ms ns) (removed_all N ms ns)))
          (λ i.
            rw (added-removed N ms n kn, contains-removed N ms ns i, contains-removed N ns ms i)
              (settle (before i) (contains N.same ns i)))

  -- The devices of the last enumeration that succeeded; those of before where none did.
  abbrev pub listed_now : Result (List (UsbDeviceInfo N)) → DeviceSet → DeviceSet
  listed_now (err e) s = s
  listed_now (ok ds) s = contains N.same (map (device_id N) ds)

  abbrev pub last_listed : List (NusbError ⊎ List N.DeviceInfo) → DeviceSet → DeviceSet
  last_listed [] s = s
  last_listed (listed ∷ later) s = last_listed later (listed_now (list N listed) s)

  poll_step :
      (known : Known N) (listed : Result (List (UsbDeviceInfo N)))
      → IsKeyed N known
      → (replay (poll N known listed).0 (contains N.same (keys N.same known))
          ≡ some (contains N.same (keys N.same (poll N known listed).1)))
        × ((contains N.same (keys N.same (poll N known listed).1)
              ≡ listed_now listed (contains N.same (keys N.same known)))
            × IsKeyed N (poll N known listed).1)
  unfolding poll contains
  poll_step known (err e) h = (refl, (refl, h))
  poll_step known (ok ds) h =
      let current = collect N.same [] (map (keyed N) ds) in
      let kept : IsKeyed N current = collect-IsKeyed N [] ds (tt, tt) in
      (replay-diff known current h kept, (fun_ext (contains-collect N [] ds), kept))

  poll_from-last_listed :
      (outcomes : List (NusbError ⊎ List N.DeviceInfo)) (known : Known N)
      → IsKeyed N known
      → replay (poll_from N known outcomes) (contains N.same (keys N.same known))
        ≡ some (last_listed outcomes (contains N.same (keys N.same known)))
  unfolding poll_from
  poll_from-last_listed [] known h = refl
  poll_from-last_listed (listed ∷ later) known h =
      let turn = poll N known (list N listed) in
      let (moved, (now, kept)) = poll_step known (list N listed) h in
      replay-append turn.0 (poll_from N turn.1 later) (contains N.same (keys N.same known))
        (contains N.same (keys N.same turn.1)) moved
      ∙ (poll_from-last_listed later turn.1 kept ∙ ap (λ s. some (last_listed later s)) now)

  -- An observer that starts with no device and replays all events of the polling stream never sees
  -- a device attached that it has, or one detached that it lacks, and ends with the devices of the
  -- last enumeration that succeeded (with none where all have failed).
  pub poll_usb-last_listed :
      (outcomes : List (NusbError ⊎ List N.DeviceInfo))
      → replay (poll_usb N outcomes) empty ≡ some (last_listed outcomes empty)
  unfolding poll_usb
  poll_usb-last_listed outcomes = unfold contains in poll_from-last_listed outcomes [] (tt, tt)
