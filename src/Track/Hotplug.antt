-- ===== src/Track/Hotplug.antt =====
-- `watch_usb` and its hotplug events, against the set of the devices that are attached.
use rsadb.Base.{
  ◌≡◌, refl, sym, ap, ◌∙◌, inr, Bool, true, false, not, ◌&&◌, ◌||◌, if◌then◌else◌, Bool-cases, inl,
  if_holds, Option, none, some, List, [], ◌∷◌, ◌++◌, map, ℕ, arith,
}
use mathlib.Core.Path.{fun_ext}
use rsadb.Error.{Result, ok, err}
use rsadb.Transport.Usb.Nusb.{Nusb}
use rsadb.Transport.Usb.Discovery.{
  UsbDeviceInfo, device_id, adb_interface, adb_devices, list, map_usb,
}
use rsadb.Track.{
  contains, remove, insert_id, UsbEvent, attached, detached, HotplugEvent, connected, disconnected,
  connect, attach, hotplug_events, watched, watch_usb,
}
use rsadb.Track.Sets.{same_comm, contains_same, skipped, taken, or_false_right}
use rsadb.Track.Replay.{DeviceSet, empty, with_id, without_id, next}

kept_out : (a b : Bool) → (a ≡ true → b ≡ true) → b ≡ (a || b)
kept_out true b h = h refl
kept_out false b h = refl

or_swap : (a b c : Bool) → (b || (a || c)) ≡ ((a || b) || c)
or_swap a b c = ground arith

and_not : (a b : Bool) → (b ≡ true → a ≡ false) → a ≡ (a && not b)
and_not a true h = rw (h refl)
and_not true false h = refl
and_not false false h = refl

module _ (N : Nusb) where
  -- Only a device that is present can go away; a device may be reported again.
  abbrev pub follow_item : Result (UsbEvent N) → DeviceSet N → Option (DeviceSet N)
  follow_item (err e) s = some s
  follow_item (ok (attached d)) s = some (with_id N (device_id N d) s)
  follow_item (ok (detached id)) s = if s id then some (without_id N id s) else none

  abbrev pub follow : List (Result (UsbEvent N)) → DeviceSet N → Option (DeviceSet N)
  follow [] s = some s
  follow (item ∷ items) s = next N (follow_item item s) (λ t. follow items t)

  -- What the events of the operating system leave attached.
  abbrev with_adb : N.DeviceInfo → Option ℕ → DeviceSet N → DeviceSet N
  with_adb info none s = s
  with_adb info (some n) s = with_id N (N.id info) s

  abbrev pub present : List (HotplugEvent N) → DeviceSet N → DeviceSet N
  present [] s = s
  present (connected info ∷ events) s = present events (with_adb info (adb_interface N info) s)
  present (disconnected id ∷ events) s = present events (without_id N id s)

  contains-insert_id :
      (k : N.DeviceId) (ks : List N.DeviceId)
      → contains N.same (insert_id N.same k ks) ≡ with_id N k (contains N.same ks)
  unfolding insert_id contains
  contains-insert_id k ks =
      if_holds (λ l. contains N.same l ≡ with_id N k (contains N.same ks)) (contains N.same ks k) ks
        (k ∷ ks)
        (λ here. fun_ext (λ i.
          kept_out (N.same k i) (contains N.same ks i) (λ e. contains_same N ks k i e ∙ here)))
        (λ _. refl)

  contains-remove :
      (k : N.DeviceId) (ks : List N.DeviceId) (i : N.DeviceId)
      → contains N.same (remove N.same k ks) i ≡ (contains N.same ks i && not (N.same k i))
  unfolding remove contains
  contains-remove k [] i = refl
  contains-remove k (j ∷ js) i =
      if_holds
        (λ l. contains N.same l i ≡ ((N.same j i || contains N.same js i) && not (N.same k i)))
        (N.same j k) (remove N.same k js) (j ∷ remove N.same k js)
        (λ equal.
          contains-remove k js i
          ∙ skipped (N.same j i) (contains N.same js i) (N.same k i)
              (λ e. rw (← (N.same_iff j k).0 equal) e))
        (λ apart.
          ap (◌||◌ (N.same j i)) (contains-remove k js i)
          ∙ taken (N.same j i) (contains N.same js i) (N.same k i)
              (λ e. rw (← (N.same_iff j i).0 e) (same_comm N j k apart)))

  forgotten :
      (k : N.DeviceId) (ks : List N.DeviceId)
      → contains N.same (remove N.same k ks) ≡ without_id N k (contains N.same ks)
  forgotten k ks = fun_ext (contains-remove k ks)

  absent_stays : (k : N.DeviceId) (s : DeviceSet N) → s k ≡ false → s ≡ without_id N k s
  absent_stays k s h =
      fun_ext (λ i. and_not (s i) (N.same k i) (λ e. rw (← (N.same_iff k i).0 e) h))

  -- What is followed from the ids that stay known.
  Follows : List (HotplugEvent N) → Type 0
  Follows events =
      (known : List N.DeviceId)
      → follow (hotplug_events N known events) (contains N.same known)
        ≡ some (present events (contains N.same known))

  follow-connect :
      (info : N.DeviceInfo) (o : Option ℕ) (events : List (HotplugEvent N))
      (known : List N.DeviceId)
      → Follows events
      → follow (connect N info o known (λ ids. hotplug_events N ids events)) (contains N.same known)
        ≡ some (present events (with_adb info o (contains N.same known)))
  unfolding connect Follows
  follow-connect info none events known go = go known
  follow-connect info (some n) events known go =
      rw (← contains-insert_id (N.id info) known) (go (insert_id N.same (N.id info) known))

  follow-disconnect :
      (id : N.DeviceId) (events : List (HotplugEvent N)) (known : List N.DeviceId)
      → Follows events
      → follow (hotplug_events N known (disconnected id ∷ events)) (contains N.same known)
        ≡ some (present events (without_id N id (contains N.same known)))
  unfolding hotplug_events Follows
  follow-disconnect id events known go = elim (Bool-cases (contains N.same known id)) [
    | inl e ↦ rw e (rw (e, ← forgotten id known) (go (remove N.same id known)))
    | inr e ↦ rw e (
        let same = absent_stays id (contains N.same known) e ∙ sym (forgotten id known) in
        ap (λ s. follow (hotplug_events N (remove N.same id known) events) s) same
        ∙ (go (remove N.same id known) ∙ ap (λ s. some (present events s)) (forgotten id known)))
  ]

  hotplug_events-follow : (events : List (HotplugEvent N)) → Follows events
  unfolding Follows hotplug_events
  hotplug_events-follow [] known = refl
  hotplug_events-follow (connected info ∷ events) known =
      follow-connect info (adb_interface N info) events known (hotplug_events-follow events)
  hotplug_events-follow (disconnected id ∷ events) known =
      follow-disconnect id events known (hotplug_events-follow events)

  -- The initial snapshot, whatever the observer has.
  follow-attach :
      (ds : List (UsbDeviceInfo N)) (items : List (Result (UsbEvent N))) (s : DeviceSet N)
      → follow (map (attach N) ds ++ items) s
        ≡ follow items (λ i. contains N.same (map (device_id N) ds) i || s i)
  unfolding attach
  follow-attach [] items s = unfold contains in refl
  follow-attach (d ∷ ds) items s =
      follow-attach ds items (with_id N (device_id N d) s)
      ∙ ap (λ t. follow items t)
          (fun_ext (λ i.
            unfold contains in
            or_swap (N.same (device_id N d) i) (contains N.same (map (device_id N) ds) i) (s i)))

  -- For a watch that opens and an enumeration that succeeds, `watch_usb` gives a stream. An observer
  -- that starts with no device and follows it sees a device go away only where it has it, and ends
  -- with the devices that the enumeration and the events of the operating system leave attached.
  pub watch_usb-follow :
      (events : List (HotplugEvent N)) (infos : List N.DeviceInfo)
      → (items : List (Result (UsbEvent N))) × (watch_usb N (inr events) (inr infos) ≡ ok items)
        × (follow items (empty N)
            ≡ some (present events (contains N.same (map (device_id N) (adb_devices N infos)))))
  unfolding watch_usb watched list map_usb
  watch_usb-follow events infos =
      let ds = adb_devices N infos in
      let ids = map (device_id N) ds in
      (
        map (attach N) ds ++ hotplug_events N ids events,
        refl,
        (follow-attach ds (hotplug_events N ids events) (empty N)
            ∙ (ap (λ s. follow (hotplug_events N ids events) s)
                  (fun_ext (λ i. or_false_right (contains N.same ids i)))
                ∙ (unfold Follows in hotplug_events-follow events ids))),
      )
