-- ===== src/Track.antt =====
-- src/track.rs: the events of attached and detached ADB devices.
-- The enumerations that `poll_usb` makes, and the events that the hotplug watch gives, are lists:
-- the streams end where these do. A `HashMap` is an association list that keeps the order of the
-- insertions, a `HashSet` a list of its elements.
pub mod Sets
pub mod Replay
pub mod Hotplug
use rsadb.Base.{
  ℕ, ◌⊎◌, inl, inr, Bool, true, false, not, ◌||◌, if◌then◌else◌, Option, none, some, List, [], ◌∷◌,
  ◌++◌, map,
}
use rsadb.Error.{Result, ok, err, Error, usb, outside}
use rsadb.Transport.Usb.Nusb.{NusbError, Nusb}
use rsadb.Transport.Usb.Discovery.{UsbDeviceInfo, device_id, adb_interface, list}

module _ {Key : Type 0} (same : Key → Key → Bool) where
  unfoldable pub contains : List Key → Key → Bool
  contains [] k = false
  contains (j ∷ js) k = same j k || contains js k

  -- `HashSet::remove`
  unfoldable pub remove : Key → List Key → List Key
  remove k [] = []
  remove k (j ∷ js) = let rest = remove k js in if same j k then rest else j ∷ rest

  -- `HashSet::insert`
  unfoldable pub insert_id : Key → List Key → List Key
  insert_id k js = if contains js k then js else k ∷ js

  unfoldable pub removed : List Key → List Key → List Key
  removed current [] = []
  removed current (k ∷ ks) =
      let rest = removed current ks in if contains current k then rest else k ∷ rest

  module _ {Value : Type 0} where
    abbrev pub keys : List (Key × Value) → List Key
    keys [] = []
    keys ((k, v) ∷ m) = k ∷ keys m

    -- `HashMap::insert`
    unfoldable pub insert : Key → Value → List (Key × Value) → List (Key × Value)
    insert k v [] = (k, v) ∷ []
    insert k v ((j, w) ∷ m) =
        let rest = insert k v m in if same j k then (j, v) ∷ m else (j, w) ∷ rest

    unfoldable pub collect : List (Key × Value) → List (Key × Value) → List (Key × Value)
    collect m [] = m
    collect m ((k, v) ∷ kvs) = collect (insert k v m) kvs

    unfoldable pub added : List Key → List (Key × Value) → List Value
    added previous [] = []
    added previous ((k, v) ∷ m) =
        let rest = added previous m in if contains previous k then rest else v ∷ rest

    unfoldable pub diff : List (Key × Value) → List (Key × Value) → List Value × List Key
    unfolding added removed
    diff previous current = (added (keys previous) current, removed (keys current) (keys previous))

module _ (N : Nusb) where
  pub data UsbEvent : Type 0 where
    attached : UsbDeviceInfo N → UsbEvent
    detached : N.DeviceId → UsbEvent

  pub data HotplugEvent : Type 0 where
    connected : N.DeviceInfo → HotplugEvent
    disconnected : N.DeviceId → HotplugEvent

  abbrev pub Known : Type 0
  Known = List (N.DeviceId × UsbDeviceInfo N)

  pub keyed : UsbDeviceInfo N → N.DeviceId × UsbDeviceInfo N
  keyed d = (device_id N d, d)

  attach : UsbDeviceInfo N → Result UsbEvent
  attach d = ok (attached d)

  detach : N.DeviceId → Result UsbEvent
  detach id = ok (detached id)

  unfoldable pub events_of : List (UsbDeviceInfo N) × List N.DeviceId → List (Result UsbEvent)
  unfolding attach detach
  events_of (added, removed) = map detach removed ++ map attach added

  -- One turn of `poll_usb`: the events, and the devices known from now on.
  unfoldable pub poll : Known → Result (List (UsbDeviceInfo N)) → List (Result UsbEvent) × Known
  unfolding diff collect keyed
  poll known (err e) = (err e ∷ [], known)
  poll known (ok devices) =
      let current = collect N.same [] (map keyed devices) in
      (events_of (diff N.same known current), current)

  unfoldable pub poll_from : Known → List (NusbError ⊎ List N.DeviceInfo) → List (Result UsbEvent)
  unfolding poll
  poll_from known [] = []
  poll_from known (listed ∷ later) =
      let turn = poll known (list N listed) in turn.0 ++ poll_from turn.1 later

  unfoldable pub poll_usb : List (NusbError ⊎ List N.DeviceInfo) → List (Result UsbEvent)
  unfolding poll_from
  poll_usb = poll_from []

  connect :
      N.DeviceInfo
      → Option ℕ
      → List N.DeviceId
      → (List N.DeviceId → List (Result UsbEvent))
      → List (Result UsbEvent)
  connect info none known later = later known
  connect info (some n) known later =
      ok (attached (record { info = info; interface_number = n }))
      ∷ later (insert_id N.same (N.id info) known)

  unfoldable pub hotplug_events : List N.DeviceId → List HotplugEvent → List (Result UsbEvent)
  unfolding connect insert_id remove contains
  hotplug_events known [] = []
  hotplug_events known (connected info ∷ events) =
      connect info (adb_interface N info) known (λ ids. hotplug_events ids events)
  hotplug_events known (disconnected id ∷ events) =
      let rest = hotplug_events (remove N.same id known) events in
      if contains N.same known id then ok (detached id) ∷ rest else rest

  watched : Result (List (UsbDeviceInfo N)) → List HotplugEvent → List (Result UsbEvent)
  unfolding hotplug_events attach
  watched (err e) events = err e ∷ []
  watched (ok devices) events =
      map attach devices ++ hotplug_events (map (device_id N) devices) events

  -- The watch is opened before the devices are listed.
  unfoldable pub watch_usb :
      NusbError ⊎ List HotplugEvent
      → NusbError ⊎ List N.DeviceInfo
      → Result (List (Result UsbEvent))
  unfolding watched
  watch_usb (inl e) listed = err (usb (outside e.text))
  watch_usb (inr events) listed = ok (watched (list N listed) events)
