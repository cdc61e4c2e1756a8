-- ===== src/Examples/Discovery.antt =====
-- src/transport/usb/mod.rs and src/track.rs over concrete devices.
use rsadb.Base.{
  ℕ, ◌≡◌, ◌⊎◌, inl, inr, Bytes, ascii, ◌==◌, ==_iff, Option, none, some, List, [], ◌∷◌, map,
}
use rsadb.Error.{Result, ok}
use rsadb.Transport.Usb.Nusb.{
  NusbError, busy, Nusb, InterfaceInfo, EndpointDescriptor, bulk, interrupt, in_bound, out_bound,
}
use rsadb.Transport.Usb.Discovery.{UsbDeviceInfo, choose, both, zip, adb_devices, device_id}
use rsadb.Transport.Usb.Discovery.Select.{first_bulk, choose-first_bulk}
use rsadb.Track.{UsbEvent, HotplugEvent, connected, disconnected, contains, poll_usb, watch_usb}
use rsadb.Track.Replay.{empty, replay, last_listed, poll_usb-last_listed}
use rsadb.Track.Hotplug.{follow, present, watch_usb-follow}

record Plugged : Type 0 where
  pub number : ℕ
  pub serial : Option Bytes
  pub faces : List InterfaceInfo

abbrev refused : NusbError
refused = record { kind = busy; text = ascii "busy" }

abbrev bench : Nusb
bench = record {
  DeviceInfo = Plugged;
  DeviceId = ℕ;
  same = ◌==◌;
  same_iff = ==_iff;
  id = λ d. d.number;
  serial_number = λ d. d.serial;
  interfaces = λ d. d.faces;
  Device = ℕ;
  Interface = ℕ;
  BulkIn = ℕ;
  BulkOut = ℕ;
  open_device = λ d. inr d.number;
  detach_and_claim_interface = λ d n. inr n;
  endpoints = λ i. none;
  endpoint_in = λ i a. inr a;
  endpoint_out = λ i a. inl refused;
}

abbrev mtp : InterfaceInfo
mtp = record { interface_number = 0; class = 6; subclass = 1; protocol = 1 }

abbrev adb : InterfaceInfo
adb = record { interface_number = 1; class = 0xFF; subclass = 0x42; protocol = 1 }

abbrev phone : Plugged
phone = record { number = 3; serial = some (ascii "R5CT1"); faces = mtp ∷ adb ∷ [] }

abbrev mouse : Plugged
mouse = record { number = 4; serial = none; faces = [] }

abbrev tablet : Plugged
tablet = record { number = 5; serial = some (ascii "T7"); faces = adb ∷ [] }

abbrev ends : List EndpointDescriptor
ends =
    record { address = 0x83; transfer_type = interrupt; direction = in_bound }
    ∷ record { address = 0x81; transfer_type = bulk; direction = in_bound }
    ∷ record { address = 0x02; transfer_type = bulk; direction = out_bound }
    ∷ record { address = 0x82; transfer_type = bulk; direction = in_bound }
    ∷ []

choose-first_bulk_example :
    both (choose (record { in_addr = none; out_addr = none }) ends)
    ≡ zip (first_bulk in_bound ends) (first_bulk out_bound ends)
choose-first_bulk_example = choose-first_bulk ends

abbrev found : UsbDeviceInfo bench
found = record { info = tablet; interface_number = 1 }

abbrev listings : List (NusbError ⊎ List Plugged)
listings = inr (phone ∷ mouse ∷ []) ∷ inl refused ∷ inr (tablet ∷ tablet ∷ []) ∷ []

poll_usb-last_listed_example :
    replay bench (poll_usb bench listings) (empty bench)
    ≡ some (last_listed bench listings (empty bench))
poll_usb-last_listed_example = poll_usb-last_listed bench listings

abbrev happenings : List (HotplugEvent bench)
happenings =
    connected mouse ∷ disconnected 9 ∷ connected tablet ∷ disconnected 3 ∷ connected phone ∷ []

watch_usb-follow_example :
    (items : List (Result (UsbEvent bench))) × (watch_usb bench (inr happenings) (inr (phone ∷ []))
      ≡ ok items)
    × (follow bench items (empty bench)
        ≡ some (
            present bench happenings
              (contains (λ a b. a == b) (map (device_id bench) (adb_devices bench (phone ∷ []))))))
watch_usb-follow_example = watch_usb-follow bench happenings (phone ∷ [])
