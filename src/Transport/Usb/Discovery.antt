-- ===== src/Transport/Usb/Discovery.antt =====
-- src/transport/usb/mod.rs: the attached ADB devices, and the claim of one device's interface.
pub mod Select
use rsadb.Base.{
  ℕ, ◌⊎◌, inl, inr, Bytes, ascii, bytes_eq, length, Bool, true, false, ◌&&◌, ◌==◌, if◌then◌else◌,
  Option, none, some, List, [], ◌∷◌, ◌++◌,
}
use rsadb.Error.{
  Result, ok, err, Error, disconnected, claim_failed, usb, no_device, outside, no_descriptor,
  no_bulk_endpoints, ◌>>=◌, ok_or,
}
use rsadb.Text.Decimal.{decimal}
use rsadb.Transport.Usb.Nusb.{
  NusbError, ErrorKind, unplugged, busy, permission_denied, TransferType, bulk, Direction, in_bound,
  out_bound, InterfaceInfo, EndpointDescriptor, Nusb,
}

abbrev pub adb_class : ℕ
adb_class = 0xFF

abbrev pub adb_subclass : ℕ
adb_subclass = 0x42

abbrev pub adb_protocol : ℕ
adb_protocol = 0x01

unfoldable pub is_adb : InterfaceInfo → Bool
is_adb i = (i.class == adb_class && i.subclass == adb_subclass) && i.protocol == adb_protocol

unfoldable pub first_adb : List InterfaceInfo → Option ℕ
first_adb [] = none
first_adb (i ∷ is) = if is_adb i then some i.interface_number else first_adb is

unfoldable pub map_kind : ErrorKind → Bytes → Error
map_kind busy text = claim_failed (outside text)
map_kind permission_denied text = claim_failed (outside text)
map_kind unplugged text = disconnected
map_kind _ text = usb (outside text)

unfoldable pub map_usb {ℓ} : {A : Type ℓ} → NusbError ⊎ A → Result A
map_usb (inl e) = err (map_kind e.kind e.text)
map_usb (inr a) = ok a

-- `get_or_insert`
unfoldable pub get_or_insert {ℓ} : {A : Type ℓ} → Option A → A → Option A
get_or_insert none a = some a
get_or_insert (some b) a = some b

-- The addresses kept for the two directions.
pub record Addresses : Type 0 where
  pub in_addr : Option ℕ
  pub out_addr : Option ℕ

keep : Direction → ℕ → Addresses → Addresses
unfolding get_or_insert
keep in_bound address a = record a { in_addr = get_or_insert a.in_addr address }
keep out_bound address a = record a { out_addr = get_or_insert a.out_addr address }

visit : TransferType → Direction → ℕ → Addresses → Addresses
unfolding keep
visit bulk direction address a = keep direction address a
visit _ direction address a = a

-- The loop of `open` over the endpoints.
unfoldable pub choose : Addresses → List EndpointDescriptor → Addresses
unfolding visit
choose a [] = a
choose a (ep ∷ eps) = choose (visit ep.transfer_type ep.direction ep.address a) eps

unfoldable pub zip : Option ℕ → Option ℕ → Option (ℕ × ℕ)
zip (some a) (some b) = some (a, b)
zip _ _ = none

abbrev pub both : Addresses → Option (ℕ × ℕ)
both a = zip a.in_addr a.out_addr

module _ (N : Nusb) where
  pub record UsbDeviceInfo : Type 0 where
    pub info : N.DeviceInfo
    pub interface_number : ℕ

  -- `UsbDeviceInfo::id` and `UsbDeviceInfo::serial`
  abbrev pub device_id : UsbDeviceInfo → N.DeviceId
  device_id d = N.id d.info

  abbrev pub device_serial : UsbDeviceInfo → Option Bytes
  device_serial d = N.serial_number d.info

  unfoldable pub adb_interface : N.DeviceInfo → Option ℕ
  adb_interface info = first_adb (N.interfaces info)

  with_interface : N.DeviceInfo → Option ℕ → List UsbDeviceInfo → List UsbDeviceInfo
  with_interface info none ds = ds
  with_interface info (some n) ds = record { info = info; interface_number = n } ∷ ds

  unfoldable pub adb_devices : List N.DeviceInfo → List UsbDeviceInfo
  unfolding with_interface
  adb_devices [] = []
  adb_devices (info ∷ infos) = with_interface info (adb_interface info) (adb_devices infos)

  unfoldable pub list : NusbError ⊎ List N.DeviceInfo → Result (List UsbDeviceInfo)
  list listed = do infos ← map_usb listed; ok (adb_devices infos)

  has_serial : Bytes → Option Bytes → Bool
  has_serial wanted none = false
  has_serial wanted (some s) = bytes_eq s wanted

  unfoldable pub first_serial : Bytes → List UsbDeviceInfo → Option UsbDeviceInfo
  unfolding has_serial
  first_serial wanted [] = none
  first_serial wanted (d ∷ ds) =
      if has_serial wanted (device_serial d) then some d else first_serial wanted ds

  unfoldable pub only : List UsbDeviceInfo → Result UsbDeviceInfo
  only [] = err (no_device none)
  only (d ∷ []) = ok d
  only (d ∷ e ∷ ds) =
      err (
        no_device
          (some (decimal (length (d ∷ e ∷ ds)) ++ ascii " devices attached, pass a serial")))

  select : Option Bytes → List UsbDeviceInfo → Result UsbDeviceInfo
  unfolding first_serial only
  select none ds = only ds
  select (some wanted) ds =
      ok_or (first_serial wanted ds) (no_device (some (ascii "serial " ++ wanted)))

  unfoldable pub find : NusbError ⊎ List N.DeviceInfo → Option Bytes → Result UsbDeviceInfo
  unfolding select
  find listed serial = do devices ← list listed; select serial devices

  -- What `open` hands to `UsbTransport::new`.
  pub record Claimed : Type 0 where
    pub device : N.Device
    pub interface : N.Interface
    pub bulk_in : N.BulkIn
    pub bulk_out : N.BulkOut

  unfoldable pub open_interface : UsbDeviceInfo → Result Claimed
  open_interface device = do
    handle ← map_usb (N.open_device device.info)
    interface ← map_usb (N.detach_and_claim_interface handle device.interface_number)
    eps ← ok_or (N.endpoints interface) (usb no_descriptor)
    addresses ←
        ok_or (both (choose (record { in_addr = none; out_addr = none }) eps))
          (usb no_bulk_endpoints)
    bulk_in ← map_usb (N.endpoint_in interface addresses.0)
    bulk_out ← map_usb (N.endpoint_out interface addresses.1)
    ok (record { device = handle; interface = interface; bulk_in = bulk_in; bulk_out = bulk_out })
