-- ===== src/Transport/Usb/Nusb.antt =====
-- What src/transport/usb and src/track.rs use of the crate `nusb`. It is not part of the repository:
-- its types and functions are parameters, with the equality of device ids as the one law.
use rsadb.Base.{ℕ, ◌≡◌, ◌↔◌, ◌⊎◌, Bytes, Bool, true, Option, List}

-- `ErrorKind`; the crate may add kinds, which the source treats like `other`.
pub data ErrorKind : Type 0 where
  unplugged : ErrorKind
  busy : ErrorKind
  permission_denied : ErrorKind
  not_found : ErrorKind
  unsupported_call : ErrorKind
  other : ErrorKind

pub record NusbError : Type 0 where
  pub kind : ErrorKind
  pub text : Bytes

pub data TransferType : Type 0 where
  control : TransferType
  isochronous : TransferType
  bulk : TransferType
  interrupt : TransferType

pub data Direction : Type 0 where
  in_bound : Direction
  out_bound : Direction

pub record InterfaceInfo : Type 0 where
  pub interface_number : ℕ
  pub class : ℕ
  pub subclass : ℕ
  pub protocol : ℕ

pub record EndpointDescriptor : Type 0 where
  pub address : ℕ
  pub transfer_type : TransferType
  pub direction : Direction

pub record Nusb : Type 1 where
  pub DeviceInfo : Type 0
  pub DeviceId : Type 0
  pub same : DeviceId → DeviceId → Bool
  pub same_iff : (a b : DeviceId) → (same a b ≡ true) ↔ (a ≡ b)
  pub id : DeviceInfo → DeviceId
  pub serial_number : DeviceInfo → Option Bytes
  pub interfaces : DeviceInfo → List InterfaceInfo
  pub Device : Type 0
  pub Interface : Type 0
  pub BulkIn : Type 0
  pub BulkOut : Type 0
  pub open_device : DeviceInfo → NusbError ⊎ Device
  pub detach_and_claim_interface : Device → ℕ → NusbError ⊎ Interface
  pub endpoints : Interface → Option (List EndpointDescriptor)
  pub endpoint_in : Interface → ℕ → NusbError ⊎ BulkIn
  pub endpoint_out : Interface → ℕ → NusbError ⊎ BulkOut
