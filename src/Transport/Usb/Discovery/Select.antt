-- ===== src/Transport/Usb/Discovery/Select.antt =====
-- The choice of a device and of its endpoints, against plain searches.
use rsadb.Base.{
  ℕ, ◌≡◌, refl, ◌∙◌, Bytes, Bool, true, false, if◌then◌else◌, Option, none, some, List, [], ◌∷◌,
  arith,
}
use mathlib.Core.List.{Memᴰ}
use mathlib.Core.List.Memᴰ
use rsadb.Error.{Error}
use rsadb.Transport.Usb.Nusb.{
  TransferType, control, isochronous, bulk, interrupt, Direction, in_bound, out_bound,
  EndpointDescriptor, Nusb,
}
use rsadb.Transport.Usb.Discovery.{
  get_or_insert, Addresses, keep, visit, choose, zip, both, UsbDeviceInfo, device_serial,
  adb_interface, adb_devices,
}

abbrev faces : Direction → Direction → Bool
faces in_bound in_bound = true
faces out_bound out_bound = true
faces _ _ = false

abbrev is_bulk : TransferType → Bool
is_bulk bulk = true
is_bulk _ = false

-- The address of the first bulk endpoint of a direction.
abbrev pub first_bulk : Direction → List EndpointDescriptor → Option ℕ
first_bulk d [] = none
first_bulk d (ep ∷ eps) =
    if is_bulk ep.transfer_type
    then (if faces ep.direction d then some ep.address else first_bulk d eps)
    else first_bulk d eps

abbrev or_else : Option ℕ → Option ℕ → Option ℕ
or_else none o = o
or_else (some a) o = some a

choose_none : (i o : Option ℕ) → zip i o ≡ zip (or_else i none) (or_else o none)
choose_none i o = ground arith

or_else_kept :
    (p : Option ℕ) (address : ℕ) (i : Option ℕ)
    → or_else (get_or_insert p address) i ≡ or_else p (some address)
unfolding get_or_insert
or_else_kept none address i = refl
or_else_kept (some a) address i = refl

visit_step :
    (t : TransferType) (d : Direction) (address : ℕ) (a : Addresses) (i o : Option ℕ)
    → zip (or_else (visit t d address a).in_addr i) (or_else (visit t d address a).out_addr o)
      ≡ zip
          (or_else a.in_addr
            (if is_bulk t then (if faces d in_bound then some address else i) else i))
          (or_else a.out_addr
            (if is_bulk t then (if faces d out_bound then some address else o) else o))
unfolding visit keep get_or_insert
visit_step control d address a i o = refl
visit_step isochronous d address a i o = refl
visit_step interrupt d address a i o = refl
visit_step bulk in_bound address a i o = rw (or_else_kept a.in_addr address i)
visit_step bulk out_bound address a i o = rw (or_else_kept a.out_addr address o)

choose_from :
    (a : Addresses) (eps : List EndpointDescriptor)
    → both (choose a eps)
      ≡ zip
          (or_else a.in_addr (first_bulk in_bound eps))
          (or_else a.out_addr (first_bulk out_bound eps))
unfolding choose
choose_from a [] = choose_none a.in_addr a.out_addr
choose_from a (ep ∷ eps) =
    choose_from (visit ep.transfer_type ep.direction ep.address a) eps
    ∙ visit_step ep.transfer_type ep.direction ep.address a (first_bulk in_bound eps)
        (first_bulk out_bound eps)

-- The addresses that the loop of `open` keeps are those of the first bulk endpoint of each direction,
-- and it has both just where there are both.
pub choose-first_bulk :
    (eps : List EndpointDescriptor)
    → both (choose (record { in_addr = none; out_addr = none }) eps)
      ≡ zip (first_bulk in_bound eps) (first_bulk out_bound eps)
choose-first_bulk eps = choose_from (record { in_addr = none; out_addr = none }) eps

module _ (N : Nusb) where
  -- Where the devices behind a record come from.
  abbrev pub IsFrom : List N.DeviceInfo → UsbDeviceInfo N → Type 0
  IsFrom infos d = Memᴰ d.info infos × (adb_interface N d.info ≡ some d.interface_number)

  abbrev pub IsWanted : Option Bytes → List N.DeviceInfo → UsbDeviceInfo N → Type 0
  IsWanted none infos d = adb_devices N infos ≡ d ∷ []
  IsWanted (some w) infos d = device_serial N d ≡ some w
