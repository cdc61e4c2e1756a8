-- ===== src/Host/Proto/Devices.antt =====
-- The lists of devices that `parse_devices` of src/host/proto.rs reads, as the server prints them.
use rsadb.Base.{
  ℕ, ◌<◌, ◌≡◌, ◌≢◌, refl, ap, ◌∙◌, Bytes, All, All-append, map, some, length, ◌≤◌, List, [], ◌∷◌,
  ◌++◌, arith,
}
use rsadb.Text.{join}
use rsadb.Text.Laws.{Without, split_once-append, print_lines, IsLine, lines-print_lines}
use rsadb.Text.Lossy.{from_utf8_lossy, from_utf8_lossy-ascii}
use rsadb.Text.White.{IsWord, IsWordByte, split_whitespace, split_whitespace-join}
use rsadb.Host.Proto.{DeviceEntry, parse_devices, attributes_of, entry_of, entries_of}

abbrev print_attribute : Bytes × Bytes → Bytes
print_attribute (key, value) = key ++ (b':' ∷ value)

-- The words of a line of `host:devices-l`.
abbrev words_of : DeviceEntry → List Bytes
words_of d = d.serial ∷ d.state ∷ map print_attribute d.attributes

abbrev print_device : DeviceEntry → Bytes
print_device d = join (b' ' ∷ []) (words_of d)

abbrev pub print_devices : List DeviceEntry → Bytes
print_devices ds = print_lines (map print_device ds)

-- An attribute of words; no colon is in its key.
abbrev pub IsAttribute : Bytes × Bytes → Type 0
IsAttribute (key, value) = Without b':' key × All IsWordByte key × All IsWordByte value

abbrev pub IsDevice : DeviceEntry → Type 0
IsDevice d = IsWord d.serial × IsWord d.state × All IsAttribute d.attributes

-- A list of devices that fits a block.
abbrev pub IsList : List DeviceEntry → Type 0
IsList ds = (length (print_devices ds) ≤ 0xFFFF) × All IsDevice ds

print_attribute-IsWord : (a : Bytes × Bytes) → IsAttribute a → IsWord (print_attribute a)
print_attribute-IsWord ([], value) (_, _, v) = ((λ e. cc), ((omega arith, refl), v))
print_attribute-IsWord (c ∷ key, value) (_, k, v) =
    ((λ e. cc), All-append IsWordByte (c ∷ key) (b':' ∷ value) k ((omega arith, refl), v))

attributes-IsWord :
    (xs : List (Bytes × Bytes)) → All IsAttribute xs → All IsWord (map print_attribute xs)
attributes-IsWord [] h = tt
attributes-IsWord (a ∷ xs) (h, hs) = (print_attribute-IsWord a h, attributes-IsWord xs hs)

words_of-IsWord : (d : DeviceEntry) → IsDevice d → All IsWord (words_of d)
words_of-IsWord d (serial, state, attributes) =
    (serial, (state, attributes-IsWord d.attributes attributes))

attributes_of-print_attribute :
    (xs : List (Bytes × Bytes)) → All IsAttribute xs → attributes_of (map print_attribute xs) ≡ xs
unfolding attributes_of
attributes_of-print_attribute [] h = refl
attributes_of-print_attribute ((key, value) ∷ xs) ((colon, _, _), hs) =
    rw (split_once-append b':' [] key value colon, attributes_of)
      (ap (λ x. (key, value) ∷ x) (attributes_of-print_attribute xs hs))

entry_of-words_of :
    (d : DeviceEntry) → IsDevice d → entry_of (split_whitespace (print_device d)) ≡ some d
unfolding entry_of
entry_of-words_of d (serial, state, attributes) =
    ap entry_of (split_whitespace-join (words_of d) (words_of-IsWord d (serial, state, attributes)))
    ∙ ap (λ xs. some (record { serial = d.serial; state = d.state; attributes = xs }))
        (attributes_of-print_attribute d.attributes attributes)

entries_of-print_device :
    (ds : List DeviceEntry) → All IsDevice ds → entries_of (map print_device ds) ≡ ds
unfolding entries_of
entries_of-print_device [] h = refl
entries_of-print_device (d ∷ ds) (h, hs) =
    rw (entry_of-words_of d h, entries_of) (ap (λ x. d ∷ x) (entries_of-print_device ds hs))

module _ (P : ℕ → Type 0) (space : P b' ') (word : (c : ℕ) → IsWordByte c → P c) where
  All-word : (w : Bytes) → All IsWordByte w → All P w
  All-word [] h = tt
  All-word (c ∷ w) (h, hs) = (word c h, All-word w hs)

  All-join : (ws : List Bytes) → All IsWord ws → All P (join (b' ' ∷ []) ws)
  unfolding join
  All-join [] h = tt
  All-join (w ∷ []) ((_, h), _) = All-word w h
  All-join (w ∷ v ∷ ws) ((_, h), hs) =
      All-append P w (b' ' ∷ join (b' ' ∷ []) (v ∷ ws)) (All-word w h) (space, All-join (v ∷ ws) hs)

  -- A condition that a space, the end of a line and the bytes of words meet holds for a list.
  All-print_devices : P b'\n' → (ds : List DeviceEntry) → All IsDevice ds → All P (print_devices ds)
  All-print_devices end [] h = tt
  All-print_devices end (d ∷ ds) (h, hs) =
      All-append P (print_device d) (b'\n' ∷ print_devices ds)
        (All-join (words_of d) (words_of-IsWord d h)) (end, All-print_devices end ds hs)

print_device-IsLine : (ds : List DeviceEntry) → All IsDevice ds → All IsLine (map print_device ds)
print_device-IsLine [] h = tt
print_device-IsLine (d ∷ ds) (h, hs) =
    let words = words_of-IsWord d h in
    (
      (
        All-join (λ c. c ≢ b'\n') (λ e. omega (arith, e)) (λ c w e. ground (arith, w.1, e))
            (words_of d) words,
        All-join (λ c. c ≢ b'\r') (λ e. omega (arith, e)) (λ c w e. ground (arith, w.1, e))
            (words_of d) words,
      ),
      print_device-IsLine ds hs,
    )

-- A printed list of devices is parsed to the devices.
pub parse_devices-print_devices :
    (ds : List DeviceEntry)
    → All IsDevice ds
    → parse_devices (from_utf8_lossy (print_devices ds)) ≡ ds
unfolding parse_devices
parse_devices-print_devices ds h =
    ap parse_devices (
      from_utf8_lossy-ascii (print_devices ds)
        (All-print_devices (λ c. c < 0x80) (omega arith) (λ c w. w.0) (omega arith) ds h))
    ∙ ap entries_of (lines-print_lines (map print_device ds) (print_device-IsLine ds h))
    ∙ entries_of-print_device ds h
