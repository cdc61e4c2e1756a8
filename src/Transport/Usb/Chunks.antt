-- ===== src/Transport/Usb/Chunks.antt =====
-- `read_exact` of src/transport/usb/io.rs and the transfers of the device.
use rsadb.Base.{
  ℕ, ◌-◌, ◌<◌, ◌≡◌, refl, sym, ap, ◌∙◌, Bytes, lt→ltb, le→ltb, ==_iff, some, length, length-append,
  concat, append-nil, append_assoc, All, List, [], ◌∷◌, ◌++◌, arith,
}
use rsadb.Error.{ok}
use rsadb.Transport.Usb.{
  UsbSource, Completion, transferred, Awaits, requesting, fill, first_read, read_exact,
}

abbrev pub transfers : List Bytes → List Completion → List Completion
transfers [] rest = rest
transfers (c ∷ cs) rest = transferred c ∷ transfers cs rest

abbrev pub IsNonEmpty : Bytes → Type 0
IsNonEmpty c = 0 < length c

-- The bytes are read, and the transfers behind them are not touched.
abbrev pub Reads : Awaits Bytes → Bytes → List Completion → Type 0
Reads x bytes rest = (t : UsbSource) × (x ≡ some (ok bytes, t)) × (t.completions ≡ rest)

fill_full :
    (len : ℕ) (rest : List Completion) (buffer : Bytes) (s : UsbSource)
    → length buffer ≡ len
    → fill len rest buffer s ≡ some (ok buffer, s)
unfolding fill
fill_full len [] buffer s e =
    rw (le→ltb (length buffer) len (omega arith), (==_iff (length buffer) len).1 e) refl
fill_full len (c ∷ cs) buffer s e =
    rw (le→ltb (length buffer) len (omega arith), (==_iff (length buffer) len).1 e) refl

fill-Reads :
    (len : ℕ) (chunks : List Bytes) (rest : List Completion) (buffer : Bytes) (s : UsbSource)
    → All IsNonEmpty chunks
    → s.completions ≡ transfers chunks rest
    → length (buffer ++ concat chunks) ≡ len
    → Reads (fill len (transfers chunks rest) buffer s) (buffer ++ concat chunks) rest
unfolding fill
fill-Reads len [] rest buffer s _ c e = (
  s,
  fill_full len rest buffer s (ap length (sym (append-nil buffer)) ∙ e)
      ∙ ap (λ x. some (ok x, s)) (sym (append-nil buffer)),
  c,
)
fill-Reads len ([] ∷ cs) rest buffer s (n, _) c e = absurd (omega arith)
fill-Reads len ((b ∷ bs) ∷ cs) rest buffer s (n, all) c e =
    let after : UsbSource = requesting (len - length buffer) (transfers cs rest) s in
    let (t, found, left) =
      fill-Reads len cs rest (buffer ++ (b ∷ bs)) after all refl
        (ap length (append_assoc buffer (b ∷ bs) (concat cs)) ∙ e) in
    (
      t,
      rw
          (lt→ltb (length buffer) len
            (omega (arith, e, length-append buffer ((b ∷ bs) ++ concat cs))))
          (found ∙ ap (λ x. some (ok x, t)) (append_assoc buffer (b ∷ bs) (concat cs))),
      left,
    )

-- `read_exact` gives a payload that comes in any transfers, of which the first alone may be empty, and
-- takes no transfer behind it.
pub read_exact-Reads :
    (c : Bytes) (chunks : List Bytes) (rest : List Completion) (s : UsbSource)
    → All IsNonEmpty chunks
    → s.completions ≡ transferred c ∷ transfers chunks rest
    → Reads (read_exact (length (c ++ concat chunks)) s) (c ++ concat chunks) rest
unfolding read_exact first_read
read_exact-Reads c chunks rest s all e =
    let len : ℕ = length (c ++ concat chunks) in
    let (t, found, left) =
      fill-Reads len chunks rest c (requesting len (transfers chunks rest) s) all refl refl in
    (t, ap (first_read len s) e ∙ found, left)
