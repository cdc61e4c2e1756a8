-- ===== src/Services/Props/Names.antt =====
-- `validate_name` of src/services/props.rs and the quoting of src/services/shell.rs.
use rsadb.Base.{
  ℕ, Bytes, ◌≡◌, refl, Bool, true, false, not, ◌&&◌, leb, length, if◌then◌else◌, [], ◌∷◌, arith,
}
use rsadb.Error.{Result, ok, err, invalid_argument, invalid_property}
use rsadb.Text.{is_empty, contains_byte}
use rsadb.Services.Props.{is_name_byte, all_name_bytes, is_valid, validate_name}
use rsadb.Services.Shell.{is_plain, all_plain, quote}

plain_of_name : (b : ℕ) → is_name_byte b ≡ true → is_plain b ≡ true
unfolding is_name_byte is_plain contains_byte
plain_of_name b h = ground arith

all_plain_of_names : (bs : Bytes) → all_name_bytes bs ≡ true → all_plain bs ≡ true
all_plain_of_names [] h = refl
all_plain_of_names (b ∷ bs) h = ground (arith, plain_of_name b, all_plain_of_names bs)

quote_if :
    (some_bytes short names : Bool) (name : Bytes)
    → ◌≡◌ {A = Result (Unit {0})}
        (if (some_bytes && (short && names))
          then ok tt
          else err (invalid_argument (invalid_property name)))
        (ok tt)
    → (some_bytes ≡ true) × (names ≡ true)
quote_if true true true name h = (refl, refl)
quote_if true true false name h = cc
quote_if true false n name h = cc
quote_if false s n name h = cc

-- `quote` leaves a name that `validate_name` accepts as it is.
pub validate_name-quote : (name : Bytes) → validate_name name ≡ ok tt → quote name ≡ name
unfolding validate_name is_valid quote
validate_name-quote name h =
    let (full, names) =
      quote_if (not (is_empty name)) (leb (length name) 255) (all_name_bytes name) name h in
    rw (full, all_plain_of_names name names) refl
