-- ===== src/Error.antt =====
-- src/error.rs: the failures that the crate reports, and its `Result`.
-- A message text is a `Reason`: one constructor for each text of the source, with the values that
-- the text shows.
use rsadb.Base.{
  Bool, true, false, if◌then◌else◌, ℕ, Bytes, ◌≡◌, refl, ◌⊎◌, inl, inr, Option, none, some,
}

pub data Reason : Type 0 where
  -- wire/codec.rs
  bad_magic : ℕ → ℕ → Reason
  unknown_command : ℕ → Reason
  payload_exceeds : ℕ → ℕ → Reason
  -- transport/framed.rs and transport/usb/io.rs
  payload_too_long : Reason
  truncated_header : Reason
  truncated_payload : Reason
  truncated_header_bytes : ℕ → Reason
  short_payload : ℕ → ℕ → Reason
  expected_bytes : ℕ → ℕ → Reason
  checksum_mismatch : ℕ → Reason
  -- session
  service_nul : Reason
  version_too_old : ℕ → Reason
  unexpected_auth : ℕ → Reason
  tls_requested : Reason
  stale_frames : ℕ → Reason
  unexpected_open : Reason
  tls_mid_session : Reason
  open_towards_host : Reason
  -- services
  command_nul : Reason
  frame_too_long : Reason
  unknown_frame : ℕ → Reason
  trailing_bytes : ℕ → Reason
  path_too_long : Reason
  unexpected_reply : Bytes → Reason
  unexpected_id : Bytes → Bytes → Reason
  chunk_exceeds : ℕ → ℕ → Reason
  chunk_too_large : Reason
  invalid_property : Bytes → Reason
  unexpected_line : Bytes → Reason
  row_without_fields : Bytes → Reason
  expected_column : Bytes → Bytes → Reason
  missing_column : Bytes → Bytes → Reason
  -- host
  request_too_long : Reason
  length_not_ascii : Reason
  bad_length : Bytes → Reason
  unexpected_status : Bytes → Reason
  -- auth
  token_length : ℕ → Reason
  value_too_long : ℕ → Reason
  modulus_bits : ℕ → Reason
  modulus_even : Reason
  exponent_too_long : Reason
  encoded_length : ℕ → Reason
  modulus_length : ℕ → Reason
  fields_mismatch : Reason
  empty_key_line : Reason
  signature_rejected : Reason → Reason
  not_pem : Reason → Reason → Reason
  no_home : Reason
  -- transport/tcp.rs
  empty_address : Reason
  unterminated_literal : Bytes → Reason
  unexpected_tail : Bytes → Reason
  bad_port : Bytes → Reason
  -- transport/usb/mod.rs
  no_descriptor : Reason
  no_bulk_endpoints : Reason
  -- device
  lacks_shell_v2 : Reason
  no_projection : Reason
  not_png : ℕ → Bytes → Reason
  row_count : ℕ → ℕ → Reason
  bad_version : Bytes → Reason
  not_regular_file : Bytes → Reason
  bad_mtime : Reason
  -- a text that comes from outside the crate
  outside : Bytes → Reason
  unexpected_eof : Reason

pub data Error : Type 0 where
  protocol : Reason → Error
  disconnected : Error
  unauthorized : Error
  unsupported : Reason → Error
  service_refused : Bytes → Error
  remote_failure : Bytes → Error
  stream_closed : Error
  claim_failed : Reason → Error
  no_device : Option Bytes → Error
  usb : Reason → Error
  io : Reason → Error
  key : Reason → Error
  parse : Reason → Error
  invalid_argument : Reason → Error
  timeout : Reason → Error

pub data Result {ℓ} (A : Type ℓ) : Type ℓ where
  ok : A → Result A
  err : Error → Result A

abbrev pub ok_or {ℓ} : {A : Type ℓ} → Option A → Error → Result A
ok_or none e = err e
ok_or (some a) e = ok a

pub Result-cases {ℓ} :
    {A : Type ℓ} (r : Result A) → ((a : A) × (r ≡ ok a)) ⊎ ((e : Error) × (r ≡ err e))
Result-cases (ok a) = inl (a, refl)
Result-cases (err e) = inr (e, refl)

infixl 5 ◌>>=◌
infixl 5 ◌>>◌
-- The `?` of the source.
abbrev pub ◌>>=◌ {ℓ κ} :
    {A : Type ℓ} {B : Type κ} (result : Result A) (next : A → Result B) → Result B
err e >>= next = err e
ok value >>= next = next value

abbrev pub ◌>>◌ {ℓ} : {B : Type ℓ} (first : Result (Unit {0})) (next : Result B) → Result B
err e >> next = err e
ok _ >> next = next

-- What a computation that succeeds went through.
pub bind_ok {ℓ κ} :
    {A : Type ℓ} {B : Type κ} (m : Result A) (k : A → Result B) (b : B)
    → (m >>= k) ≡ ok b
    → (a : A) × (m ≡ ok a) × (k a ≡ ok b)
bind_ok (ok a) k b e = (a, refl, e)
bind_ok (err x) k b e = cc

pub then_ok {ℓ} :
    {B : Type ℓ} (m : Result (Unit {0})) (k : Result B) (b : B)
    → (m >> k) ≡ ok b
    → (m ≡ ok tt) × (k ≡ ok b)
then_ok (ok _) k b e = (refl, e)
then_ok (err x) k b e = cc

-- A test that fails with an error, and was passed.
pub guard_ok {ℓ} :
    {A : Type ℓ} (test : Bool) (e : Error) (m : Result A) (a : A)
    → (if test then err e else m) ≡ ok a
    → (test ≡ false) × (m ≡ ok a)
guard_ok true e m a h = cc
guard_ok false e m a h = (refl, h)
