-- ===== src/Transport/Config.antt =====
-- `WireConfig` of src/transport/mod.rs: the framing policy of a connection.
use rsadb.Base.{ℕ, Bool, true, false, ltb}
use rsadb.Wire.Message.{max_payload, version_skip_checksum}

pub record WireConfig : Type 0 where
  pub compute_checksum : Bool
  pub verify_checksum : Bool
  pub limit : ℕ

-- Checksum on, do not verify: the policy before the peer's version is known.
abbrev pub initial : WireConfig
initial = record { compute_checksum = true; verify_checksum = false; limit = max_payload }

abbrev pub negotiated : ℕ → ℕ → WireConfig
negotiated version payload = record {
  compute_checksum = ltb version version_skip_checksum;
  verify_checksum = ltb version version_skip_checksum;
  limit = payload;
}
