-- ===== src/Auth.antt =====
-- src/auth: the host's RSA identity and token signing.
pub mod Rsa
pub mod Pubkey
pub mod Keyfile
use rsadb.Base.{ℕ, Bytes, length, ◌==◌, if◌then◌else◌, [], ◌∷◌, ◌++◌}
use rsadb.Error.{Result, ok, err, protocol, token_length, ◌>>=◌}

abbrev pub token_len : ℕ
token_len = 20

-- The host key, over what the `rsa` and `base64` crates compute for it: the PKCS#1 v1.5 signature
-- of a digest, and the line of `adbkey.pub`.
pub record HostKey : Type 0 where
  pub sign : Bytes → Result Bytes
  pub public_key_line : Result Bytes

unfoldable pub public_key_payload : HostKey → Result Bytes
public_key_payload key = do line ← key.public_key_line; ok (line ++ (0 ∷ []))

unfoldable pub sign_token : HostKey → Bytes → Result Bytes
sign_token key token =
    if length token == token_len
    then key.sign token
    else err (protocol (token_length (length token)))
