-- ===== src/Auth/Keyfile.antt =====
-- src/auth/keyfile.rs, and the keys of src/auth/mod.rs that it reads and writes.
-- The `rsa` crate is the interface `PrivateKeys`. The file system is a map from the paths to the
-- contents of the files; `denied` says which paths it refuses, and why. `path_join` is `Path::join`.
pub mod Reload
use rsadb.Base.{
  ℕ, ◌≡◌, Bytes, ascii, length, ◌==◌, Bool, true, false, if◌then◌else◌, Option, none, some, ◌⊎◌,
  inl, inr, [], ◌∷◌, ◌++◌,
}
use rsadb.Error.{
  Result, ok, err, Error, Reason, io, key, protocol, parse, outside, token_length,
  signature_rejected, not_pem, no_home, ◌>>=◌, ◌>>◌, ok_or,
}
use rsadb.Text.Lossy.{is_utf8}
use rsadb.Text.TextMap.{TextMap, insert, lookup}
use rsadb.Auth.{HostKey, token_len}

abbrev pub key_bits : ℕ
key_bits = 2048

-- What the source uses of `rsa`, and of pubkey.rs, for private keys.
pub record PrivateKeys : Type 1 where
  pub Private : Type 0
  pub Public : Type 0
  -- The random numbers of the operating system that a call draws.
  pub Rng : Type 0
  pub generate : Rng → ℕ → Result Private
  pub to_public_key : Private → Public
  pub from_pkcs8_pem : Bytes → Reason ⊎ Private
  pub from_pkcs1_pem : Bytes → Reason ⊎ Private
  pub to_pkcs1_pem : Private → Result Bytes
  pub sign : Private → Bytes → Result Bytes
  pub verify : Public → Bytes → Bytes → Reason ⊎ Unit {0}
  -- `pubkey::encode` and `pubkey::encode_line`
  pub encode : Public → Result Bytes
  pub encode_line : Public → Bytes → Result Bytes
  -- A PEM text is a string.
  pub to_pkcs1_pem_text : (k : Private) (pem : Bytes) → to_pkcs1_pem k ≡ ok pem → is_utf8 pem ≡ true
  -- A PKCS#1 text is no PKCS#8 one, and gives back the key that it has been written for.
  pub pkcs1_not_pkcs8 :
      (k : Private) (pem : Bytes)
      → to_pkcs1_pem k ≡ ok pem
      → (e : Reason) × (from_pkcs8_pem pem ≡ inl e)
  pub from_pkcs1_pem-to_pkcs1_pem :
      (k : Private) (pem : Bytes) → to_pkcs1_pem k ≡ ok pem → from_pkcs1_pem pem ≡ inr k

pub record KeyPaths : Type 0 where
  pub private : Bytes
  pub public : Bytes

unfoldable pub in_dir : (Bytes → Bytes → Bytes) → Bytes → KeyPaths
in_dir path_join dir = record {
  private = path_join dir (ascii "adbkey");
  public = path_join dir (ascii "adbkey.pub");
}

home_of : Option Bytes → Option Bytes → Result Bytes
home_of (some home) profile = ok home
home_of none (some profile) = ok profile
home_of none none = err (key no_home)

-- The values of `HOME` and `USERPROFILE` are arguments.
unfoldable pub default_key_paths :
    (Bytes → Bytes → Bytes) → Option Bytes → Option Bytes → Result KeyPaths
unfolding home_of
default_key_paths path_join home profile = do
  dir ← home_of home profile
  ok (in_dir path_join (path_join dir (ascii ".android")))

allowed : Option Reason → Result (Unit {0})
allowed none = ok tt
allowed (some e) = err (io e)

module _ (denied : Bytes → Option Reason) where
  unfoldable pub write_file : Bytes → Bytes → TextMap → Result TextMap
  unfolding allowed
  write_file path contents files = do allowed (denied path); ok (insert path contents files)

  unfoldable pub read_file : Bytes → TextMap → Result Bytes
  unfolding allowed
  read_file path files = do
    allowed (denied path)
    bytes ← ok_or (lookup path files) (io (outside (ascii "No such file or directory")))
    if is_utf8 bytes
        then ok bytes
        else err (io (outside (ascii "stream did not contain valid UTF-8")))

  -- `create_dir_all`
  make_parent : Option Bytes → Result (Unit {0})
  unfolding allowed
  make_parent none = ok tt
  make_parent (some dir) = allowed (denied dir)

module _ (R : PrivateKeys) where
  -- `HostKey`
  pub record StoredKey : Type 0 where
    pub private : R.Private
    pub public : R.Public
    pub comment : Bytes

  unfoldable pub from_private : R.Private → Bytes → Result StoredKey
  from_private private comment = do
    encoded ← R.encode (R.to_public_key private)
    ok (record { private = private; public = R.to_public_key private; comment = comment })

  unfoldable pub generate : R.Rng → Bytes → Result StoredKey
  generate rng comment = do private ← R.generate rng key_bits; from_private private comment

  second_try : Reason → Reason ⊎ R.Private → Result R.Private
  second_try e (inr private) = ok private
  second_try e (inl f) = err (key (not_pem e f))

  first_try : Bytes → Reason ⊎ R.Private → Result R.Private
  unfolding second_try
  first_try pem (inr private) = ok private
  first_try pem (inl e) = second_try e (R.from_pkcs1_pem pem)

  unfoldable pub from_pem : Bytes → Bytes → Result StoredKey
  unfolding first_try
  from_pem pem comment = do
    private ← first_try pem (R.from_pkcs8_pem pem)
    from_private private comment

  abbrev pub to_pem : StoredKey → Result Bytes
  to_pem k = R.to_pkcs1_pem k.private

  abbrev pub public_key_line : StoredKey → Result Bytes
  public_key_line k = R.encode_line k.public k.comment

  -- The key as the handshake uses it.
  unfoldable pub host_key : StoredKey → HostKey
  host_key k = record { sign = R.sign k.private; public_key_line = public_key_line k }

  verified : Reason ⊎ Unit {0} → Result (Unit {0})
  verified (inr _) = ok tt
  verified (inl e) = err (key (signature_rejected e))

  unfoldable pub verify_token : R.Public → Bytes → Bytes → Result (Unit {0})
  unfolding verified
  verify_token public token signature =
      if length token == token_len
      then verified (R.verify public token signature)
      else err (protocol (token_length (length token)))

  module _ (parent : Bytes → Option Bytes) (denied : Bytes → Option Reason) where
    unfoldable pub read_key : KeyPaths → Bytes → TextMap → Result StoredKey
    read_key paths comment files = do
      pem ← read_file denied paths.private files
      from_pem pem comment

    unfoldable pub write_key : KeyPaths → StoredKey → TextMap → Result TextMap
    unfolding make_parent
    write_key paths k files = do
      make_parent denied (parent paths.private)
      pem ← to_pem k
      with_private ← write_file denied paths.private pem files
      line ← public_key_line k
      write_file denied paths.public (line ++ (b'\n' ∷ [])) with_private

    store_new : R.Rng → KeyPaths → Bytes → TextMap → Result (StoredKey × TextMap)
    store_new rng paths comment files = do
      k ← generate rng comment
      later ← write_key paths k files
      ok (k, later)

    load : R.Rng → KeyPaths → Bytes → TextMap → Option Bytes → Result (StoredKey × TextMap)
    unfolding store_new
    load rng paths comment files (some pem) = do k ← read_key paths comment files; ok (k, files)
    load rng paths comment files none = store_new rng paths comment files

    -- The key, and the files behind the call.
    unfoldable pub load_or_generate :
        R.Rng → KeyPaths → Bytes → TextMap → Result (StoredKey × TextMap)
    unfolding load
    load_or_generate rng paths comment files =
        load rng paths comment files (lookup paths.private files)
