-- ===== src/Examples/Keyfile.antt =====
-- src/auth/keyfile.rs over concrete keys.
use rsadb.Base.{
  ℕ, ◌≡◌, refl, Bool, true, false, ◌==◌, ◌⊎◌, inl, inr, Bytes, ascii, none, [], ◌∷◌, ◌++◌,
}
use rsadb.Error.{ok, Reason, not_regular_file}
use rsadb.Text.Lossy.{from_utf8_lossy, is_utf8}
use rsadb.Text.TextMap.{TextMap, insert, lookup}
use rsadb.Auth.Keyfile.{
  PrivateKeys, KeyPaths, StoredKey, generate, from_private, write_key, write_file, load_or_generate,
}
use rsadb.Auth.Keyfile.Reload.{load_or_generate_again}

-- There are two keys, the letters of `true` and `false`.
abbrev letter : Bool → ℕ
letter true = b'A'
letter false = b'B'

key_of : Bytes → Reason ⊎ Bool
key_of (c ∷ []) = inr (c == b'A')
key_of _ = inl (not_regular_file [])

again : (k : Bool) (pem : Bytes) → ok (letter k ∷ []) ≡ ok pem → key_of pem ≡ inr k
unfolding key_of
again true pem h = let same : b'A' ∷ [] ≡ pem = cc in rw (← same)
again false pem h = let same : b'B' ∷ [] ≡ pem = cc in rw (← same)

is_text : (k : Bool) (pem : Bytes) → ok (letter k ∷ []) ≡ ok pem → is_utf8 pem ≡ true
unfolding from_utf8_lossy
is_text true pem h = let same : b'A' ∷ [] ≡ pem = cc in rw (← same)
is_text false pem h = let same : b'B' ∷ [] ≡ pem = cc in rw (← same)

abbrev keys : PrivateKeys
keys = record {
  Private = Bool;
  Public = Bool;
  Rng = Bool;
  generate = λ rng bits. ok rng;
  to_public_key = λ k. k;
  from_pkcs8_pem = λ pem. inl (not_regular_file pem);
  from_pkcs1_pem = key_of;
  to_pkcs1_pem = λ k. ok (letter k ∷ []);
  sign = λ k token. ok token;
  verify = λ k token signature. inr tt;
  encode = λ k. ok (letter k ∷ []);
  encode_line = λ k comment. ok (letter k ∷ comment);
  to_pkcs1_pem_text = is_text;
  pkcs1_not_pkcs8 = λ k pem h. (not_regular_file pem, refl);
  from_pkcs1_pem-to_pkcs1_pem = again;
}

abbrev paths : KeyPaths
paths = record { private = ascii "adbkey"; public = ascii "adbkey.pub" }

abbrev stored : StoredKey keys
stored = record { private = true; public = true; comment = ascii "me@host" }

abbrev files : TextMap
files =
    (ascii "adbkey", b'A' ∷ [])
    ∷ (ascii "adbkey.pub", (b'A' ∷ ascii "me@host") ++ (b'\n' ∷ []))
    ∷ []

made :
    load_or_generate keys (λ p. none) (λ p. none) true paths (ascii "me@host") []
    ≡ ok (stored, files)
unfolding load_or_generate lookup generate from_private write_key write_file insert
made = refl

load_or_generate_again_example :
    load_or_generate keys (λ p. none) (λ p. none) false paths (ascii "me@host") files
    ≡ ok (stored, files)
load_or_generate_again_example =
    load_or_generate_again keys (λ p. none) (λ p. none) true false paths (ascii "me@host") [] files
      stored (λ e. cc) made
