-- ===== src/Auth/Keyfile/Reload.antt =====
-- A key that `load_or_generate` has stored is the one that it loads.
use rsadb.Base.{true, ◌≡◌, ◌≢◌, refl, sym, ap, ◌∙◌, subst, Bytes, Option, none, some, [], ◌∷◌, ◌++◌}
use rsadb.Error.{ok, Reason, bind_ok, then_ok, ◌>>=◌}
use rsadb.Text.Lossy.{is_utf8}
use rsadb.Text.TextMap.{TextMap, insert, lookup, lookup-insert_self, lookup-insert_ne}
use rsadb.Auth.Keyfile.{
  PrivateKeys, KeyPaths, key_bits, StoredKey, from_private, generate, first_try, second_try,
  from_pem, to_pem, public_key_line, allowed, write_file, read_file, read_key, write_key, store_new,
  load, load_or_generate,
}

allowed_ok : (o : Option Reason) (u : Unit {0}) → allowed o ≡ ok u → o ≡ none
unfolding allowed
allowed_ok none u h = refl
allowed_ok (some e) u h = cc

module _ (denied : Bytes → Option Reason) where
  written :
      (path contents : Bytes) (files later : TextMap)
      → write_file denied path contents files ≡ ok later
      → (denied path ≡ none) × (insert path contents files ≡ later)
  unfolding write_file
  written path contents files later h =
      let (may, put) = then_ok (allowed (denied path)) (ok (insert path contents files)) later h in
      (allowed_ok (denied path) tt may, cc)

module _ (R : PrivateKeys) where
  -- A key is made from its own parts.
  IsMade : StoredKey R → Type 0
  IsMade k = from_private R k.private k.comment ≡ ok k

  from_private-IsMade :
      (private : R.Private) (comment : Bytes) (k : StoredKey R)
      → from_private R private comment ≡ ok k
      → IsMade k × (k.comment ≡ comment)
  unfolding from_private IsMade
  from_private-IsMade private comment k h =
      let built : StoredKey R = record {
        private = private;
        public = R.to_public_key private;
        comment = comment;
      } in
      let (encoded, ran, made) = bind_ok (R.encode (R.to_public_key private)) (λ _. ok built) k h in
      let same : built ≡ k = cc in
      (
        subst (λ x. from_private R x.private x.comment ≡ ok x) same (h ∙ ap ok (sym same)),
        sym (ap (λ x. x.comment) same),
      )

  generate-IsMade :
      (rng : R.Rng) (comment : Bytes) (k : StoredKey R)
      → generate R rng comment ≡ ok k
      → IsMade k × (k.comment ≡ comment)
  unfolding generate
  generate-IsMade rng comment k h =
      let (private, drawn, made) =
        bind_ok (R.generate rng key_bits) (λ p. from_private R p comment) k h in
      from_private-IsMade private comment k made

  from_pem-to_pem :
      (k : StoredKey R) (pem : Bytes)
      → IsMade k
      → to_pem R k ≡ ok pem
      → from_pem R pem k.comment ≡ ok k
  unfolding from_pem first_try second_try IsMade
  from_pem-to_pem k pem made text =
      let (e, other) = R.pkcs1_not_pkcs8 k.private pem text in
      rw (other, R.from_pkcs1_pem-to_pkcs1_pem k.private pem text) made

  module _ (parent : Bytes → Option Bytes) (denied : Bytes → Option Reason) where
    read_key_stored :
        (path : Bytes) (k : StoredKey R) (later : TextMap) (pem : Bytes)
        → denied path ≡ none
        → lookup path later ≡ some pem
        → is_utf8 pem ≡ true
        → from_pem R pem k.comment ≡ ok k
        → (read_file denied path later >>= λ x. from_pem R x k.comment) ≡ ok k
    unfolding read_file allowed
    read_key_stored path k later pem free found text h = rw (free, found, text) h

    -- A key that has been written is read again.
    read_key-write_key :
        (paths : KeyPaths) (k : StoredKey R) (files later : TextMap)
        → paths.private ≢ paths.public
        → IsMade k
        → write_key R parent denied paths k files ≡ ok later
        → ((pem : Bytes) × (lookup paths.private later ≡ some pem))
          × (read_key R parent denied paths k.comment later ≡ ok k)
    unfolding write_key read_key
    read_key-write_key paths k files later apart made h =
        let (a, h1) = then_ok _ _ later h in
        let (pem, text, h2) = bind_ok _ _ later h1 in
        let (mid, put, h3) = bind_ok _ _ later h2 in
        let (line, b, h4) =
          bind_ok (public_key_line R k)
            (λ l. write_file denied paths.public (l ++ (b'\n' ∷ [])) mid) later h3 in
        let (free, first) = written denied paths.private pem files mid put in
        let (free2, second) = written denied paths.public (line ++ (b'\n' ∷ [])) mid later h4 in
        let found : lookup paths.private later ≡ some pem =
          ap (λ m. lookup paths.private m) (sym second)
          ∙ (lookup-insert_ne paths.private paths.public (line ++ (b'\n' ∷ [])) mid apart
              ∙ (ap (λ m. lookup paths.private m) (sym first)
                  ∙ lookup-insert_self paths.private pem files)) in
        (
          (pem, found),
          read_key_stored paths.private k later pem free found
              (R.to_pkcs1_pem_text k.private pem text) (from_pem-to_pem k pem made text),
        )

    load_stored :
        (rng : R.Rng) (paths : KeyPaths) (k : StoredKey R) (later : TextMap)
        → ((pem : Bytes) × (lookup paths.private later ≡ some pem))
        → read_key R parent denied paths k.comment later ≡ ok k
        → load_or_generate R parent denied rng paths k.comment later ≡ ok (k, later)
    unfolding load_or_generate load
    load_stored rng paths k later (pem, found) h = rw (found, h)

    store_new-load :
        (rng rng' : R.Rng) (paths : KeyPaths) (comment : Bytes) (files later : TextMap)
        (k : StoredKey R)
        → paths.private ≢ paths.public
        → store_new R parent denied rng paths comment files ≡ ok (k, later)
        → load_or_generate R parent denied rng' paths comment later ≡ ok (k, later)
    unfolding store_new
    store_new-load rng rng' paths comment files later k apart h =
        let (k', made, h1) =
          bind_ok (generate R rng comment)
            (λ x. write_key R parent denied paths x files >>= λ l. ok (x, l)) (k, later) h in
        let (later', wrote, h2) =
          bind_ok (write_key R parent denied paths k' files) (λ l. ok (k', l)) (k, later) h1 in
        let (whole, label) = generate-IsMade rng comment k' made in
        let (stored, read) = read_key-write_key paths k' files later' apart whole wrote in
        let one : k' ≡ k = cc in
        let same : later' ≡ later = cc in
        rw (← one, ← same, ← label) (load_stored rng' paths k' later' stored read)

    by_file :
        (rng rng' : R.Rng) (paths : KeyPaths) (comment : Bytes) (files later : TextMap)
        (k : StoredKey R)
        → paths.private ≢ paths.public
        → (o : Option Bytes) → lookup paths.private files ≡ o
        → load_or_generate R parent denied rng paths comment files ≡ ok (k, later)
        → load_or_generate R parent denied rng' paths comment later ≡ ok (k, later)
    unfolding load_or_generate load
    by_file rng rng' paths comment files later k apart none absent h =
        store_new-load rng rng' paths comment files later k apart (rw absent at h)
    by_file rng rng' paths comment files later k apart (some pem) found h =
        let (k', read, h1) =
          bind_ok (read_key R parent denied paths comment files) (λ x. ok (x, files)) (k, later)
            (rw found at h) in
        let same : files ≡ later = cc in
        subst (λ m. load_or_generate R parent denied rng' paths comment m ≡ ok (k, later)) same
          (rw found (rw found at h))

    -- With different paths for the two files, a call of `load_or_generate` that succeeds is followed
    -- by one that gives the same key and changes no file, whether the first has read the key or made
    -- and stored it, and whatever random numbers the two would draw: the second makes no new key.
    pub load_or_generate_again :
        (rng rng' : R.Rng) (paths : KeyPaths) (comment : Bytes) (files later : TextMap)
        (k : StoredKey R)
        → paths.private ≢ paths.public
        → load_or_generate R parent denied rng paths comment files ≡ ok (k, later)
        → load_or_generate R parent denied rng' paths comment later ≡ ok (k, later)
    load_or_generate_again rng rng' paths comment files later k apart h =
        by_file rng rng' paths comment files later k apart (lookup paths.private files) refl h
