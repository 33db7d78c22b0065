-- ===== src/Encryption/Session.antt =====
-- An encryptor and a decryptor over a whole entry: chunks, keys and the authentication code.
use mathlib.Core.Path.{subst}
use s_zip.Common.{
  ℕ, ◌+◌, ◌*◌, ◌^◌, ◌<◌, ◌≡◌, ◌≢◌, refl, sym, ap, ◌∙◌, List, [], ◌∷◌, ◌++◌, Option, some, arith,
  length, take, slice, get_or, flatten, All, length-append, bytes_eq, bytes_eq→eq, bytes_eq_refl,
  Bool-cases, eq_true, Option-cases, inl, inr,
}
use s_zip.Outcome.{ok, err, incorrect_password}
use s_zip.Encryption.{
  AesStrength, salt_size, Crypto, CounterMode, apply_keystream, AesEncryptor, AesDecryptor,
  new_encryptor, new_decryptor, derived_key_size, key_size, init_hmac, encrypt, decrypt,
  update_encryptor_hmac, update_decryptor_hmac,
}
use s_zip.Encryption.Keystream.{
  entry_stream, length-apply_keystream, apply_keystream-append, apply_keystream_undo,
  apply_ctr_keystream-entry,
}

module _ (c : Crypto) where
  -- The calls that a writer or a reader makes on one entry, chunk by chunk.
  unfoldable pub encrypt_chunks : AesEncryptor c → List (List ℕ) → List ℕ
  encrypt_chunks e [] = []
  encrypt_chunks e (x ∷ xs) = (encrypt c e x).0 ++ encrypt_chunks (encrypt c e x).1 xs

  unfoldable pub decrypt_chunks : AesDecryptor c → List (List ℕ) → List ℕ
  decrypt_chunks d [] = []
  decrypt_chunks d (x ∷ xs) = (decrypt c d x).0 ++ decrypt_chunks (decrypt c d x).1 xs

  unfoldable pub hash_encryptor : AesEncryptor c → List (List ℕ) → AesEncryptor c
  hash_encryptor e [] = e
  hash_encryptor e (x ∷ xs) = hash_encryptor (update_encryptor_hmac c e x) xs

  unfoldable pub hash_decryptor : AesDecryptor c → List (List ℕ) → AesDecryptor c
  hash_decryptor d [] = d
  hash_decryptor d (x ∷ xs) = hash_decryptor (update_decryptor_hmac c d x) xs

module _ (c : Crypto) (laws : CounterMode c) where
  -- Whatever the chunks, the encrypted bytes are the whole under one stretch of the entry's stream:
  -- no part of the stream is used twice, and none is left out.
  pub encrypt_chunks-whole :
      (e : AesEncryptor c) (chunks : List (List ℕ))
      → e.byte_offset + length (flatten chunks) < 2 ^ 64
      → encrypt_chunks c e chunks
        ≡ apply_keystream
            (entry_stream c laws e.strength e.encryption_key)
            e.byte_offset
            (flatten chunks)
  unfolding encrypt_chunks encrypt apply_keystream
  encrypt_chunks-whole e [] h = refl
  encrypt_chunks-whole e (x ∷ xs) h =
      let fits = length-append x (flatten xs) in
      rw
        (
          apply_ctr_keystream-entry c laws e.strength e.encryption_key e.byte_offset x
              (omega arith),
          encrypt_chunks-whole (record e { byte_offset = e.byte_offset + length x }) xs
              (omega arith),
        )
        (sym (
          apply_keystream-append (entry_stream c laws e.strength e.encryption_key) e.byte_offset x
            (flatten xs)))

  pub decrypt_chunks-whole :
      (d : AesDecryptor c) (chunks : List (List ℕ))
      → d.byte_offset + length (flatten chunks) < 2 ^ 64
      → decrypt_chunks c d chunks
        ≡ apply_keystream
            (entry_stream c laws d.strength d.encryption_key)
            d.byte_offset
            (flatten chunks)
  unfolding decrypt_chunks decrypt apply_keystream
  decrypt_chunks-whole d [] h = refl
  decrypt_chunks-whole d (x ∷ xs) h =
      let fits = length-append x (flatten xs) in
      rw
        (
          apply_ctr_keystream-entry c laws d.strength d.encryption_key d.byte_offset x
              (omega arith),
          decrypt_chunks-whole (record d { byte_offset = d.byte_offset + length x }) xs
              (omega arith),
        )
        (sym (
          apply_keystream-append (entry_stream c laws d.strength d.encryption_key) d.byte_offset x
            (flatten xs)))

-- An encryptor and a decryptor with the same keys, at the same place of the entry.
pub record Matches {c : Crypto} (e : AesEncryptor c) (d : AesDecryptor c) : Type 0 where
  pub same_strength : d.strength ≡ e.strength
  pub same_key : d.encryption_key ≡ e.encryption_key
  pub same_offset : d.byte_offset ≡ e.byte_offset
  pub same_hmac : d.hmac ≡ e.hmac

-- Decrypting the encrypted bytes gives the bytes back, however either side is cut into chunks.
pub decrypt_chunks-encrypt_chunks :
    (c : Crypto) (laws : CounterMode c) (e : AesEncryptor c) (d : AesDecryptor c)
    (plain cipher : List (List ℕ))
    → Matches e d
    → All (λ b. b < 256) (flatten plain)
    → e.byte_offset + length (flatten plain) < 2 ^ 64
    → flatten cipher ≡ encrypt_chunks c e plain
    → decrypt_chunks c d cipher ≡ flatten plain
decrypt_chunks-encrypt_chunks c laws e d plain cipher m bytes fits same =
    let stream = entry_stream c laws e.strength e.encryption_key in
    let whole = same ∙ encrypt_chunks-whole c laws e plain fits in
    let same_length =
      ap length whole ∙ length-apply_keystream stream e.byte_offset (flatten plain) in
    decrypt_chunks-whole c laws d cipher (omega (arith, m.same_offset))
    ∙ rw (m.same_strength, m.same_key, m.same_offset, whole)
        (apply_keystream_undo stream (laws.is_byte e.strength e.encryption_key _) e.byte_offset
          (flatten plain) bytes)

module _ (c : Crypto) (password : List ℕ) (strength : AesStrength) where
  abbrev keys : List ℕ → List ℕ
  keys salt = c.pbkdf2_hmac password salt 1000 (derived_key_size strength)

  abbrev auth : List ℕ → List ℕ
  auth salt = slice (keys salt) (key_size strength) (key_size strength)

  -- The encryptor that a salt and an initialised code give.
  abbrev made_with : List ℕ → c.Mac → AesEncryptor c
  made_with salt mac = record {
    strength = strength;
    salt = salt;
    password_verify =
        get_or (keys salt) (key_size strength * 2) 0
        ∷ get_or (keys salt) (key_size strength * 2 + 1) 0
        ∷ [];
    encryption_key = take (key_size strength) (keys salt);
    auth_key = auth salt;
    hmac = mac;
    byte_offset = 0;
  }

  -- A successful encryptor is such a one.
  new_encryptor_cases :
      (rng : ℕ → Option (List ℕ)) (e : AesEncryptor c)
      → new_encryptor c rng password strength ≡ ok e
      → (salt : List ℕ) × (mac : c.Mac) × (rng (salt_size strength) ≡ some salt)
        × (c.new_from_slice (auth salt) ≡ some mac)
        × (made_with salt mac ≡ e)
  unfolding new_encryptor
  new_encryptor_cases rng e made = elim (Option-cases (rng (salt_size strength))) [
    | inl r ↦ absurd (cc (made, r))
    | inr (salt, r) ↦ elim (Option-cases (c.new_from_slice (auth salt))) [
      | inl m ↦ absurd (cc (made, r, m))
      | inr (mac, m) ↦ (salt, mac, r, m, cc (made, r, m))
    ]
  ]

  new_decryptor_made :
      (salt : List ℕ) (mac : c.Mac)
      → length salt ≡ salt_size strength
      → c.new_from_slice (auth salt) ≡ some mac
      → (d : AesDecryptor c) × (new_decryptor c password strength salt
            (made_with salt mac).password_verify
          ≡ ok d)
        × Matches (made_with salt mac) d
  unfolding new_decryptor
  new_decryptor_made salt mac size m = (
    record {
      strength = strength;
      encryption_key = take (key_size strength) (keys salt);
      auth_key = auth salt;
      password_verify = (made_with salt mac).password_verify;
      hmac = mac;
      byte_offset = 0;
    },
    rw (
      new_decryptor,
      eq_true (length salt) (salt_size strength) size,
      bytes_eq_refl (made_with salt mac).password_verify,
      init_hmac,
      m,
    ),
    record { same_strength = refl; same_key = refl; same_offset = refl; same_hmac = refl },
  )

-- With the password, the strength, the salt and the verification bytes of an encryptor, the
-- decryptor is made, and matches it.
pub new_decryptor-new_encryptor :
    (c : Crypto) (rng : ℕ → Option (List ℕ)) (password : List ℕ) (strength : AesStrength)
    (e : AesEncryptor c)
    → ((n : ℕ) (salt : List ℕ) → rng n ≡ some salt → length salt ≡ n)
    → new_encryptor c rng password strength ≡ ok e
    → (d : AesDecryptor c) × (new_decryptor c password e.strength e.salt e.password_verify ≡ ok d)
      × Matches e d
new_decryptor-new_encryptor c rng password strength e fills made =
    let (salt, mac, r, m, same) = new_encryptor_cases c password strength rng e made in
    subst
      (λ (x : AesEncryptor c).
        (d : AesDecryptor c) × (new_decryptor c password x.strength x.salt x.password_verify ≡ ok d)
        × Matches x d)
      same (new_decryptor_made c password strength salt mac (fills (salt_size strength) salt r) m)

-- Where the password gives a salt other verification bytes, it is refused.
refused :
    (c : Crypto) (password : List ℕ) (strength : AesStrength) (salt verify : List ℕ) (mac : c.Mac)
    → length salt ≡ salt_size strength
    → (made_with c password strength salt mac).password_verify ≢ verify
    → new_decryptor c password strength salt verify ≡ err incorrect_password
unfolding new_decryptor
refused c password strength salt verify mac size differs =
    elim (Bool-cases (bytes_eq (made_with c password strength salt mac).password_verify verify)) [
      | inl same ↦ absurd (differs (bytes_eq→eq _ verify same))
      | inr e ↦ rw (eq_true (length salt) (salt_size strength) size, e)
    ]

-- A password that would have made other verification bytes with the same salt does not unlock what
-- was encrypted under this one.
pub new_decryptor-other :
    (c : Crypto) (rng : ℕ → Option (List ℕ)) (password other : List ℕ) (strength : AesStrength)
    (e e' : AesEncryptor c)
    → ((n : ℕ) (salt : List ℕ) → rng n ≡ some salt → length salt ≡ n)
    → new_encryptor c rng password strength ≡ ok e
    → new_encryptor c rng other strength ≡ ok e'
    → e'.password_verify ≢ e.password_verify
    → new_decryptor c other e.strength e.salt e.password_verify ≡ err incorrect_password
new_decryptor-other c rng password other strength e e' fills made made' differs =
    let (salt, mac, r, m, same) = new_encryptor_cases c password strength rng e made in
    let (salt', mac', r', m', same') = new_encryptor_cases c other strength rng e' made' in
    let salt_same : salt' ≡ salt = cc (r, r') in
    let verify : e'.password_verify ≡ (made_with c other strength salt mac').password_verify =
      ap (λ (x : AesEncryptor c). x.password_verify) (sym same')
      ∙ ap (λ (t : List ℕ). (made_with c other strength t mac').password_verify) salt_same in
    subst
      (λ (x : AesEncryptor c).
        e'.password_verify ≢ x.password_verify
        → new_decryptor c other x.strength x.salt x.password_verify ≡ err incorrect_password)
      same
      (λ ne.
        refused c other strength salt (made_with c password strength salt mac).password_verify mac'
          (fills (salt_size strength) salt r) (λ q. ne (verify ∙ q)))
      differs

-- What a new encryptor has: a salt of its strength's size, two verification bytes, and the start of
-- the stream.
pub new_encryptor-fields :
    (c : Crypto) (rng : ℕ → Option (List ℕ)) (password : List ℕ) (strength : AesStrength)
    (e : AesEncryptor c)
    → ((n : ℕ) (salt : List ℕ) → rng n ≡ some salt → length salt ≡ n)
    → new_encryptor c rng password strength ≡ ok e
    → (length e.salt ≡ salt_size e.strength) × (length e.password_verify ≡ 2) × (e.byte_offset ≡ 0)
new_encryptor-fields c rng password strength e fills made =
    let (salt, mac, r, m, same) = new_encryptor_cases c password strength rng e made in
    subst
      (λ (x : AesEncryptor c).
        (length x.salt ≡ salt_size x.strength)
        × (length x.password_verify ≡ 2)
        × (x.byte_offset ≡ 0))
      same (fills (salt_size strength) salt r, refl, refl)
