-- ===== src/Writer/Cipher.antt =====
-- The encryption of an entry's data piece by piece in src/writer.rs, against the encryption of the
-- data as a whole.
use s_zip.Common.{
  ℕ, ◌+◌, ◌^◌, ◌<◌, ◌≡◌, refl, sym, ap, ◌∙◌, List, [], ◌∷◌, ◌++◌, Option, none, some, arith, length,
  length-append,
}
use s_zip.Encryption.{
  Crypto, CounterMode, AesEncryptor, encrypt, update_encryptor_hmac, apply_keystream,
}
use s_zip.Encryption.Keystream.{
  entry_stream, apply_ctr_keystream-entry, apply_keystream-append, apply_keystream_nil,
  length-apply_keystream, length-apply_ctr_keystream,
}
use s_zip.Encryption.Session.{hash_encryptor}
use s_zip.External.{External}
use s_zip.Writer.{encrypt_if, update_hmac_if}

module _ (c : Crypto) where
  unfoldable pub hash_macs : c.Mac → List (List ℕ) → c.Mac
  hash_macs m [] = m
  hash_macs m (x ∷ xs) = hash_macs (c.update m x) xs

  hash_macs_snoc :
      (m : c.Mac) (xs : List (List ℕ)) (x : List ℕ)
      → hash_macs m (xs ++ x ∷ []) ≡ c.update (hash_macs m xs) x
  unfolding hash_macs
  hash_macs_snoc m [] x = refl
  hash_macs_snoc m (y ∷ ys) x = hash_macs_snoc (c.update m y) ys x

  -- The code state of the hashed encryptor.
  pub hmac-hash_encryptor :
      (e : AesEncryptor c) (chunks : List (List ℕ))
      → hash_macs e.hmac chunks ≡ (hash_encryptor c e chunks).hmac
  unfolding hash_macs hash_encryptor update_encryptor_hmac
  hmac-hash_encryptor e [] = refl
  hmac-hash_encryptor e (x ∷ xs) = hmac-hash_encryptor (update_encryptor_hmac c e x) xs

module _ (ext : External) (laws : CounterMode ext.crypto) where
  -- The bytes of an entry's data in the file: as they are, or under the entry's stream.
  unfoldable pub cipher : Option (AesEncryptor ext.crypto) → List ℕ → List ℕ
  cipher none raw = raw
  cipher (some e) raw =
      apply_keystream (entry_stream ext.crypto laws e.strength e.encryption_key) e.byte_offset raw

  -- The encryptor after it has hashed chunks and encrypted so many bytes.
  unfoldable pub moved :
      Option (AesEncryptor ext.crypto) → List (List ℕ) → ℕ → Option (AesEncryptor ext.crypto)
  unfolding hash_macs
  moved none chunks count = none
  moved (some e) chunks count =
      some (record e {
        hmac = hash_macs ext.crypto e.hmac chunks;
        byte_offset = e.byte_offset + count;
      })

  -- The offset in the stream stays in 64 bits.
  unfoldable pub InStream : Option (AesEncryptor ext.crypto) → ℕ → Type 0
  InStream none count = Unit
  InStream (some e) count = e.byte_offset + count < 2 ^ 64

  pub cipher_nil : (e : Option (AesEncryptor ext.crypto)) → cipher e [] ≡ []
  unfolding cipher
  cipher_nil none = refl
  cipher_nil (some e) = apply_keystream_nil _ e.byte_offset

  pub length-cipher :
      (e : Option (AesEncryptor ext.crypto)) (raw : List ℕ) → length (cipher e raw) ≡ length raw
  unfolding cipher
  length-cipher none raw = refl
  length-cipher (some e) raw = length-apply_keystream _ e.byte_offset raw

  pub moved_nil : (e : Option (AesEncryptor ext.crypto)) → moved e [] 0 ≡ e
  unfolding moved
  moved_nil none = refl
  moved_nil (some e) = let z : e.byte_offset + 0 ≡ e.byte_offset = omega arith in rw z

  pub update_hmac_if-moved :
      (e : Option (AesEncryptor ext.crypto)) (chunks : List (List ℕ)) (count : ℕ) (bytes : List ℕ)
      → update_hmac_if ext (moved e chunks count) bytes ≡ moved e (chunks ++ bytes ∷ []) count
  unfolding moved update_hmac_if update_encryptor_hmac
  update_hmac_if-moved none chunks count bytes = refl
  update_hmac_if-moved (some e) chunks count bytes =
      rw (hash_macs_snoc ext.crypto e.hmac chunks bytes)

  -- A piece is encrypted to what continues the encryption of the pieces before it.
  pub encrypt_if-cipher :
      (e : Option (AesEncryptor ext.crypto)) (chunks : List (List ℕ)) (raw piece : List ℕ)
      → InStream e (length raw)
      → cipher e raw ++ (encrypt_if ext (moved e chunks (length raw)) piece).0
        ≡ cipher e (raw ++ piece)
  unfolding cipher moved InStream encrypt_if encrypt
  encrypt_if-cipher none chunks raw piece h = refl
  encrypt_if-cipher (some e) chunks raw piece h =
      ap (λ (t : List ℕ). cipher (some e) raw ++ t)
        (apply_ctr_keystream-entry ext.crypto laws e.strength e.encryption_key
          (e.byte_offset + length raw) piece h)
      ∙ sym (apply_keystream-append _ e.byte_offset raw piece)

  pub encrypt_if-moved :
      (e : Option (AesEncryptor ext.crypto)) (chunks : List (List ℕ)) (raw piece : List ℕ)
      → (encrypt_if ext (moved e chunks (length raw)) piece).1
        ≡ moved e chunks (length (raw ++ piece))
  unfolding moved encrypt_if encrypt
  encrypt_if-moved none chunks raw piece = refl
  encrypt_if-moved (some e) chunks raw piece =
      let z : e.byte_offset + length raw + length piece ≡ e.byte_offset + length (raw ++ piece) =
        omega (arith, length-append raw piece) in
      rw z

  pub length-encrypt_if :
      (e : Option (AesEncryptor ext.crypto)) (piece : List ℕ)
      → length (encrypt_if ext e piece).0 ≡ length piece
  unfolding encrypt_if encrypt
  length-encrypt_if none piece = refl
  length-encrypt_if (some e) piece =
      length-apply_ctr_keystream ext.crypto e.strength e.encryption_key e.byte_offset piece
