-- ===== src/RoundTrip/Payload.antt =====
-- The data of an entry, plain and encrypted, read by `read_entry` of src/reader.rs.
use s_zip.Common.{
  ℕ, ◌+◌, ◌-◌, ◌^◌, ◌≤◌, ◌<◌, ◌≡◌, refl, sym, ap, ◌∙◌, inl, inr, true, not, ◌&&◌, List, [], ◌∷◌,
  ◌++◌, Option, none, some, arith, length, flatten, append-nil, Bool-cases, ltb-false, eq_true,
  ◌==◌, All,
}
use s_zip.Outcome.{ok}
use s_zip.External.{External}
use s_zip.Format.{ZipEntry, max_entry_alloc}
use s_zip.Encryption.{
  CounterMode, AesEncryptor, AesDecryptor, salt_size, new_decryptor, decrypt, update_decryptor_hmac,
  finalize_encryptor, verify_auth_code,
}
use s_zip.Encryption.Keystream.{apply_ctr_keystream-entry, apply_keystream_undo, entry_stream}
use s_zip.Encryption.Session.{Matches, hash_encryptor, hash_decryptor}
use s_zip.Encryption.Auth.{StreamingMac, verify_auth_code-finalize}
use s_zip.Cursor.Runs.{Runs, Runs-pure, Runs-bind, Runs-read_exact, Runs-lift}
use s_zip.Entry.{read_payload, decrypt_data, decompress, authenticate, check_crc}
use s_zip.Writer.Cipher.{cipher, length-cipher}

module _ (ext : External) (password : Option (List ℕ)) (entry : ZipEntry) (bytes : List ℕ) where
  check_crc-same : entry.crc32 ≡ ext.hasher.hash bytes → check_crc ext entry bytes ≡ ok tt
  unfolding check_crc
  check_crc-same e = elim (Bool-cases (not (entry.crc32 == 0) && not entry.is_encrypted)) [
    | inl b ↦ rw (b, check_crc, eq_true (ext.hasher.hash bytes) entry.crc32 (sym e))
    | inr b ↦ rw (b, check_crc)
  ]

  -- The reader takes the data of an entry that is not encrypted, and gives what it decompresses to,
  -- where the checksum is that of the result.
  pub Runs-read_payload_plain :
      (compressed : List ℕ)
      → entry.compressed_size ≡ length compressed
      → length compressed ≤ max_entry_alloc
      → decompress ext entry.compression_method compressed ≡ ok bytes
      → entry.crc32 ≡ ext.hasher.hash bytes
      → Runs (read_payload ext password entry none) compressed bytes
  unfolding read_payload decrypt_data authenticate
  Runs-read_payload_plain compressed size small decompressed crc =
      rw (ltb-false max_entry_alloc entry.compressed_size (omega arith)) (
        rw (sym (append-nil compressed)) (
          Runs-bind _ _ (Runs-read_exact entry.compressed_size compressed (sym size)) (
            Runs-bind _ _ (Runs-pure []) (
              Runs-bind _ _ (Runs-lift _ refl) (
                Runs-bind _ _ (Runs-lift _ decompressed) (
                  Runs-bind _ _ (Runs-lift _ refl)
                    (Runs-bind _ _ (Runs-lift _ (check_crc-same crc)) (Runs-pure bytes))))))))

module _ (ext : External) (laws : CounterMode ext.crypto) (mac : StreamingMac ext.crypto)
    (password : List ℕ) (e : AesEncryptor ext.crypto) (d : AesDecryptor ext.crypto)
    (m : Matches e d)
    (made : new_decryptor ext.crypto password e.strength e.salt e.password_verify ≡ ok d)
    (entry : ZipEntry) (encrypted : entry.is_encrypted ≡ true) where
  -- Decryption gives the compressed data back.
  decrypted :
      (compressed : List ℕ)
      → All (λ b. b < 256) compressed
      → e.byte_offset + length compressed < 2 ^ 64
      → (decrypt ext.crypto d (cipher ext laws (some e) compressed)).0 ≡ compressed
  unfolding decrypt cipher
  decrypted compressed are_bytes fits =
      rw (m.same_strength, m.same_key, m.same_offset)
        (apply_ctr_keystream-entry ext.crypto laws e.strength e.encryption_key e.byte_offset _
            (omega arith)
          ∙ apply_keystream_undo (entry_stream ext.crypto laws e.strength e.encryption_key)
              (laws.is_byte e.strength e.encryption_key _) e.byte_offset compressed are_bytes)

  authenticated :
      (chunks : List (List ℕ)) (offset : ℕ)
      → authenticate ext
          (some (record d { byte_offset = offset }))
          (finalize_encryptor ext.crypto (hash_encryptor ext.crypto e chunks))
          (flatten chunks)
        ≡ ok tt
  unfolding authenticate update_decryptor_hmac hash_decryptor verify_auth_code
  authenticated chunks offset =
      (verify_auth_code-finalize ext.crypto mac e d chunks (flatten chunks ∷ [])
          (finalize_encryptor ext.crypto (hash_encryptor ext.crypto e chunks)) m
          (sym (append-nil (flatten chunks)))).1
        refl

  unlocked :
      (sealed_data : List ℕ)
      → decrypt_data ext (some password) (some (e.strength, e.salt, e.password_verify)) sealed_data
        ≡ ok ((decrypt ext.crypto d sealed_data).0, some (decrypt ext.crypto d sealed_data).1)
  unfolding decrypt_data
  unlocked sealed_data = rw (made, decrypt_data)

  -- The checksum of an encrypted entry is not checked.
  unchecked : (bytes : List ℕ) → check_crc ext entry bytes ≡ ok tt
  unfolding check_crc
  unchecked bytes = elim (Bool-cases (entry.crc32 == 0)) [
    | inl b ↦ rw (b, check_crc)
    | inr b ↦ rw (b, encrypted, check_crc)
  ]

  -- The reader takes the data and the code of an encrypted entry, and gives what the decrypted sealed_data
  -- decompresses to.
  pub Runs-read_payload_encrypted :
      (compressed : List ℕ) (chunks : List (List ℕ))
      → All (λ b. b < 256) compressed
      → e.byte_offset + length compressed < 2 ^ 64
      → entry.compressed_size ≡ length compressed + (salt_size e.strength + 2 + 10)
      → length compressed ≤ max_entry_alloc
      → decompress ext entry.compression_method compressed ≡ ok (flatten chunks)
      → length (finalize_encryptor ext.crypto (hash_encryptor ext.crypto e chunks)) ≡ 10
      → Runs
          (read_payload ext (some password) entry (some (e.strength, e.salt, e.password_verify)))
          (cipher ext laws (some e) compressed
            ++ finalize_encryptor ext.crypto (hash_encryptor ext.crypto e chunks))
          (flatten chunks)
  unfolding read_payload decrypt_data check_crc decrypt
  Runs-read_payload_encrypted compressed chunks are_bytes fits size small decompressed code_fits =
      let data_fits : entry.compressed_size - (salt_size e.strength + 2 + 10) ≡ length compressed =
        omega (arith, size) in
      let code = finalize_encryptor ext.crypto (hash_encryptor ext.crypto e chunks) in
      let sealed_data = cipher ext laws (some e) compressed in
      let data_size : length sealed_data ≡ entry.compressed_size - (salt_size e.strength + 2 + 10) =
        omega (arith, data_fits, length-cipher ext laws (some e) compressed) in
      rw
        (ltb-false max_entry_alloc (entry.compressed_size - (salt_size e.strength + 2 + 10))
          (omega arith))
        (rw (sym (append-nil code)) (
          Runs-bind _ _ (Runs-read_exact _ sealed_data data_size) (
            Runs-bind _ _ (Runs-read_exact 10 code code_fits) (
              Runs-bind _ _ (Runs-lift _ (unlocked sealed_data)) (
                Runs-bind _ _
                  (Runs-lift _ (
                    ap (decompress ext entry.compression_method)
                      (decrypted compressed are_bytes fits)
                    ∙ decompressed))
                  (Runs-bind _ _ (Runs-lift _ (authenticated chunks _)) (
                    Runs-bind _ _ (Runs-lift _ (unchecked (flatten chunks)))
                      (Runs-pure (flatten chunks)))))))))
