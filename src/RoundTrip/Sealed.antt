-- ===== src/RoundTrip/Sealed.antt =====
-- An encrypted entry that src/writer.rs has written, read back by `read_entry` of src/reader.rs with
-- the same password.
use s_zip.Common.{
  ℕ, ◌+◌, ◌^◌, ◌≤◌, ◌-◌, ◌<◌, ◌≡◌, ◌≢◌, refl, sym, ap, ◌∙◌, true, List, ◌++◌, [], ltb-false,
  append-nil, Option, none, some, arith, length, flatten, append_assoc, length-append, drop,
  drop_append, take, u16_mod, All,
}
use s_zip.Outcome.{ok, err, SZipError, incorrect_password, invalid_format, no_password}
use s_zip.External.{External, CodecLaws}
use s_zip.Format
use s_zip.Format.{max_entry_alloc}
use s_zip.Encryption.{
  CounterMode, AesStrength, aes128, aes192, aes256, AesEncryptor, new_encryptor, salt_size,
  finalize_encryptor,
}
use s_zip.Encryption.Session.{
  hash_encryptor, new_decryptor-other, new_decryptor-new_encryptor, new_encryptor-fields,
}
use s_zip.Encryption.Auth.{StreamingMac, length-finalize_encryptor}
use s_zip.Options.{SystemTime}
use s_zip.Compress.{Compressor, to_zip_method, new_compressor, new_counter, add_compressed}
use s_zip.Cursor.Runs.{Before, Runs-bind, Runs-read_exact, bind_ok}
use s_zip.Cursor.Fails.{Fails, Fails-bind, Fails-first, Fails-lift}
use s_zip.Reader.EndRecord.{seek_start_small}
use s_zip.Entry.{read_entry_data, read_payload, decrypt_data}
use s_zip.Writer.{
  CurrentEntry, StreamingZipWriter, local_header, finish_encryption, data_descriptor,
}
use s_zip.Writer.Cipher.{cipher, moved, hmac-hash_encryptor, length-cipher}
use s_zip.Writer.Close.{
  all_compressed, code_and_strength, closed_entry, closed_bytes, crc_of, compressed_size_of,
  uncompressed_size_of,
}
use s_zip.Writer.Start.{opened, before_data}
use s_zip.RoundTrip.Entry.{seen}
use s_zip.RoundTrip.Local.{plain_options, Runs-read_local_header_encrypted}
use s_zip.RoundTrip.Payload.{Runs-read_payload_encrypted}
use s_zip.RoundTrip.Extract.{decompress-remaining, to_zip_method-lt, regroup}

salt_size-le : (s : AesStrength) → salt_size s ≤ 16
unfolding salt_size
salt_size-le aes128 = omega arith
salt_size-le aes192 = omega arith
salt_size-le aes256 = omega arith

module _ (ext : External) (laws : CounterMode ext.crypto) (mac : StreamingMac ext.crypto)
    (codec : CodecLaws ext) (rng : ℕ → Option (List ℕ))
    (fills : (n : ℕ) (salt : List ℕ) → rng n ≡ some salt → length salt ≡ n) (name : List ℕ)
    (mtime : Option SystemTime) (hint : Option ℕ) (w : StreamingZipWriter ext) (password : List ℕ)
    (e : AesEncryptor ext.crypto)
    (keyed : new_encryptor ext.crypto rng password w.encryption_strength ≡ ok e)
    (encoder : Compressor ext)
    (made : new_compressor ext w.compression_method w.compression_level hint ≡ ok encoder)
    (name_fits : length name < u16_mod) (chunks : List (List ℕ)) where
  abbrev start : CurrentEntry ext
  start = opened ext rng name (plain_options mtime) hint w (some e) encoder

  abbrev base : List ℕ
  base = before_data ext rng name (plain_options mtime) hint w (some e) encoder

  abbrev all : List ℕ
  all = all_compressed ext laws start chunks

  abbrev entry : Format.ZipEntry
  entry = seen (closed_entry ext laws start chunks)

  abbrev file : List ℕ → List ℕ
  file rest = (base ++ closed_bytes ext laws start chunks) ++ rest

  abbrev code : List ℕ
  code = finalize_encryptor ext.crypto (hash_encryptor ext.crypto e chunks)

  code_same : (code_and_strength ext laws start chunks).0 ≡ code
  unfolding moved finish_encryption finalize_encryptor
  code_same =
      ap (λ (t : ext.crypto.Mac). take 10 (ext.crypto.finalize t))
        (hmac-hash_encryptor ext.crypto e chunks)

  size_same :
      length all ≤ max_entry_alloc
      → entry.compressed_size ≡ length all + (salt_size e.strength + 2 + 10)
  unfolding new_counter add_compressed
  size_same small = omega (
    arith,
    ap length code_same,
    length-finalize_encryptor ext.crypto mac (hash_encryptor ext.crypto e chunks),
    (new_encryptor-fields ext.crypto rng password w.encryption_strength e fills keyed).0,
    salt_size-le e.strength,
  )

  is_encrypted : entry.is_encrypted ≡ true
  unfolding moved finish_encryption
  is_encrypted = refl

  abbrev head : List ℕ
  head =
      flatten
        (local_header ext name (plain_options mtime) (to_zip_method w.compression_method) (some e))

  abbrev sealed_all : List ℕ
  sealed_all = cipher ext laws (some e) all

  abbrev tail : List ℕ
  tail = flatten (
      data_descriptor ext (crc_of ext laws start chunks) (compressed_size_of ext laws start chunks)
        (uncompressed_size_of ext laws start chunks))

  module _ (rest : List ℕ) where
    parts : file rest ≡ w.output.written ++ ((head ++ (sealed_all ++ code)) ++ (tail ++ rest))
    parts =
        ap (λ (t : List ℕ). (base ++ (sealed_all ++ (t ++ tail))) ++ rest) code_same
        ∙ ap (λ (t : List ℕ). (base ++ t) ++ rest) (sym (append_assoc sealed_all code tail))
        ∙ regroup w.output.written head (sealed_all ++ code) tail rest

    sizes :
        length (file rest)
        ≡ length w.output.written + length ((head ++ (sealed_all ++ code)) ++ (tail ++ rest))
    sizes =
        ap length parts
        ∙ length-append w.output.written ((head ++ (sealed_all ++ code)) ++ (tail ++ rest))

    -- Behind the seek, the reader stands before the entry.
    at_entry :
        length (file rest) < 2 ^ 63
        → Before
            (record { bytes = file rest; pos = length w.output.written })
            ((head ++ (sealed_all ++ code)) ++ (tail ++ rest))
    at_entry in_file = record {
      here =
          ap (drop (length w.output.written)) parts
          ∙ drop_append (length w.output.written) w.output.written _ refl;
      inside = omega (arith, sizes);
      small = in_file;
    }

  -- An entry that was written under a password is read back with it, whatever follows the entry in the
  -- file: the key is derived again, the code is accepted, and the reader gives exactly the bytes of
  -- the chunks, in their order.
  pub read_entry_data-sealed :
      (rest : List ℕ) (p : ℕ)
      → All (λ b. b < 256) all
      → length all ≤ max_entry_alloc
      → length (file rest) < 2 ^ 63
      → read_entry_data ext (some password) entry (record { bytes = file rest; pos = p })
        ≡ ok (flatten chunks, record { bytes = file rest; pos = length base + length all + 10 })
  unfolding read_entry_data
  read_entry_data-sealed rest p are_bytes small in_file =
      let (d, unlocked, m) =
        new_decryptor-new_encryptor ext.crypto rng password w.encryption_strength e fills keyed in
      let (salt_fits, verify_fits, at_start) =
        new_encryptor-fields ext.crypto rng password w.encryption_strength e fills keyed in
      let code_fits =
        length-finalize_encryptor ext.crypto mac (hash_encryptor ext.crypto e chunks) in
      bind_ok _ _ (seek_start_small (length w.output.written) _ (omega (arith, sizes rest)))
      ∙ (Runs-bind _ _
            (Runs-read_local_header_encrypted ext name mtime (to_zip_method w.compression_method)
              name_fits (to_zip_method-lt w.compression_method) e salt_fits verify_fits)
            (Runs-read_payload_encrypted ext laws mac password e d m unlocked entry is_encrypted all
              chunks are_bytes (omega (arith, at_start)) (size_same small) small
              (decompress-remaining ext codec w.compression_method w.compression_level hint encoder
                chunks made)
              code_fits)).at
          _ (tail ++ rest) (at_entry rest in_file)
      ∙ ap (λ (q : ℕ). ok (flatten chunks, record { bytes = file rest; pos = q }))
          (omega (
            arith,
            code_fits,
            length-append w.output.written head,
            length-append head (sealed_all ++ code),
            length-append sealed_all code,
            length-cipher ext laws (some e) all,
          ))

  -- The password of the reader does not unlock the entry.
  Refuses : Option (List ℕ) → SZipError → Type 0
  Refuses other x =
      decrypt_data ext other (some (e.strength, e.salt, e.password_verify)) sealed_all ≡ err x

  Fails-read_payload :
      (other : Option (List ℕ)) (x : SZipError)
      → Refuses other x
      → length all ≤ max_entry_alloc
      → Fails
          (read_payload ext other entry (some (e.strength, e.salt, e.password_verify)))
          (sealed_all ++ code)
          x
  unfolding read_payload Refuses
  Fails-read_payload other x refuses small =
      let size = entry.compressed_size - (salt_size e.strength + 2 + 10) in
      let whole : size ≡ length all = omega (arith, size_same small) in
      let data_size : length sealed_all ≡ size =
        omega (arith, whole, length-cipher ext laws (some e) all) in
      let code_fits =
        length-finalize_encryptor ext.crypto mac (hash_encryptor ext.crypto e chunks) in
      rw (ltb-false max_entry_alloc size (omega (arith, whole))) (
        rw (sym (append-nil code)) (
          Fails-bind _ _ (Runs-read_exact size sealed_all data_size) (
            Fails-bind _ _ (Runs-read_exact 10 code code_fits)
              (Fails-first _ _ (Fails-lift _ [] refuses)))))

  read_entry_data-refused :
      (other : Option (List ℕ)) (x : SZipError) (rest : List ℕ) (p : ℕ)
      → Refuses other x
      → length all ≤ max_entry_alloc
      → length (file rest) < 2 ^ 63
      → read_entry_data ext other entry (record { bytes = file rest; pos = p }) ≡ err x
  unfolding read_entry_data
  read_entry_data-refused other x rest p refuses small in_file =
      let (salt_fits, verify_fits, at_start) =
        new_encryptor-fields ext.crypto rng password w.encryption_strength e fills keyed in
      bind_ok _ _ (seek_start_small (length w.output.written) _ (omega (arith, sizes rest)))
      ∙ (Fails-bind _ _
            (Runs-read_local_header_encrypted ext name mtime (to_zip_method w.compression_method)
              name_fits (to_zip_method-lt w.compression_method) e salt_fits verify_fits)
            (Fails-read_payload other x refuses small)).at
          _ (tail ++ rest) (at_entry rest in_file)

  -- An entry that was written under a password is not read under another one that would have made other
  -- verification bytes with its salt, nor without a password: the reader fails with the error that
  -- says so, whatever follows the entry in the file.
  pub read_entry_data-locked :
      (other : List ℕ) (e' : AesEncryptor ext.crypto) (rest : List ℕ) (p : ℕ)
      → new_encryptor ext.crypto rng other w.encryption_strength ≡ ok e'
      → e'.password_verify ≢ e.password_verify
      → length all ≤ max_entry_alloc
      → length (file rest) < 2 ^ 63
      → (read_entry_data ext (some other) entry (record { bytes = file rest; pos = p })
          ≡ err incorrect_password)
        × (read_entry_data ext none entry (record { bytes = file rest; pos = p })
            ≡ err (invalid_format no_password))
  unfolding Refuses decrypt_data
  read_entry_data-locked other e' rest p keyed' differs small in_file = (
    read_entry_data-refused (some other) incorrect_password rest p
        (rw (
          new_decryptor-other ext.crypto rng password other w.encryption_strength e e' fills keyed
              keyed' differs,
          decrypt_data,
        ))
        small in_file,
    read_entry_data-refused none (invalid_format no_password) rest p refl small in_file,
  )
