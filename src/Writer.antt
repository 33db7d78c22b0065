-- ===== src/Writer.antt =====
-- src/writer.rs: `StreamingZipWriter`, with the features `encryption` and `zstd-support`. The proofs
-- are in the children.
pub mod Finish
pub mod Cipher
pub mod Progress
pub mod WriteData
pub mod Close
pub mod Start
pub mod Stats
use Prim.Native.Nat.{bit_or}
use s_zip.Common.{
  ℕ, zero, suc, ◌+◌, ◌-◌, ◌%◌, Bool, true, false, ◌||◌, List, [], ◌∷◌, ◌++◌, Option, none, some,
  leb, if◌then◌else◌, length, to_le_bytes, u16_mod, u32_mod, u32_max, ltb, u8_mod,
}
use s_zip.Outcome.{Result, ok, err, panic, invalid_format, no_entry_started}
use s_zip.External.{External}
use s_zip.Encryption.{
  AesStrength, aes256, to_winzip_code, AesEncryptor, new_encryptor, update_encryptor_hmac, encrypt,
  finalize_encryptor,
}
use s_zip.Options.{EntryOptions, default_options, msdos_datetime, unix_extra_field, ZipStats}
use s_zip.Compress.{
  CompressionMethod, deflate, to_zip_method, take_buffer, should_flush, Compressor, new_compressor,
  write_flush, get_buffer, set_buffer, finish_compression, add_u64, CrcCounter, new_counter,
  update_uncompressed, add_compressed, finalize_crc,
}
use s_zip.Central.{ZipEntry, central_headers, end_records}
use s_zip.Sink.{Exec, ◌>>=◌, ◌>>◌, pure, fail, lift, gets, Sink, write_chunks, stream_position}

module _ (ext : External) where
  pub record CurrentEntry : Type 0 where
    pub name : List ℕ
    pub local_header_offset : ℕ
    pub encoder : Compressor ext
    pub counter : CrcCounter ext.hasher
    pub compression_method : ℕ
    pub encryptor : Option (AesEncryptor ext.crypto)

module _ (ext : External) where
  pub record StreamingZipWriter : Type 0 where
    pub output : Sink
    pub entries : List ZipEntry
    pub current_entry : Option (CurrentEntry ext)
    pub compression_level : ℕ
    pub compression_method : CompressionMethod
    pub password : Option (List ℕ)
    pub encryption_strength : AesStrength

module _ (ext : External) where
  unfoldable pub from_writer_with_method : Sink → CompressionMethod → ℕ → StreamingZipWriter ext
  from_writer_with_method writer method compression_level = record {
    output = writer;
    entries = [];
    current_entry = none;
    compression_level = compression_level;
    compression_method = method;
    password = none;
    encryption_strength = aes256;
  }

  unfoldable pub from_writer_with_compression : Sink → ℕ → StreamingZipWriter ext
  unfolding from_writer_with_method
  from_writer_with_compression writer level = from_writer_with_method writer deflate level

  unfoldable pub from_writer : Sink → StreamingZipWriter ext
  unfolding from_writer_with_compression
  from_writer writer = from_writer_with_compression writer 6

  unfoldable pub set_password : List ℕ → StreamingZipWriter ext → StreamingZipWriter ext
  set_password password w = record w { password = some password }

  unfoldable pub set_encryption_strength :
      AesStrength → StreamingZipWriter ext → StreamingZipWriter ext
  set_encryption_strength strength w = record w { encryption_strength = strength }

  unfoldable pub clear_password : StreamingZipWriter ext → StreamingZipWriter ext
  clear_password w = record w { password = none }

  pub entry_count : StreamingZipWriter ext → ℕ
  entry_count w = length w.entries + elim w.current_entry [ none ↦ 0 | some entry ↦ 1 ]

  sum_uncompressed : List ZipEntry → ℕ
  sum_uncompressed [] = 0
  sum_uncompressed (e ∷ es) = add_u64 e.uncompressed_size (sum_uncompressed es)

  pub bytes_written : StreamingZipWriter ext → ℕ
  unfolding sum_uncompressed
  bytes_written w = sum_uncompressed w.entries

  abbrev pub Writing : Type 0 → Type 0
  Writing A = Exec (StreamingZipWriter ext) A

  -- A call on the field `output`.
  unfoldable pub on_output : {A : Type 0} → Exec Sink A → Writing A
  on_output m w = let (r, output) = m w.output in (r, record w { output = output })

  -- Encrypts where the entry has an encryptor.
  unfoldable pub encrypt_if :
      Option (AesEncryptor ext.crypto) → List ℕ → List ℕ × Option (AesEncryptor ext.crypto)
  encrypt_if none bytes = (bytes, none)
  encrypt_if (some e) bytes = let (out, e') = encrypt ext.crypto e bytes in (out, some e')

  -- The code of an encrypted entry, to be written, and its strength's code.
  unfoldable pub finish_encryption : Option (AesEncryptor ext.crypto) → List ℕ × Option ℕ
  finish_encryption none = ([], none)
  finish_encryption (some e) = (finalize_encryptor ext.crypto e, some (to_winzip_code e.strength))

  -- The data descriptor.
  unfoldable pub data_descriptor : ℕ → ℕ → ℕ → List (List ℕ)
  data_descriptor crc compressed_size uncompressed_size =
      (0x50 ∷ 0x4b ∷ 0x07 ∷ 0x08 ∷ [])
      ∷ to_le_bytes 4 crc
      ∷ (if ltb u32_max compressed_size || ltb u32_max uncompressed_size
          then to_le_bytes 8 compressed_size ∷ to_le_bytes 8 uncompressed_size ∷ []
          else to_le_bytes 4 (compressed_size % u32_mod)
            ∷ to_le_bytes 4 (uncompressed_size % u32_mod)
            ∷ [])

  -- The entry is taken out first, so that a failed write loses it.
  unfoldable pub take_current : Writing (Option (CurrentEntry ext))
  take_current w = (ok w.current_entry, record w { current_entry = none })

  unfoldable pub push_entry : ZipEntry → Writing (Unit {0})
  push_entry entry w = (ok tt, record w { entries = w.entries ++ entry ∷ [] })

  -- The rest of the closing, once the data is out.
  unfoldable pub seal_entry :
      CurrentEntry ext
      → CrcCounter ext.hasher
      → Option (AesEncryptor ext.crypto)
      → Writing (Unit {0})
  unfolding data_descriptor finish_encryption
  seal_entry entry counter encryptor = do
    let (auth_code, strength_code) = finish_encryption encryptor
    on_output (write_chunks (auth_code ∷ []))
    let crc = finalize_crc ext.hasher counter
    let compressed_size = add_u64 counter.compressed_count (length auth_code)
    let uncompressed_size = counter.uncompressed_count
    on_output (write_chunks (data_descriptor crc compressed_size uncompressed_size))
    push_entry (record {
      name = entry.name;
      local_header_offset = entry.local_header_offset;
      crc32 = crc;
      compressed_size = compressed_size;
      uncompressed_size = uncompressed_size;
      compression_method = entry.compression_method;
      encryption_strength = strength_code;
    })

  unfoldable pub close_entry : CurrentEntry ext → Writing (Unit {0})
  unfolding seal_entry encrypt_if
  close_entry entry = do
    let remaining_data = (take_buffer (finish_compression ext entry.encoder)).0
    let (data_to_write, encryptor) = encrypt_if entry.encryptor remaining_data
    on_output (write_chunks (data_to_write ∷ []))
    seal_entry entry (add_compressed ext.hasher entry.counter (length data_to_write)) encryptor

  unfoldable pub finish_current_entry : Writing (Unit {0})
  unfolding close_entry take_current
  finish_current_entry = do
    current ← take_current
    elim current [ none ↦ pure tt | some entry ↦ close_entry entry ]

  abbrev pub make_encryptor :
      (ℕ → Option (List ℕ))
      → Option (List ℕ)
      → AesStrength
      → Result (Option (AesEncryptor ext.crypto))
  make_encryptor rng none strength = ok none
  make_encryptor rng (some password) strength =
      elim (new_encryptor ext.crypto rng password strength) [
        | ok e ↦ ok (some e)
        | err e ↦ err e
        | panic ↦ panic
      ]

  abbrev encryption_flag : Option (AesEncryptor ext.crypto) → ℕ
  encryption_flag none = 0x00
  encryption_flag (some e) = 0x01

  -- The length of the AES field alone is 11; the Unix field's is added, though it is not written.
  abbrev local_extra_len : Option (AesEncryptor ext.crypto) → EntryOptions → ℕ
  local_extra_len none options = 0 + length (unix_extra_field options)
  local_extra_len (some e) options = 11 + length (unix_extra_field options)

  -- The AES field, the salt and the verification bytes.
  abbrev pub local_aes : Option (AesEncryptor ext.crypto) → ℕ → List (List ℕ)
  local_aes none method = []
  local_aes (some e) method =
      (0x01 ∷ 0x99 ∷ [])
      ∷ (7 ∷ 0 ∷ [])
      ∷ (2 ∷ 0 ∷ [])
      ∷ (0x41 ∷ 0x45 ∷ [])
      ∷ ((to_winzip_code e.strength % u8_mod) ∷ [])
      ∷ to_le_bytes 2 method
      ∷ e.salt
      ∷ e.password_verify
      ∷ []

  unfoldable pub local_header :
      List ℕ → EntryOptions → ℕ → Option (AesEncryptor ext.crypto) → List (List ℕ)
  local_header name options method encryptor =
      let (dos_time, dos_date) = msdos_datetime options in
      (0x50 ∷ 0x4b ∷ 0x03 ∷ 0x04 ∷ [])
      ∷ (51 ∷ 0 ∷ [])
      ∷ (bit_or 8 (encryption_flag encryptor) ∷ 0 ∷ [])
      ∷ to_le_bytes 2 method
      ∷ to_le_bytes 2 dos_time
      ∷ to_le_bytes 2 dos_date
      ∷ to_le_bytes 4 0
      ∷ to_le_bytes 4 0
      ∷ to_le_bytes 4 0
      ∷ to_le_bytes 2 (length name % u16_mod)
      ∷ to_le_bytes 2 (local_extra_len encryptor options % u16_mod)
      ∷ name
      ∷ local_aes encryptor method

  -- The counter of an encrypted entry starts with the salt and the verification bytes.
  abbrev pub initial_counter : Option (AesEncryptor ext.crypto) → CrcCounter ext.hasher
  initial_counter none = new_counter ext.hasher
  initial_counter (some e) = add_compressed ext.hasher (new_counter ext.hasher) (length e.salt + 2)

  unfoldable pub set_current : CurrentEntry ext → Writing (Unit {0})
  set_current entry w = (ok tt, record w { current_entry = some entry })

  -- `rng` is the system's answer to the request for a salt.
  unfoldable pub start_entry_with_options_and_hint :
      (ℕ → Option (List ℕ)) → List ℕ → EntryOptions → Option ℕ → Writing (Unit {0})
  unfolding local_header
  start_entry_with_options_and_hint rng name options size_hint = do
    finish_current_entry
    local_header_offset ← on_output stream_position
    w ← gets (λ w. w)
    let method = to_zip_method w.compression_method
    encryptor ← lift (make_encryptor rng w.password w.encryption_strength)
    on_output (write_chunks (local_header name options method encryptor))
    encoder ← lift (new_compressor ext w.compression_method w.compression_level size_hint)
    set_current (record {
      name = name;
      local_header_offset = local_header_offset;
      encoder = encoder;
      counter = initial_counter encryptor;
      compression_method = method;
      encryptor = encryptor;
    })

  pub start_entry_with_options : (ℕ → Option (List ℕ)) → List ℕ → EntryOptions → Writing (Unit {0})
  start_entry_with_options rng name options =
      start_entry_with_options_and_hint rng name options none

  pub start_entry_with_hint : (ℕ → Option (List ℕ)) → List ℕ → Option ℕ → Writing (Unit {0})
  start_entry_with_hint rng name size_hint =
      start_entry_with_options_and_hint rng name default_options size_hint

  pub start_entry : (ℕ → Option (List ℕ)) → List ℕ → Writing (Unit {0})
  unfolding start_entry_with_hint
  start_entry rng name = start_entry_with_hint rng name none

  -- The data is hashed before it is compressed.
  unfoldable pub update_hmac_if :
      Option (AesEncryptor ext.crypto) → List ℕ → Option (AesEncryptor ext.crypto)
  update_hmac_if none bytes = none
  update_hmac_if (some e) bytes = some (update_encryptor_hmac ext.crypto e bytes)

  -- What an entry becomes when it takes the bytes, before the buffer is looked at.
  unfoldable pub absorb : CurrentEntry ext → List ℕ → CurrentEntry ext
  unfolding update_hmac_if
  absorb entry bytes = record entry {
    counter = update_uncompressed ext.hasher entry.counter bytes;
    encryptor = update_hmac_if entry.encryptor bytes;
    encoder = write_flush ext entry.encoder bytes;
  }

  -- A full buffer goes to the output, encrypted where the entry is.
  unfoldable pub flush_entry : CurrentEntry ext → Writing (Unit {0})
  unfolding encrypt_if
  flush_entry entry = do
    let (compressed_data, emptied) = take_buffer (get_buffer ext entry.encoder)
    let (data_to_write, encryptor) = encrypt_if entry.encryptor compressed_data
    let written = record entry {
      encoder = set_buffer ext entry.encoder emptied;
      encryptor = encryptor;
    }
    set_current written
    on_output (write_chunks (data_to_write ∷ []))
    set_current (record written {
      counter = add_compressed ext.hasher entry.counter (length data_to_write);
    })

  unfoldable pub write_data : List ℕ → Writing (Unit {0})
  unfolding absorb flush_entry set_current
  write_data bytes = do
    current ← gets (λ w. w.current_entry)
    elim current [
      | none ↦ fail (invalid_format no_entry_started)
      | some entry ↦ do
        let entry' = absorb entry bytes
        if should_flush (get_buffer ext entry'.encoder)
            then flush_entry entry'
            else set_current entry'
    ]

  pub add_entry : (ℕ → Option (List ℕ)) → List ℕ → List ℕ → Writing (Unit {0})
  add_entry rng name bytes = do start_entry rng name; write_data bytes

  -- The central directory and the end records.
  pub write_directory : Writing (Unit {0})
  write_directory = do
    central_dir_offset ← on_output stream_position
    entries ← gets (λ w. w.entries)
    on_output (write_chunks (central_headers entries))
    end_of_dir ← on_output stream_position
    on_output (
        write_chunks
          (end_records (length entries) (end_of_dir - central_dir_offset) central_dir_offset))

  -- Everything that `finish` does but giving the sink back.
  pub finish_all : Writing (Unit {0})
  finish_all = do finish_current_entry; write_directory

  -- The writer is consumed; its sink is given back where all went well.
  pub finish : StreamingZipWriter ext → Result Sink
  finish w =
      let (r, w') = finish_all w in elim r [ ok u ↦ ok w'.output | err e ↦ err e | panic ↦ panic ]

  sum_compressed : List ZipEntry → ℕ
  sum_compressed [] = 0
  sum_compressed (e ∷ es) = add_u64 e.compressed_size (sum_compressed es)

  any_encrypted : List ZipEntry → Bool
  any_encrypted [] = false
  any_encrypted (e ∷ es) =
      elim e.encryption_strength [ none ↦ false | some code ↦ true ] || any_encrypted es

  -- The statistics are taken once the open entry is closed, before `finish`.
  pub finish_with_stats : StreamingZipWriter ext → Result (Sink × ZipStats)
  unfolding sum_uncompressed sum_compressed any_encrypted
  finish_with_stats w =
      let (closed, w') = finish_current_entry w in
      let stats : ZipStats = record {
        entry_count = length w'.entries;
        total_uncompressed_bytes = sum_uncompressed w'.entries;
        total_compressed_bytes = sum_compressed w'.entries;
        encrypted = any_encrypted w'.entries;
      } in
      elim closed [
        | ok u ↦ elim (finish w') [ ok sink ↦ ok (sink, stats) | err e ↦ err e | panic ↦ panic ]
        | err e ↦ err e
        | panic ↦ panic
      ]
