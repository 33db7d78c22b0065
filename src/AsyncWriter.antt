-- ===== src/AsyncWriter.antt =====
-- src/async_writer.rs: `AsyncStreamingZipWriter`, with the features `encryption`, `zstd-support` and
-- `async-zstd`. A method stands for the `await` of it until it is ready; no other task has the
-- writer. `write_entries_parallel` and the closing of
-- the archive are in the children, with the proofs.
pub mod Compress
pub mod Entries
pub mod Closing
pub mod Sync
pub mod Simulated
pub mod SameClose
pub mod SameStart
pub mod SameWrite
pub mod Alike
pub mod Directory
pub mod Finish
use Prim.Native.Nat.{bit_or}
use s_zip.Common.{
  ℕ, zero, suc, ◌+◌, ◌-◌, ◌%◌, Bool, true, false, ◌||◌, List, [], ◌∷◌, ◌++◌, Option, none, some,
  if◌then◌else◌, length, to_le_bytes, u8_mod, u16_mod, u32_mod, u16_max, u32_max, ltb,
}
use s_zip.Outcome.{Result, ok, err, panic, invalid_format, no_entry_started}
use s_zip.Encryption.{
  AesStrength, aes256, to_winzip_code, AesEncryptor, new_encryptor, update_encryptor_hmac, encrypt,
  finalize_encryptor,
}
use s_zip.Options.{ZipStats}
use s_zip.Compress.{CompressionMethod, deflate, zstd, to_zip_method, add_u64}
use s_zip.Parallel.{CompressedEntry}
use s_zip.Sink.{Exec, ◌>>=◌, ◌>>◌, pure, fail, lift, gets}
use s_zip.AsyncSink.{AsyncSink, write_chunks, stream_position, flush, shutdown}
use s_zip.AsyncWriter.Compress.{
  AsyncExternal, CompressedBuffer, take_buffer, should_flush, Compressor, new_compressor,
  write_flush, get_buffer, set_buffer, finish_compression, CrcCounter, new_counter,
  update_uncompressed, add_compressed, finalize_crc,
}

-- The asynchronous writer's own `ZipEntry`.
pub record ZipEntry : Type 0 where
  pub name : List ℕ
  pub local_header_offset : ℕ
  pub crc32 : ℕ
  pub compressed_size : ℕ
  pub uncompressed_size : ℕ
  pub compression_method : ℕ
  pub encryption_strength : Option ℕ

module _ (ext : AsyncExternal) where
  pub record CurrentEntry : Type 0 where
    pub name : List ℕ
    pub local_header_offset : ℕ
    pub encoder : Compressor ext
    pub counter : CrcCounter ext.hasher
    pub compression_method : ℕ
    pub encryptor : Option (AesEncryptor ext.crypto)

module _ (ext : AsyncExternal) where
  pub record AsyncStreamingZipWriter : Type 0 where
    pub output : AsyncSink
    pub entries : List ZipEntry
    pub current_entry : Option (CurrentEntry ext)
    pub compression_level : ℕ
    pub compression_method : CompressionMethod
    pub password : Option (List ℕ)
    pub encryption_strength : AesStrength

module _ (ext : AsyncExternal) where
  unfoldable pub from_writer_with_method :
      AsyncSink → CompressionMethod → ℕ → AsyncStreamingZipWriter ext
  from_writer_with_method writer method compression_level = record {
    output = writer;
    entries = [];
    current_entry = none;
    compression_level = compression_level;
    compression_method = method;
    password = none;
    encryption_strength = aes256;
  }

  unfoldable pub from_writer_with_compression : AsyncSink → ℕ → AsyncStreamingZipWriter ext
  unfolding from_writer_with_method
  from_writer_with_compression writer level = from_writer_with_method writer deflate level

  unfoldable pub from_writer : AsyncSink → AsyncStreamingZipWriter ext
  unfolding from_writer_with_compression
  from_writer writer = from_writer_with_compression writer 6

  unfoldable pub set_password : List ℕ → AsyncStreamingZipWriter ext → AsyncStreamingZipWriter ext
  set_password password w = record w { password = some password }

  unfoldable pub set_encryption_strength :
      AesStrength → AsyncStreamingZipWriter ext → AsyncStreamingZipWriter ext
  set_encryption_strength strength w = record w { encryption_strength = strength }

  unfoldable pub clear_password : AsyncStreamingZipWriter ext → AsyncStreamingZipWriter ext
  clear_password w = record w { password = none }

  pub entry_count : AsyncStreamingZipWriter ext → ℕ
  entry_count w = length w.entries + elim w.current_entry [ none ↦ 0 | some entry ↦ 1 ]

  unfoldable pub sum_uncompressed : List ZipEntry → ℕ
  sum_uncompressed [] = 0
  sum_uncompressed (e ∷ es) = add_u64 e.uncompressed_size (sum_uncompressed es)

  pub bytes_written : AsyncStreamingZipWriter ext → ℕ
  unfolding sum_uncompressed
  bytes_written w = sum_uncompressed w.entries

  abbrev pub Writing : Type 0 → Type 0
  Writing A = Exec (AsyncStreamingZipWriter ext) A

  -- A call on the field `output`.
  unfoldable pub on_output : {A : Type 0} → Exec AsyncSink A → Writing A
  on_output m w = let (r, output) = m w.output in (r, record w { output = output })

  -- The data descriptor.
  unfoldable pub data_descriptor : ℕ → ℕ → ℕ → List (List ℕ)
  data_descriptor crc compressed_size uncompressed_size =
      (0x50 ∷ 0x4b ∷ 0x07 ∷ 0x08 ∷ [])
      ∷ to_le_bytes 4 crc
      ∷ (if ltb u32_max compressed_size || ltb u32_max uncompressed_size
          then to_le_bytes 8 compressed_size ∷ to_le_bytes 8 uncompressed_size ∷ []
          else to_le_bytes 4 (compressed_size % u32_mod)
            ∷ to_le_bytes 4 (uncompressed_size % u32_mod)
            ∷ [])

  unfoldable pub take_current : Writing (Option (CurrentEntry ext))
  take_current w = (ok w.current_entry, record w { current_entry = none })

  unfoldable pub set_current : CurrentEntry ext → Writing (Unit {0})
  set_current entry w = (ok tt, record w { current_entry = some entry })

  unfoldable pub push_entry : ZipEntry → Writing (Unit {0})
  push_entry entry w = (ok tt, record w { entries = w.entries ++ entry ∷ [] })

  -- Encrypts where the entry has an encryptor.
  unfoldable pub encrypt_if :
      Option (AesEncryptor ext.crypto) → List ℕ → List ℕ × Option (AesEncryptor ext.crypto)
  encrypt_if none bytes = (bytes, none)
  encrypt_if (some e) bytes = let (out, e') = encrypt ext.crypto e bytes in (out, some e')

  -- The authentication code of an encrypted entry and its strength's code, where there is one.
  abbrev pub auth_of : Option (AesEncryptor ext.crypto) → List (List ℕ) × Option ℕ × ℕ
  auth_of none = ([], none, 0)
  auth_of (some e) =
      let auth_code = finalize_encryptor ext.crypto e in
      (auth_code ∷ [], some (to_winzip_code e.strength), length auth_code)

  -- The rest of `finish_current_entry`, once the data is out.
  unfoldable pub seal_entry :
      CurrentEntry ext
      → CrcCounter ext.hasher
      → Option (AesEncryptor ext.crypto)
      → Writing (Unit {0})
  unfolding data_descriptor push_entry on_output
  seal_entry entry counter encryptor = do
    let (auth_code, strength_code, auth_code_size) = auth_of encryptor
    on_output (write_chunks auth_code)
    let crc = finalize_crc ext.hasher counter
    let compressed_size = add_u64 counter.compressed_count auth_code_size
    let uncompressed_size = counter.uncompressed_count
    on_output (write_chunks (data_descriptor crc compressed_size uncompressed_size))
    push_entry (record {
      name = entry.name;
      local_header_offset = entry.local_header_offset;
      crc32 = crc;
      compressed_size = compressed_size;
      uncompressed_size = uncompressed_size;
      compression_method = entry.compression_method;
      encryption_strength = strength_code;
    })

  -- The remaining data is written only where there is some.
  unfoldable pub close_entry : CurrentEntry ext → Writing (Unit {0})
  unfolding seal_entry encrypt_if on_output
  close_entry entry = elim ((take_buffer (finish_compression ext entry.encoder)).0) [
    | [] ↦ seal_entry entry entry.counter entry.encryptor
    | b ∷ bs ↦ do
      let (data_to_write, encryptor) = encrypt_if entry.encryptor (b ∷ bs)
      on_output (write_chunks (data_to_write ∷ []))
      seal_entry entry (add_compressed ext.hasher entry.counter (length data_to_write)) encryptor
  ]

  unfoldable pub finish_current_entry : Writing (Unit {0})
  unfolding close_entry take_current
  finish_current_entry = do
    current ← take_current
    elim current [ none ↦ pure tt | some entry ↦ close_entry entry ]

  abbrev pub make_encryptor :
      (ℕ → Option (List ℕ))
      → Option (List ℕ)
      → AesStrength
      → Result (Option (AesEncryptor ext.crypto))
  make_encryptor rng none strength = ok none
  make_encryptor rng (some password) strength =
      elim (new_encryptor ext.crypto rng password strength) [
        | ok e ↦ ok (some e)
        | err e ↦ err e
        | panic ↦ panic
      ]

  abbrev pub encryption_flag : Option (AesEncryptor ext.crypto) → ℕ
  encryption_flag none = 0x00
  encryption_flag (some e) = 0x01

  abbrev pub extra_len : Option (AesEncryptor ext.crypto) → ℕ
  extra_len none = 0
  extra_len (some e) = 11

  -- The AES field, the salt and the verification bytes.
  abbrev pub local_aes : Option (AesEncryptor ext.crypto) → ℕ → List (List ℕ)
  local_aes none method = []
  local_aes (some e) method =
      (0x01 ∷ 0x99 ∷ [])
      ∷ (7 ∷ 0 ∷ [])
      ∷ (2 ∷ 0 ∷ [])
      ∷ (0x41 ∷ 0x45 ∷ [])
      ∷ ((to_winzip_code e.strength % u8_mod) ∷ [])
      ∷ to_le_bytes 2 method
      ∷ e.salt
      ∷ e.password_verify
      ∷ []

  unfoldable pub local_header : List ℕ → ℕ → Option (AesEncryptor ext.crypto) → List (List ℕ)
  local_header name method encryptor =
      (0x50 ∷ 0x4b ∷ 0x03 ∷ 0x04 ∷ [])
      ∷ (51 ∷ 0 ∷ [])
      ∷ (bit_or 8 (encryption_flag encryptor) ∷ 0 ∷ [])
      ∷ to_le_bytes 2 method
      ∷ (0 ∷ 0 ∷ 0 ∷ 0 ∷ [])
      ∷ to_le_bytes 4 0
      ∷ to_le_bytes 4 0
      ∷ to_le_bytes 4 0
      ∷ to_le_bytes 2 (length name % u16_mod)
      ∷ to_le_bytes 2 (extra_len encryptor % u16_mod)
      ∷ name
      ∷ local_aes encryptor method

  -- The counter of an encrypted entry starts with the salt and the verification bytes.
  abbrev pub initial_counter : Option (AesEncryptor ext.crypto) → CrcCounter ext.hasher
  initial_counter none = new_counter ext.hasher
  initial_counter (some e) = add_compressed ext.hasher (new_counter ext.hasher) (length e.salt + 2)

  -- `rng` is the system's answer to the request for a salt.
  unfoldable pub start_entry_with_hint :
      (ℕ → Option (List ℕ)) → List ℕ → Option ℕ → Writing (Unit {0})
  unfolding finish_current_entry local_header on_output set_current
  start_entry_with_hint rng name size_hint = do
    finish_current_entry
    local_header_offset ← on_output stream_position
    w ← gets (λ w. w)
    let method = to_zip_method w.compression_method
    encryptor ← lift (make_encryptor rng w.password w.encryption_strength)
    on_output (write_chunks (local_header name method encryptor))
    set_current (record {
      name = name;
      local_header_offset = local_header_offset;
      encoder = new_compressor ext w.compression_method w.compression_level size_hint;
      counter = initial_counter encryptor;
      compression_method = method;
      encryptor = encryptor;
    })

  unfoldable pub start_entry : (ℕ → Option (List ℕ)) → List ℕ → Writing (Unit {0})
  unfolding start_entry_with_hint
  start_entry rng name = start_entry_with_hint rng name none

  -- The data is hashed before it is compressed.
  unfoldable pub update_hmac_if :
      Option (AesEncryptor ext.crypto) → List ℕ → Option (AesEncryptor ext.crypto)
  update_hmac_if none bytes = none
  update_hmac_if (some e) bytes = some (update_encryptor_hmac ext.crypto e bytes)

  -- What an entry becomes when it takes the bytes, before the buffer is looked at.
  unfoldable pub absorb : CurrentEntry ext → List ℕ → CurrentEntry ext
  unfolding update_hmac_if
  absorb entry bytes = record entry {
    counter = update_uncompressed ext.hasher entry.counter bytes;
    encryptor = update_hmac_if entry.encryptor bytes;
    encoder = write_flush ext entry.encoder bytes;
  }

  -- A full buffer goes to the output, encrypted where the entry is.
  unfoldable pub flush_entry : CurrentEntry ext → Writing (Unit {0})
  unfolding encrypt_if set_current on_output
  flush_entry entry = do
    let (compressed_data, emptied) = take_buffer (get_buffer ext entry.encoder)
    let (data_to_write, encryptor) = encrypt_if entry.encryptor compressed_data
    let written = record entry {
      encoder = set_buffer ext entry.encoder emptied;
      encryptor = encryptor;
    }
    set_current written
    on_output (write_chunks (data_to_write ∷ []))
    set_current (record written {
      counter = add_compressed ext.hasher entry.counter (length data_to_write);
    })

  unfoldable pub write_data : List ℕ → Writing (Unit {0})
  unfolding absorb flush_entry set_current
  write_data bytes = do
    current ← gets (λ w. w.current_entry)
    elim current [
      | none ↦ fail (invalid_format no_entry_started)
      | some entry ↦ do
        let entry' = absorb entry bytes
        if should_flush (get_buffer ext entry'.encoder)
            then flush_entry entry'
            else set_current entry'
    ]

  unfoldable pub add_entry : (ℕ → Option (List ℕ)) → List ℕ → List ℕ → Writing (Unit {0})
  unfolding start_entry write_data
  add_entry rng name bytes = do start_entry rng name; write_data bytes
