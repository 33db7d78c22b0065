-- ===== src/Entry.antt =====
-- src/reader.rs: `StreamingZipReader` and the reading of one entry, with the features `encryption`
-- and `zstd-support`.
pub mod Lookup
pub mod Sound
pub mod LocalHeader
use Prim.Native.Nat.{bit_and}
use s_zip.Common.{
  ℕ, zero, suc, ◌+◌, ◌-◌, ◌%◌, ◌^◌, Bool, true, false, ◌&&◌, ◌||◌, not, List, [], ◌∷◌, ◌++◌, Option,
  none, some, ◌==◌, ltb, if◌then◌else◌, bytes_eq, take, drop,
}
use s_zip.Outcome.{
  Result, ok, err, panic, SZipError, invalid_format, entry_not_found, unsupported_compression,
  encryption_error, local_signature, entry_too_large, aes_strength, no_password, crc_mismatch,
}
use s_zip.Format.{ZipEntry, local_file_header_signature, max_entry_alloc, parse_aes_extra_field_buf}
use s_zip.Encryption.{
  AesStrength, aes128, aes192, aes256, salt_size, AesDecryptor, new_decryptor, decrypt,
  update_decryptor_hmac, verify_auth_code,
}
use s_zip.External.{External}
use s_zip.Cursor.{
  Cursor, Read, ◌>>=◌, ◌>>◌, pure, fail, lift, seek_start, seek_current, stream_position,
  read_exact,
}
use s_zip.Reader.{read_u16_le, read_u32_le, read_central_directory}

pub record StreamingZipReader : Type 0 where
  pub file : Cursor
  pub entries : List ZipEntry
  pub password : Option (List ℕ)

-- `open`, on the bytes of the file.
unfoldable pub open_reader : List ℕ → Result StreamingZipReader
open_reader bytes = elim (read_central_directory (record { bytes = bytes; pos = 0 })) [
  | ok (entries, file) ↦ ok (record { file = file; entries = entries; password = none })
  | err e ↦ err e
  | panic ↦ panic
]

pub set_password : List ℕ → StreamingZipReader → StreamingZipReader
set_password password r = record r { password = some password }

pub clear_password : StreamingZipReader → StreamingZipReader
clear_password r = record r { password = none }

unfoldable pub first_named : List ℕ → List ZipEntry → Option ZipEntry
first_named name [] = none
first_named name (e ∷ es) =
    let rest = first_named name es in if bytes_eq e.name name then some e else rest

unfoldable pub find_entry : List ℕ → StreamingZipReader → Option ZipEntry
unfolding first_named
find_entry name r = first_named name r.entries

-- The strength, the salt and the verification bytes; none where the extra field has no AES field.
abbrev pub AesInfo : Type 0
AesInfo = Option (AesStrength × List ℕ × List ℕ)

unfoldable pub strength_of_code : ℕ → Result AesStrength
strength_of_code code =
    if code == 0x01
    then ok aes128
    else if code == 0x02
    then ok aes192
    else if code == 0x03
    then ok aes256
    else err (invalid_format (aes_strength code))

unfoldable pub parse_aes_extra_field : ℕ → Read AesInfo
unfolding strength_of_code
parse_aes_extra_field extra_len = if extra_len == 0 then pure none else do
  extra_buf ← read_exact extra_len
  elim (parse_aes_extra_field_buf extra_buf) [
    | none ↦ pure none
    | some code ↦ do
      strength ← lift (strength_of_code code)
      salt ← read_exact (salt_size strength)
      pw_verify ← read_exact 2
      pure (some (strength, salt, pw_verify))
  ]

-- The local header up to the data, from its signature on: a part of `read_entry`.
unfoldable pub read_local_header : Read AesInfo
read_local_header = do
  signature ← read_u32_le
  if not (signature == local_file_header_signature)
      then fail (invalid_format local_signature)
      else do
        seek_current 2
        flags ← read_u16_le
        read_u16_le
        seek_current 8
        seek_current 8
        filename_len ← read_u16_le
        extra_len ← read_u16_le
        seek_current filename_len
        if not (bit_and flags 0x01 == 0)
            then parse_aes_extra_field extra_len
            else (do seek_current extra_len; pure none)

module _ (ext : External) where
  -- The decryption of step 1: the data, and the decryptor that is to check the code.
  unfoldable pub decrypt_data :
      Option (List ℕ) → AesInfo → List ℕ → Result (List ℕ × Option (AesDecryptor ext.crypto))
  decrypt_data password none compressed_data = ok (compressed_data, none)
  decrypt_data none (some info) compressed_data = err (invalid_format no_password)
  decrypt_data (some password) (some (strength, salt, pw_verify)) compressed_data =
      elim (new_decryptor ext.crypto password strength salt pw_verify) [
        | ok decryptor ↦
            let (plain, moved) = decrypt ext.crypto decryptor compressed_data in
            ok (plain, some moved)
        | err e ↦ err e
        | panic ↦ panic
      ]

  unfoldable pub decompress : ℕ → List ℕ → Result (List ℕ)
  decompress method compressed_data =
      if method == 8
      then ext.inflate compressed_data
      else if method == 0
      then ok compressed_data
      else if method == 93
      then ext.unzstd compressed_data
      else err (unsupported_compression method)

  -- Step 3, on the decompressed bytes.
  unfoldable pub authenticate :
      Option (AesDecryptor ext.crypto) → List ℕ → List ℕ → Result (Unit {0})
  authenticate none auth_code bytes = ok tt
  authenticate (some decryptor) auth_code bytes =
      verify_auth_code ext.crypto (update_decryptor_hmac ext.crypto decryptor bytes) auth_code

  unfoldable pub check_crc : ZipEntry → List ℕ → Result (Unit {0})
  check_crc entry bytes =
      if not (entry.crc32 == 0) && not entry.is_encrypted
      then (let actual_crc = ext.hasher.hash bytes in
          if not (actual_crc == entry.crc32)
          then err (invalid_format (crc_mismatch entry.name entry.crc32 actual_crc))
          else ok tt)
      else ok tt

  -- How many bytes of data an entry has, without the salt, the verification bytes and the code.
  abbrev pub data_size : ZipEntry → AesInfo → ℕ
  data_size entry none = entry.compressed_size
  data_size entry (some (strength, salt, pw_verify)) =
      entry.compressed_size - (salt_size strength + 2 + 10)

  abbrev pub read_auth_code : AesInfo → Read (List ℕ)
  read_auth_code none = pure []
  read_auth_code (some info) = read_exact 10

  -- The data of an entry behind its local header: the rest of `read_entry`.
  unfoldable pub read_payload : Option (List ℕ) → ZipEntry → AesInfo → Read (List ℕ)
  unfolding decrypt_data decompress authenticate check_crc
  read_payload password entry encryption_info = do
    let size = data_size entry encryption_info
    if ltb max_entry_alloc size then fail (invalid_format (entry_too_large entry.name size)) else do
      compressed_data ← read_exact size
      auth_code ← read_auth_code encryption_info
      (plain, decryptor) ← lift (decrypt_data password encryption_info compressed_data)
      bytes ← lift (decompress entry.compression_method plain)
      lift (authenticate decryptor auth_code bytes)
      lift (check_crc entry bytes)
      pure bytes

  -- The body of `read_entry`, which moves the file and reads the password.
  unfoldable pub read_entry_data : Option (List ℕ) → ZipEntry → Read (List ℕ)
  read_entry_data password entry = do
    seek_start entry.offset
    encryption_info ← read_local_header
    read_payload password entry encryption_info

  -- After a failure the position in the file is not specified; every reading seeks first.
  unfoldable pub read_entry : ZipEntry → StreamingZipReader → Result (List ℕ × StreamingZipReader)
  read_entry entry r = elim (read_entry_data r.password entry r.file) [
    | ok (bytes, file) ↦ ok (bytes, record r { file = file })
    | err e ↦ err e
    | panic ↦ panic
  ]

  unfoldable pub read_entry_by_name :
      List ℕ → StreamingZipReader → Result (List ℕ × StreamingZipReader)
  read_entry_by_name name r = elim (find_entry name r) [
    | none ↦ err (entry_not_found name)
    | some entry ↦ read_entry entry r
  ]
