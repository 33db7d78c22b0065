-- ===== src/RoundTrip/Local.antt =====
-- The local header that src/writer.rs writes, read by `read_entry` of src/reader.rs.
use s_zip.Common.{
  ℕ, ◌%◌, ◌<◌, ◌≡◌, refl, List, [], ◌∷◌, ◌++◌, Option, none, some, arith, length, flatten, u8_mod,
  u16_mod, to_le_bytes,
}
use s_zip.Outcome.{ok}
use s_zip.External.{External}
use s_zip.Encryption.{AesStrength, aes128, aes192, aes256, salt_size, to_winzip_code, AesEncryptor}
use s_zip.Options.{SystemTime, EntryOptions, msdos_datetime, unix_extra_field}
use s_zip.Cursor.Runs.{Runs, Runs-pure, Runs-bind, Runs-read_exact, Runs-seek_current, Runs-lift}
use s_zip.Reader.Fields.{Runs-read_u16_le, Runs-read_u32_le}
use s_zip.Format.{parse_aes_extra_field_buf}
use s_zip.Format.Aes.{parse_aes_extra_field_buf_round_trip}
use s_zip.Format.Extra.{encode_field, encode_fields}
use s_zip.Entry.{read_local_header, parse_aes_extra_field, strength_of_code}
use s_zip.Writer.{local_header}

-- The options without a Unix mode.
abbrev pub plain_options : Option SystemTime → EntryOptions
plain_options mtime = record { mtime = mtime; unix_mode = none }

module _ (ext : External) (name : List ℕ) (mtime : Option SystemTime) (method : ℕ)
    (name_fits : length name < u16_mod) (method_fits : method < u16_mod) where
  abbrev times : List ℕ
  times =
      let (dos_time, dos_date) = msdos_datetime (plain_options mtime) in
      to_le_bytes 2 dos_time ++ (to_le_bytes 2 dos_date ++ to_le_bytes 4 0)

  same_size : length name % u16_mod ≡ length name
  same_size = omega arith

  -- The reader passes over the local header of an entry that is not encrypted.
  pub Runs-read_local_header_plain :
      Runs read_local_header
        (flatten (local_header ext name (plain_options mtime) method none))
        none
  unfolding read_local_header local_header unix_extra_field
  Runs-read_local_header_plain = rw same_size (
      Runs-bind _ _ (Runs-read_u32_le 0x04034b50 (omega arith)) (
        Runs-bind _ _ (Runs-seek_current 2 (51 ∷ 0 ∷ []) refl) (
          Runs-bind _ _ (Runs-read_u16_le 8 (omega arith)) (
            Runs-bind _ _ (Runs-read_u16_le method method_fits) (
              Runs-bind _ _ (Runs-seek_current 8 times refl) (
                Runs-bind _ _ (Runs-seek_current 8 (0 ∷ 0 ∷ 0 ∷ 0 ∷ 0 ∷ 0 ∷ 0 ∷ 0 ∷ []) refl) (
                  Runs-bind _ _ (Runs-read_u16_le (length name) name_fits) (
                    Runs-bind _ _ (Runs-read_u16_le 0 (omega arith)) (
                      Runs-bind _ _ (Runs-seek_current (length name) name refl)
                        (Runs-bind _ _ (Runs-seek_current 0 [] refl) (Runs-pure none)))))))))))

  module _ (e : AesEncryptor ext.crypto) (salt_fits : length e.salt ≡ salt_size e.strength)
      (verify_fits : length e.password_verify ≡ 2) where
    -- The AES field that the header holds.
    abbrev aes_field : List ℕ
    aes_field =
        0x01
        ∷ 0x99
        ∷ 7
        ∷ 0
        ∷ 2
        ∷ 0
        ∷ 0x41
        ∷ 0x45
        ∷ (to_winzip_code e.strength % u8_mod)
        ∷ to_le_bytes 2 method

    strength_read : (s : AesStrength) → strength_of_code (to_winzip_code s % u8_mod) ≡ ok s
    unfolding strength_of_code to_winzip_code
    strength_read aes128 = refl
    strength_read aes192 = refl
    strength_read aes256 = refl

    field_read : parse_aes_extra_field_buf aes_field ≡ some (to_winzip_code e.strength % u8_mod)
    unfolding encode_field encode_fields
    field_read =
        parse_aes_extra_field_buf_round_trip []
          (2 ∷ 0 ∷ 0x41 ∷ 0x45 ∷ (to_winzip_code e.strength % u8_mod) ∷ to_le_bytes 2 method) [] tt
          tt (omega arith) (omega arith)

    Runs-parse_aes_extra_field :
        Runs
          (parse_aes_extra_field 11)
          (aes_field ++ ([] ++ (e.salt ++ (e.password_verify ++ []))))
          (some (e.strength, e.salt, e.password_verify))
    unfolding parse_aes_extra_field
    Runs-parse_aes_extra_field = Runs-bind _ _ (Runs-read_exact 11 aes_field refl) (
        rw field_read (
          Runs-bind _ _ (Runs-lift _ (strength_read e.strength)) (
            Runs-bind _ _ (Runs-read_exact (salt_size e.strength) e.salt salt_fits) (
              Runs-bind _ _ (Runs-read_exact 2 e.password_verify verify_fits)
                (Runs-pure (some (e.strength, e.salt, e.password_verify)))))))

    -- The reader takes the strength, the salt and the verification bytes of an encrypted entry.
    pub Runs-read_local_header_encrypted :
        Runs read_local_header
          (flatten (local_header ext name (plain_options mtime) method (some e)))
          (some (e.strength, e.salt, e.password_verify))
    unfolding read_local_header local_header unix_extra_field
    Runs-read_local_header_encrypted = rw same_size (
        Runs-bind _ _ (Runs-read_u32_le 0x04034b50 (omega arith)) (
          Runs-bind _ _ (Runs-seek_current 2 (51 ∷ 0 ∷ []) refl) (
            Runs-bind _ _ (Runs-read_u16_le 9 (omega arith)) (
              Runs-bind _ _ (Runs-read_u16_le method method_fits) (
                Runs-bind _ _ (Runs-seek_current 8 times refl) (
                  Runs-bind _ _ (Runs-seek_current 8 (0 ∷ 0 ∷ 0 ∷ 0 ∷ 0 ∷ 0 ∷ 0 ∷ 0 ∷ []) refl) (
                    Runs-bind _ _ (Runs-read_u16_le (length name) name_fits) (
                      Runs-bind _ _ (Runs-read_u16_le 11 (omega arith)) (
                        Runs-bind _ _ (Runs-seek_current (length name) name refl)
                          Runs-parse_aes_extra_field)))))))))
