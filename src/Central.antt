-- ===== src/Central.antt =====
-- src/writer.rs: the bytes of the central directory and of the end records, as the lists of the
-- `write_all` calls that `finish` makes.
use s_zip.Common.{
  ℕ, ◌+◌, ◌%◌, Bool, ◌||◌, List, [], ◌∷◌, ◌++◌, Option, none, some, ltb, if◌then◌else◌, length,
  to_le_bytes, u16_mod, u32_mod, u16_max, u32_max,
}

-- The writer's own `ZipEntry`.
pub record ZipEntry : Type 0 where
  pub name : List ℕ
  pub local_header_offset : ℕ
  pub crc32 : ℕ
  pub compressed_size : ℕ
  pub uncompressed_size : ℕ
  pub compression_method : ℕ
  pub encryption_strength : Option ℕ

-- A value past `u32::MAX` is replaced by the placeholder.
unfoldable pub size_or_placeholder : ℕ → List ℕ
size_or_placeholder v =
    if ltb u32_max v then to_le_bytes 4 0xFFFFFFFF else to_le_bytes 4 (v % u32_mod)

unfoldable pub central_flags : Option ℕ → ℕ
central_flags (some code) = 0x09
central_flags none = 0x08

-- The AES field of an encrypted entry: the strength takes two bytes here.
unfoldable pub central_aes_extra : ZipEntry → List ℕ
central_aes_extra entry = elim entry.encryption_strength [
  | none ↦ []
  | some strength_code ↦
      (0x01 ∷ 0x99 ∷ 7 ∷ 0 ∷ 2 ∷ 0 ∷ 0x41 ∷ 0x45 ∷ [])
      ++ (to_le_bytes 2 strength_code ++ to_le_bytes 2 entry.compression_method)
]

-- The eight bytes of a value past `u32::MAX`.
abbrev pub if_wide : ℕ → List ℕ
if_wide v = if ltb u32_max v then to_le_bytes 8 v else []

-- The values of the ZIP64 field.
unfoldable pub zip64_data : ZipEntry → List ℕ
zip64_data entry =
    if_wide entry.uncompressed_size
    ++ (if_wide entry.compressed_size ++ if_wide entry.local_header_offset)

unfoldable pub central_zip64_extra : ZipEntry → List ℕ
unfolding zip64_data
central_zip64_extra entry =
    if ltb u32_max entry.uncompressed_size
      || ltb u32_max entry.compressed_size
      || ltb u32_max entry.local_header_offset
    then to_le_bytes 2 0x0001
      ++ (to_le_bytes 2 (length (zip64_data entry) % u16_mod) ++ zip64_data entry)
    else []

unfoldable pub central_extra : ZipEntry → List ℕ
unfolding central_aes_extra central_zip64_extra
central_extra entry = central_aes_extra entry ++ central_zip64_extra entry

-- The calls for one entry, in order.
unfoldable pub central_header : ZipEntry → List (List ℕ)
unfolding central_flags central_extra size_or_placeholder
central_header entry =
    (0x50 ∷ 0x4b ∷ 0x01 ∷ 0x02 ∷ [])
    ∷ (20 ∷ 0 ∷ [])
    ∷ (20 ∷ 0 ∷ [])
    ∷ (central_flags entry.encryption_strength ∷ 0 ∷ [])
    ∷ to_le_bytes 2 entry.compression_method
    ∷ (0 ∷ 0 ∷ 0 ∷ 0 ∷ [])
    ∷ to_le_bytes 4 entry.crc32
    ∷ size_or_placeholder entry.compressed_size
    ∷ size_or_placeholder entry.uncompressed_size
    ∷ to_le_bytes 2 (length entry.name % u16_mod)
    ∷ to_le_bytes 2 (length (central_extra entry) % u16_mod)
    ∷ to_le_bytes 2 0
    ∷ to_le_bytes 2 0
    ∷ to_le_bytes 2 0
    ∷ to_le_bytes 4 0
    ∷ size_or_placeholder entry.local_header_offset
    ∷ entry.name
    ∷ central_extra entry
    ∷ []

-- The loop over the entries.
unfoldable pub central_headers : List ZipEntry → List (List ℕ)
unfolding central_header
central_headers [] = []
central_headers (entry ∷ entries) = central_header entry ++ central_headers entries

unfoldable pub need_zip64 : ℕ → ℕ → ℕ → Bool
need_zip64 entry_count central_dir_size central_dir_offset =
    ltb u16_max entry_count || ltb u32_max central_dir_size || ltb u32_max central_dir_offset

-- The ZIP64 end record and its locator.
unfoldable pub zip64_end_records : ℕ → ℕ → ℕ → List (List ℕ)
zip64_end_records entry_count central_dir_size central_dir_offset =
    (0x50 ∷ 0x4b ∷ 0x06 ∷ 0x06 ∷ [])
    ∷ to_le_bytes 8 44
    ∷ (20 ∷ 0 ∷ [])
    ∷ (20 ∷ 0 ∷ [])
    ∷ to_le_bytes 4 0
    ∷ to_le_bytes 4 0
    ∷ to_le_bytes 8 entry_count
    ∷ to_le_bytes 8 entry_count
    ∷ to_le_bytes 8 central_dir_size
    ∷ to_le_bytes 8 central_dir_offset
    ∷ (0x50 ∷ 0x4b ∷ 0x06 ∷ 0x07 ∷ [])
    ∷ to_le_bytes 4 0
    ∷ to_le_bytes 8 (central_dir_offset + central_dir_size)
    ∷ to_le_bytes 4 0
    ∷ []

abbrev pub count_or_placeholder : ℕ → List ℕ
count_or_placeholder n = if ltb u16_max n then to_le_bytes 2 0xFFFF else to_le_bytes 2 (n % u16_mod)

-- The classic end record.
unfoldable pub end_record : ℕ → ℕ → ℕ → List (List ℕ)
unfolding size_or_placeholder
end_record entry_count central_dir_size central_dir_offset =
    (0x50 ∷ 0x4b ∷ 0x05 ∷ 0x06 ∷ [])
    ∷ to_le_bytes 2 0
    ∷ to_le_bytes 2 0
    ∷ count_or_placeholder entry_count
    ∷ count_or_placeholder entry_count
    ∷ size_or_placeholder central_dir_size
    ∷ size_or_placeholder central_dir_offset
    ∷ to_le_bytes 2 0
    ∷ []

unfoldable pub end_records : ℕ → ℕ → ℕ → List (List ℕ)
unfolding need_zip64 zip64_end_records end_record
end_records entry_count central_dir_size central_dir_offset =
    (if need_zip64 entry_count central_dir_size central_dir_offset
      then zip64_end_records entry_count central_dir_size central_dir_offset
      else [])
    ++ end_record entry_count central_dir_size central_dir_offset
