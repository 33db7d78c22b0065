-- ===== src/Reader.antt =====
-- src/reader.rs, with the features `encryption` and `zstd-support`. A file is its bytes; the buffer
-- size of the `BufReader` does not show in what is read. The proofs are in the children.
pub mod Fields
pub mod Directory
pub mod Search
pub mod EndRecord
pub mod Zip64Record
use Prim.Native.Nat.{bit_and}
use s_zip.Common.{
  ℕ, zero, suc, ◌+◌, ◌-◌, ◌*◌, ◌/◌, ◌%◌, ◌^◌, Bool, true, false, ◌&&◌, ◌||◌, not, List, [], ◌∷◌,
  ◌++◌, Option, none, some, ◌==◌, leb, ltb, if◌then◌else◌, length, from_le_bytes, bytes_eq,
}
use s_zip.Outcome.{
  Result, ok, err, panic, SZipError, invalid_format, eocd_signature, eocd_not_found,
  zip64_locator_not_found, zip64_signature,
}
use s_zip.Format.{
  ZipEntry, central_directory_signature, end_of_central_directory_signature,
  zip64_end_of_central_directory_signature, find_eocd_in_buffer, find_zip64_eocd_offset,
  parse_zip64_extra_field,
}
use s_zip.Utf8.{from_utf8_lossy}
use s_zip.Cursor.{
  Cursor, Read, ◌>>=◌, ◌>>◌, pure, fail, lift, seek_start, seek_current, seek_end, read_exact,
  read_to_end,
}

unfoldable pub read_u16_le : Read ℕ
read_u16_le = do buf ← read_exact 2; pure (from_le_bytes buf)

unfoldable pub read_u32_le : Read ℕ
read_u32_le = do buf ← read_exact 4; pure (from_le_bytes buf)

-- `u64::from_le_bytes` of the next eight bytes.
pub read_u64_le : Read ℕ
read_u64_le = do buf ← read_exact 8; pure (from_le_bytes buf)

-- Scans from the end of the file: the last 65,557 bytes at most.
pub find_eocd : Read ℕ
find_eocd = do
  file_size ← seek_end
  let search_start = file_size - 65557
  seek_start search_start
  buffer ← read_to_end
  elim (find_eocd_in_buffer buffer search_start) [
    | none ↦ fail (invalid_format eocd_not_found)
    | some offset ↦ pure offset
  ]

-- The total number of entries, the size and the offset of the central directory, from the ZIP64 end
-- record at the cursor.
unfoldable pub read_zip64_values : Read (ℕ × ℕ × ℕ)
read_zip64_values = do
  sig ← read_u32_le
  if not (sig == zip64_end_of_central_directory_signature)
      then fail (invalid_format (zip64_signature sig))
      else do
        read_u64_le
        seek_current 12
        total_entries ← read_u64_le
        read_exact 8
        cd_size ← read_u64_le
        cd_offset ← read_u64_le
        pure (total_entries, cd_size, cd_offset)

abbrev pub or_no_locator : Option ℕ → Read ℕ
or_no_locator none = fail (invalid_format zip64_locator_not_found)
or_no_locator (some offset) = pure offset

-- `read_zip64_values` is the rest of the same method in the source.
unfoldable pub read_zip64_eocd : ℕ → Read (ℕ × ℕ × ℕ)
read_zip64_eocd eocd_offset = do
  seek_start (eocd_offset - 65557)
  buffer ← read_to_end
  zip64_eocd_offset ← or_no_locator (find_zip64_eocd_offset buffer)
  seek_start zip64_eocd_offset
  read_zip64_values

-- The sizes and the offset of an entry, its ZIP64 placeholders resolved.
unfoldable pub resolve_zip64 : List ℕ → ℕ → ℕ → ℕ → ℕ × ℕ × ℕ
resolve_zip64 extra_buf compressed_size_32 uncompressed_size_32 offset_32 =
    if compressed_size_32 == 0xFFFFFFFF
      || uncompressed_size_32 == 0xFFFFFFFF
      || offset_32 == 0xFFFFFFFF
    then parse_zip64_extra_field extra_buf compressed_size_32 uncompressed_size_32 offset_32
    else (uncompressed_size_32, compressed_size_32, offset_32)

-- The rest of a central directory entry, behind its signature.
pub read_central_entry : Read ZipEntry
read_central_entry = do
  seek_current 4
  flags ← read_u16_le
  compression_method ← read_u16_le
  seek_current 4
  crc32 ← read_u32_le
  compressed_size_32 ← read_u32_le
  uncompressed_size_32 ← read_u32_le
  filename_len ← read_u16_le
  extra_len ← read_u16_le
  comment_len ← read_u16_le
  seek_current 8
  offset_32 ← read_u32_le
  filename_buf ← read_exact filename_len
  extra_buf ← if ltb 0 extra_len then read_exact extra_len else pure []
  (if ltb 0 comment_len then seek_current comment_len else pure tt)
  let (uncompressed_size, compressed_size, offset) =
      resolve_zip64 extra_buf compressed_size_32 uncompressed_size_32 offset_32
  pure (record {
    name = from_utf8_lossy filename_buf;
    compressed_size = compressed_size;
    uncompressed_size = uncompressed_size;
    compression_method = compression_method;
    offset = offset;
    crc32 = crc32;
    is_encrypted = not (bit_and flags 0x01 == 0);
  })

-- `for _ in 0..total_entries`, left at the first signature that is not an entry's.
unfoldable pub read_entries : ℕ → Read (List ZipEntry)
read_entries zero = pure []
read_entries (suc n) = do
  signature ← read_u32_le
  if not (signature == central_directory_signature)
      then pure []
      else do entry ← read_central_entry; entries ← read_entries n; pure (entry ∷ entries)

-- `Vec::with_capacity` of entries of 56 bytes panics where they pass `isize::MAX` bytes.
unfoldable pub with_capacity : ℕ → Result (Unit {0})
with_capacity n = if ltb (2 ^ 63 - 1) (n * 56) then panic else ok tt

-- The end record from the cursor on: its offset, and the number of entries, the size and the offset
-- of the central directory as it says them.
unfoldable pub read_end_values : ℕ → Read (ℕ × ℕ × ℕ × ℕ)
read_end_values eocd_offset = do
  signature ← read_u32_le
  if not (signature == end_of_central_directory_signature)
      then fail (invalid_format (eocd_signature signature))
      else do
        seek_current 4
        read_u16_le
        total_entries_16 ← read_u16_le
        cd_size_32 ← read_u32_le
        cd_offset_32 ← read_u32_le
        pure (eocd_offset, total_entries_16, cd_size_32, cd_offset_32)

unfoldable pub read_end_record : Read (ℕ × ℕ × ℕ × ℕ)
read_end_record = do eocd_offset ← find_eocd; seek_start eocd_offset; read_end_values eocd_offset

-- Whether a value of the end record is a ZIP64 placeholder.
abbrev pub has_placeholder : ℕ → ℕ → ℕ → Bool
has_placeholder total_entries_16 cd_size_32 cd_offset_32 =
    total_entries_16 == 0xFFFF || cd_size_32 == 0xFFFFFFFF || cd_offset_32 == 0xFFFFFFFF

-- The number of entries and the offset of the central directory, placeholders resolved.
unfoldable pub directory_place : ℕ × ℕ × ℕ × ℕ → Read (ℕ × ℕ)
directory_place (eocd_offset, total_entries_16, cd_size_32, cd_offset_32) =
    if has_placeholder total_entries_16 cd_size_32 cd_offset_32
    then (do
      (zip64_total_entries, zip64_cd_size, zip64_cd_offset) ← read_zip64_eocd eocd_offset
      pure (zip64_total_entries, zip64_cd_offset))
    else pure (total_entries_16, cd_offset_32)

-- `read_end_record` and `directory_place` are parts of the same method in the source.
unfoldable pub read_central_directory : Read (List ZipEntry)
read_central_directory = do
  end_record ← read_end_record
  (total_entries, cd_offset) ← directory_place end_record
  seek_start cd_offset
  lift (with_capacity total_entries)
  read_entries total_entries
