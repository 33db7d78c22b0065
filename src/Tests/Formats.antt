-- ===== src/Tests/Formats.antt =====
-- The parsers of src/format.rs and src/reader.rs on concrete bytes.
use s_zip.Common.{
  ℕ, ◌+◌, ◌-◌, ◌<◌, ◌≡◌, ◌≢◌, ◌⊎◌, refl, true, false, List, [], ◌∷◌, ◌++◌, Option, none, some,
  arith, length, map, All, bytes_eq,
}
use s_zip.Outcome.{err, entry_not_found}
use s_zip.Format
use s_zip.Format.{
  stuck, walk_fields, find_eocd_in_buffer, find_zip64_eocd_offset, parse_zip64_extra_field,
  parse_aes_extra_field_buf, Component, normal, components, normals, safe_path,
}
use s_zip.Format.Scan.{
  HasSignature, IsLast, find_eocd_in_buffer-IsLast, locator_bytes, find_zip64_eocd_offset-append,
}
use s_zip.Format.Extra.{Field, Fits, encode_field, encode_fields, walk_fields-ne-stuck}
use s_zip.Format.Zip64.{Stored, zip64_payload, zip64_field, parse_zip64_extra_field_round_trip}
use s_zip.Format.Aes.{parse_aes_extra_field_buf_round_trip}
use s_zip.Format.Path.{components-safe_path}
use s_zip.Utf8.{continuation, one, two, empty, from_utf8_lossy, from_utf8_lossy-IsUtf8}
use s_zip.Cursor.Runs.{Runs}
use s_zip.Reader.{read_central_entry}
use s_zip.Reader.Directory.{
  CentralFields, FieldsFit, central_bytes, entry_of, Runs-read_central_entry,
}
use s_zip.Entry.{StreamingZipReader, read_entry, read_entry_by_name}
use s_zip.Entry.Lookup.{IsFirst, read_entry_by_name-IsFirst}
use s_zip.Tests.Toy.{toy}
use s_zip.Tests.Absent.{absent, absent-not}

-- An end record behind four bytes.
abbrev with_record : List ℕ
with_record = 9 ∷ 9 ∷ 9 ∷ 9 ∷ 0x50 ∷ 0x4b ∷ 5 ∷ 6 ∷ 0 ∷ 0 ∷ 0 ∷ []

find_eocd_in_buffer-IsLast_example :
    ((i : ℕ) × (find_eocd_in_buffer with_record 100 ≡ some (100 + i))
      × IsLast with_record 0x05 0x06 (length with_record - 3) i)
    ⊎ (find_eocd_in_buffer with_record 100 ≡ none)
      × ((j : ℕ) → j + 3 < length with_record → ¬ HasSignature with_record 0x05 0x06 j)
find_eocd_in_buffer-IsLast_example = find_eocd_in_buffer-IsLast with_record 100

locator_tail :
    (j : ℕ) → 0 < j → j + 3 < 22 → ¬ HasSignature (locator_bytes 0 77 ++ (1 ∷ 2 ∷ [])) 0x06 0x07 j
unfolding absent bytes_eq
locator_tail j lo hi =
    absent-not (locator_bytes 0 77 ++ (1 ∷ 2 ∷ [])) 6 7 19 refl j lo (omega arith)

find_zip64_eocd_offset-append_example :
    find_zip64_eocd_offset ((3 ∷ 4 ∷ []) ++ (locator_bytes 0 77 ++ (1 ∷ 2 ∷ []))) ≡ some 77
find_zip64_eocd_offset-append_example =
    find_zip64_eocd_offset-append (3 ∷ 4 ∷ []) 0 77 (1 ∷ 2 ∷ []) (omega arith) locator_tail

abbrev other_field : Field
other_field = record { id = 0x5455; payload = 1 ∷ 2 ∷ 3 ∷ [] }

other_field-Fits : All Fits (other_field ∷ [])
other_field-Fits = (record { id_fits = omega arith; payload_fits = omega arith }, tt)

other_id : All (λ f. f.id ≢ 0x0001) (other_field ∷ [])
other_id = ((λ e. omega arith), tt)

not_aes : All (λ f. f.id ≢ 0x9901) (other_field ∷ [])
not_aes = ((λ e. omega arith), tt)

wide_size : Stored true 5_000_000_000
wide_size = record { fits = omega arith; plain = λ e. absurd (cc e) }

narrow_size : Stored false 1000
narrow_size = record { fits = omega arith; plain = λ e. omega arith }

parse_zip64_extra_field_example :
    parse_zip64_extra_field
      (encode_fields (other_field ∷ [])
        ++ (encode_field
              (zip64_field (zip64_payload true false true 5_000_000_000 1000 5_000_000_000))
            ++ (8 ∷ [])))
      1000
      0xFFFFFFFF
      0xFFFFFFFF
    ≡ (5_000_000_000, 1000, 5_000_000_000)
parse_zip64_extra_field_example =
    parse_zip64_extra_field_round_trip (other_field ∷ []) (8 ∷ []) true false true 5_000_000_000
      1000 5_000_000_000 other_field-Fits other_id wide_size narrow_size wide_size

abbrev aes_payload : List ℕ
aes_payload = 2 ∷ 0 ∷ 0x41 ∷ 0x45 ∷ 3 ∷ 8 ∷ 0 ∷ []

parse_aes_extra_field_buf_example :
    parse_aes_extra_field_buf (
      encode_fields (other_field ∷ [])
      ++ (encode_field (record { id = 0x9901; payload = aes_payload }) ++ (8 ∷ [])))
    ≡ some 3
parse_aes_extra_field_buf_example =
    parse_aes_extra_field_buf_round_trip (other_field ∷ []) aes_payload (8 ∷ []) other_field-Fits
      not_aes (omega arith) (omega arith)

abbrev never : ℕ → ℕ → ℕ → Option ℕ
never id i n = none

walk_fields-ne-stuck_example : walk_fields never (1 ∷ 2 ∷ 0 ∷ 0 ∷ 7 ∷ []) 6 0 ≢ stuck
walk_fields-ne-stuck_example = walk_fields-ne-stuck never (1 ∷ 2 ∷ 0 ∷ 0 ∷ 7 ∷ [])

-- A name that tries to leave the directory: "/../a/b".
abbrev slip : Format.ZipEntry
slip = record {
  name = b'/' ∷ b'.' ∷ b'.' ∷ b'/' ∷ b'a' ∷ b'/' ∷ b'b' ∷ [];
  compressed_size = 1;
  uncompressed_size = 1;
  compression_method = 0;
  offset = 0;
  crc32 = 0;
  is_encrypted = false;
}

components-safe_path_example :
    components (safe_path slip) ≡ map normal (normals (components slip.name))
components-safe_path_example = components-safe_path slip

from_utf8_lossy-IsUtf8_example : from_utf8_lossy (b'a' ∷ 0xC3 ∷ 0xA9 ∷ []) ≡ b'a' ∷ 0xC3 ∷ 0xA9 ∷ []
unfolding continuation
from_utf8_lossy-IsUtf8_example =
    from_utf8_lossy-IsUtf8 (one (omega arith) (two (omega arith) (omega arith) refl empty))

abbrev some_fields : CentralFields
some_fields = record {
  flags = 8;
  method = 8;
  crc = 17;
  compressed_32 = 100;
  uncompressed_32 = 200;
  offset_32 = 300;
  filename = b'a' ∷ [];
  extra = 1 ∷ 2 ∷ [];
  comment = 111 ∷ 107 ∷ [];
  versions = 20 ∷ 0 ∷ 20 ∷ 0 ∷ [];
  times = 0 ∷ 0 ∷ 0 ∷ 0 ∷ [];
  attributes = 0 ∷ 0 ∷ 0 ∷ 0 ∷ 0 ∷ 0 ∷ 0 ∷ 0 ∷ [];
}

some_fields-FieldsFit : FieldsFit some_fields
some_fields-FieldsFit = record {
  flags_fit = omega arith;
  method_fits = omega arith;
  crc_fits = omega arith;
  compressed_fits = omega arith;
  uncompressed_fits = omega arith;
  offset_fits = omega arith;
  filename_fits = omega arith;
  extra_fits = omega arith;
  comment_fits = omega arith;
  versions_size = refl;
  times_size = refl;
  attributes_size = refl;
}

Runs-read_central_entry_example :
    Runs read_central_entry (central_bytes some_fields) (entry_of some_fields)
Runs-read_central_entry_example = Runs-read_central_entry some_fields some_fields-FieldsFit

abbrev two_entries : StreamingZipReader
two_entries = record {
  file = record { bytes = []; pos = 0 };
  entries =
      slip ∷ record slip { name = b'x' ∷ [] } ∷ record slip { name = b'x' ∷ []; offset = 50 } ∷ [];
  password = none;
}

read_entry_by_name-IsFirst_example :
    ((e : Format.ZipEntry) × IsFirst (b'x' ∷ []) two_entries.entries e
      × (read_entry_by_name toy (b'x' ∷ []) two_entries ≡ read_entry toy e two_entries))
    ⊎ All (λ f. f.name ≢ b'x' ∷ []) two_entries.entries
      × (read_entry_by_name toy (b'x' ∷ []) two_entries ≡ err (entry_not_found (b'x' ∷ [])))
read_entry_by_name-IsFirst_example = read_entry_by_name-IsFirst toy (b'x' ∷ []) two_entries
