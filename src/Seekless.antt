-- ===== src/Seekless.antt =====
-- src/seekless.rs: `SeeklessZipWriter`, with the feature `zstd-support`. The proofs are in the children.
pub mod Directory
pub mod Finish
pub mod Added
pub mod Extract
pub mod Session
use s_zip.Common.{
  ℕ, ◌+◌, ◌-◌, ◌%◌, ◌^◌, Bool, true, false, ◌||◌, List, [], ◌∷◌, ◌++◌, Option, none, some, ltb,
  if◌then◌else◌, length, min, to_le_bytes, u16_mod, u32_mod, u16_max, u32_max,
}
use s_zip.Outcome.{Result, ok, err, panic, io, codec_failed}
use s_zip.External.{External, encode_whole}
use s_zip.Options.{EntryOptions, default_options, msdos_datetime, unix_extra_field, external_attrs}
use s_zip.Compress.{CompressionMethod, stored, deflate, zstd, add_u64}
use s_zip.Sink.{Exec, ◌>>=◌, ◌>>◌, pure, lift, gets}
use s_zip.AsyncSink.{AsyncSink, write_all, flush}

pub record PreparedEntry : Type 0 where
  pub name : List ℕ
  pub uncompressed_size : ℕ
  pub compressed_size : ℕ
  pub crc32 : ℕ
  pub compression_method : ℕ
  pub local_header_offset : ℕ
  pub dos_time : ℕ
  pub dos_date : ℕ
  pub unix_extra : List ℕ
  pub external_attrs : ℕ

pub record SeeklessZipWriter : Type 0 where
  pub output : AsyncSink
  pub entries : List PreparedEntry
  pub bytes_out : ℕ
  pub compression_level : ℕ
  pub compression_method : CompressionMethod

unfoldable pub with_method : AsyncSink → CompressionMethod → ℕ → SeeklessZipWriter
with_method output method level = record {
  output = output;
  entries = [];
  bytes_out = 0;
  compression_level = level;
  compression_method = method;
}

unfoldable pub with_compression : AsyncSink → ℕ → SeeklessZipWriter
unfolding with_method
with_compression output level = with_method output deflate level

unfoldable pub new_writer : AsyncSink → SeeklessZipWriter
unfolding with_compression
new_writer output = with_compression output 6

pub entry_count : SeeklessZipWriter → ℕ
entry_count w = length w.entries

sum_sizes : List PreparedEntry → ℕ
sum_sizes [] = 0
sum_sizes (e ∷ es) = add_u64 e.uncompressed_size (sum_sizes es)

pub bytes_written : SeeklessZipWriter → ℕ
unfolding sum_sizes
bytes_written w = sum_sizes w.entries

unfoldable pub build_zip64_extra : ℕ → ℕ → List ℕ
build_zip64_extra uncompressed compressed =
    to_le_bytes 2 0x0001
    ++ (to_le_bytes 2 16 ++ (to_le_bytes 8 uncompressed ++ to_le_bytes 8 compressed))

unfoldable pub build_zip64_extra_with_offset : ℕ → ℕ → ℕ → List ℕ
build_zip64_extra_with_offset uncompressed compressed offset =
    to_le_bytes 2 0x0001
    ++ (to_le_bytes 2 24
        ++ (to_le_bytes 8 uncompressed ++ (to_le_bytes 8 compressed ++ to_le_bytes 8 offset)))

abbrev pub Writing : Type 0 → Type 0
Writing A = Exec SeeklessZipWriter A

-- A call on the field `output`.
pub on_output : {A : Type 0} → Exec AsyncSink A → Writing A
on_output m w = let (r, output) = m w.output in (r, record w { output = output })

-- Whether the sizes need a ZIP64 field.
abbrev pub large : ℕ → ℕ → Bool
large uncompressed_size compressed_size =
    ltb u32_max uncompressed_size || ltb u32_max compressed_size

-- The two sizes in the header: placeholders with a ZIP64 field.
abbrev pub sizes : Bool → ℕ → ℕ → List ℕ
sizes true compressed_size uncompressed_size = to_le_bytes 4 0xFFFFFFFF ++ to_le_bytes 4 0xFFFFFFFF
sizes false compressed_size uncompressed_size =
    to_le_bytes 4 (compressed_size % u32_mod) ++ to_le_bytes 4 (uncompressed_size % u32_mod)

abbrev pub version_needed : Bool → ℕ
version_needed use_zip64 = if use_zip64 then 45 else 20

-- The extra field of the local header: the ZIP64 field, or else the Unix field.
unfoldable pub local_extra : EntryOptions → ℕ → ℕ → List ℕ
unfolding build_zip64_extra
local_extra options uncompressed_size compressed_size =
    if large uncompressed_size compressed_size
    then build_zip64_extra uncompressed_size compressed_size
    else unix_extra_field options

-- The buffer `header`.
unfoldable pub local_header : List ℕ → EntryOptions → ℕ → ℕ → ℕ → ℕ → List ℕ
unfolding local_extra
local_header name options method crc32 uncompressed_size compressed_size =
    let use_zip64 = large uncompressed_size compressed_size in
    let (dos_time, dos_date) = msdos_datetime options in
    let extra_field_local = local_extra options uncompressed_size compressed_size in
    to_le_bytes 4 0x04034b50
    ++ (to_le_bytes 2 (version_needed use_zip64)
        ++ (to_le_bytes 2 0
            ++ (to_le_bytes 2 method
                ++ (to_le_bytes 2 dos_time
                    ++ (to_le_bytes 2 dos_date
                        ++ (to_le_bytes 4 crc32
                            ++ (sizes use_zip64 compressed_size uncompressed_size
                                ++ (to_le_bytes 2 (length name % u16_mod)
                                    ++ (to_le_bytes 2 (length extra_field_local % u16_mod)
                                        ++ (name ++ extra_field_local))))))))))

-- The entry that is pushed: its Unix field only where the local header could not take it.
unfoldable pub prepared_entry : List ℕ → EntryOptions → ℕ → ℕ → ℕ → ℕ → ℕ → PreparedEntry
prepared_entry name options method crc32 uncompressed_size compressed_size offset =
    let (dos_time, dos_date) = msdos_datetime options in
    record {
      name = name;
      uncompressed_size = uncompressed_size;
      compressed_size = compressed_size;
      crc32 = crc32;
      compression_method = method;
      local_header_offset = offset;
      dos_time = dos_time;
      dos_date = dos_date;
      unix_extra = if large uncompressed_size compressed_size then unix_extra_field options else [];
      external_attrs = external_attrs options;
    }

-- `bytes_out += n`
pub count_out : ℕ → Writing (Unit {0})
count_out n w = (ok tt, record w { bytes_out = add_u64 w.bytes_out n })

pub push_entry : PreparedEntry → Writing (Unit {0})
push_entry entry w = (ok tt, record w { entries = w.entries ++ entry ∷ [] })

-- The central directory entry needs the field for the offset too.
abbrev pub central_large : PreparedEntry → Bool
central_large entry =
    ltb u32_max entry.uncompressed_size
    || ltb u32_max entry.compressed_size
    || ltb u32_max entry.local_header_offset

unfoldable pub central_extra : PreparedEntry → List ℕ
unfolding build_zip64_extra build_zip64_extra_with_offset
central_extra entry =
    if central_large entry
    then (if ltb u32_max entry.local_header_offset
        then build_zip64_extra_with_offset entry.uncompressed_size entry.compressed_size
            entry.local_header_offset
        else build_zip64_extra entry.uncompressed_size entry.compressed_size)
      ++ entry.unix_extra
    else entry.unix_extra

unfoldable pub local_offset : ℕ → ℕ
local_offset offset = if ltb u32_max offset then 0xFFFFFFFF else offset % u32_mod

-- The buffer `cd`.
unfoldable pub central_header : PreparedEntry → List ℕ
unfolding central_extra local_offset
central_header entry =
    let use_zip64 = central_large entry in
    to_le_bytes 4 0x02014b50
    ++ (to_le_bytes 2 (version_needed use_zip64)
        ++ (to_le_bytes 2 (version_needed use_zip64)
            ++ (to_le_bytes 2 0
                ++ (to_le_bytes 2 entry.compression_method
                    ++ (to_le_bytes 2 entry.dos_time
                        ++ (to_le_bytes 2 entry.dos_date
                            ++ (to_le_bytes 4 entry.crc32
                                ++ (sizes use_zip64 entry.compressed_size entry.uncompressed_size
                                    ++ (to_le_bytes 2 (length entry.name % u16_mod)
                                        ++ (to_le_bytes 2 (length (central_extra entry) % u16_mod)
                                            ++ (to_le_bytes 2 0
                                                ++ (to_le_bytes 2 0
                                                    ++ (to_le_bytes 2 0
                                                        ++ (to_le_bytes 4 entry.external_attrs
                                                            ++ (to_le_bytes 4
                                                            (local_offset entry.local_header_offset)
                                                            ++ (entry.name
                                                            ++ central_extra entry))))))))))))))))

-- The loop over the entries.
unfoldable pub write_central : List PreparedEntry → Writing (Unit {0})
unfolding central_header count_out
write_central [] = pure tt
write_central (entry ∷ entries) = do
  on_output (write_all (central_header entry))
  count_out (length (central_header entry))
  write_central entries

unfoldable pub zip64_eocd : ℕ → ℕ → ℕ → List ℕ
zip64_eocd entry_count cd_size cd_offset =
    to_le_bytes 4 0x06064b50
    ++ (to_le_bytes 8 44
        ++ (to_le_bytes 2 45
            ++ (to_le_bytes 2 45
                ++ (to_le_bytes 4 0
                    ++ (to_le_bytes 4 0
                        ++ (to_le_bytes 8 entry_count
                            ++ (to_le_bytes 8 entry_count
                                ++ (to_le_bytes 8 cd_size ++ to_le_bytes 8 cd_offset))))))))

unfoldable pub locator : ℕ → List ℕ
locator zip64_eocd_offset =
    to_le_bytes 4 0x07064b50
    ++ (to_le_bytes 4 0 ++ (to_le_bytes 8 zip64_eocd_offset ++ to_le_bytes 4 1))

unfoldable pub eocd : ℕ → ℕ → ℕ → List ℕ
eocd entry_count cd_size cd_offset =
    to_le_bytes 4 0x06054b50
    ++ (to_le_bytes 2 0
        ++ (to_le_bytes 2 0
            ++ (to_le_bytes 2 (min entry_count u16_max)
                ++ (to_le_bytes 2 (min entry_count u16_max)
                    ++ (to_le_bytes 4 (min cd_size u32_max)
                        ++ (to_le_bytes 4 (min cd_offset u32_max) ++ to_le_bytes 2 0))))))

-- The ZIP64 end record and its locator, where a value does not fit.
unfoldable pub write_zip64_end : ℕ → ℕ → ℕ → Writing (Unit {0})
unfolding zip64_eocd locator count_out
write_zip64_end entry_count cd_size cd_offset =
    if ltb u16_max entry_count || ltb u32_max cd_offset || ltb u32_max cd_size
    then (do
      zip64_eocd_offset ← gets (λ w. w.bytes_out)
      on_output (write_all (zip64_eocd entry_count cd_size cd_offset))
      on_output (write_all (locator zip64_eocd_offset))
      count_out
          (length (zip64_eocd entry_count cd_size cd_offset) + length (locator zip64_eocd_offset)))
    else pure tt

-- Everything that `finish` does but giving the sink back.
unfoldable pub finish_all : Writing (Unit {0})
unfolding write_central write_zip64_end eocd
finish_all = do
  start ← gets (λ w. w)
  let cd_offset = start.bytes_out
  let entry_count = length start.entries
  write_central start.entries
  end_of_dir ← gets (λ w. w.bytes_out)
  let cd_size = end_of_dir - cd_offset
  write_zip64_end entry_count cd_size cd_offset
  on_output (write_all (eocd entry_count cd_size cd_offset))
  on_output flush

-- The writer is consumed; its sink is given back where all went well.
unfoldable pub finish : SeeklessZipWriter → Result AsyncSink
unfolding finish_all
finish w =
    let (r, w') = finish_all w in elim r [ ok u ↦ ok w'.output | err e ↦ err e | panic ↦ panic ]

-- `zstd_encode_all` is `zstd::encode_all`, on the level's 32 bits; it may refuse.
module _ (ext : External) (zstd_encode_all : ℕ → List ℕ → Option (List ℕ)) where
  unfoldable pub compress : SeeklessZipWriter → List ℕ → Result (List ℕ × ℕ × ℕ)
  compress w bytes =
      let crc32 = ext.hasher.hash bytes in
      elim w.compression_method [
        | stored ↦ ok (bytes, crc32, 0)
        | deflate ↦
            let level = min w.compression_level 9 in
            ok (encode_whole ext.deflate (ext.deflate_new level) bytes, crc32, 8)
        | zstd ↦ elim (zstd_encode_all w.compression_level bytes) [
          | none ↦ err (io codec_failed)
          | some compressed ↦ ok (compressed, crc32, 93)
        ]
      ]

  unfoldable pub add_entry_with_options : List ℕ → List ℕ → EntryOptions → Writing (Unit {0})
  unfolding compress local_header prepared_entry count_out push_entry
  add_entry_with_options name bytes options = do
    w ← gets (λ w. w)
    (compressed, crc32, method) ← lift (compress w bytes)
    let uncompressed_size = length bytes
    let compressed_size = length compressed
    let header = local_header name options method crc32 uncompressed_size compressed_size
    on_output (write_all header)
    on_output (write_all compressed)
    count_out (length header + compressed_size)
    push_entry
        (prepared_entry name options method crc32 uncompressed_size compressed_size w.bytes_out)

  unfoldable pub add_entry : List ℕ → List ℕ → Writing (Unit {0})
  unfolding add_entry_with_options
  add_entry name bytes = add_entry_with_options name bytes default_options
