-- ===== src/AsyncWriter/Closing.antt =====
-- The central directory, the end records, `finish` and `finish_with_stats` of src/async_writer.rs.
use s_zip.Common.{
  ℕ, ◌+◌, ◌-◌, ◌%◌, Bool, true, false, ◌||◌, List, [], ◌∷◌, ◌++◌, Option, none, some, if◌then◌else◌,
  length, to_le_bytes, u8_mod, u16_mod, u32_mod, u16_max, u32_max, ltb,
}
use s_zip.Outcome.{Result, ok, err, panic}
use s_zip.Options.{ZipStats}
use s_zip.Compress.{add_u64}
use s_zip.Sink.{◌>>=◌, ◌>>◌, gets}
use s_zip.AsyncSink.{AsyncSink, write_chunks, stream_position, flush, shutdown}
use s_zip.AsyncWriter.Compress.{AsyncExternal}
use s_zip.AsyncWriter.{
  ZipEntry, AsyncStreamingZipWriter, Writing, on_output, finish_current_entry, sum_uncompressed,
}

module _ (ext : AsyncExternal) where
  -- A value past `u32::MAX` is replaced by the placeholder.
  unfoldable pub size_or_placeholder : ℕ → List ℕ
  size_or_placeholder v =
      if ltb u32_max v then to_le_bytes 4 0xFFFFFFFF else to_le_bytes 4 (v % u32_mod)

  abbrev pub central_flags : Option ℕ → ℕ
  central_flags (some code) = 0x09
  central_flags none = 0x08

  -- The AES field of an encrypted entry.
  unfoldable pub central_aes_extra : ZipEntry → List ℕ
  central_aes_extra entry = elim entry.encryption_strength [
    | none ↦ []
    | some strength_code ↦
        (0x01 ∷ 0x99 ∷ 7 ∷ 0 ∷ 2 ∷ 0 ∷ 0x41 ∷ 0x45 ∷ (strength_code % u8_mod) ∷ [])
        ++ to_le_bytes 2 entry.compression_method
  ]

  abbrev pub if_wide : ℕ → List ℕ
  if_wide v = if ltb u32_max v then to_le_bytes 8 v else []

  -- The values of the ZIP64 field.
  unfoldable pub zip64_data : ZipEntry → List ℕ
  zip64_data entry =
      if_wide entry.uncompressed_size
      ++ (if_wide entry.compressed_size ++ if_wide entry.local_header_offset)

  unfoldable pub central_zip64_extra : ZipEntry → List ℕ
  unfolding zip64_data
  central_zip64_extra entry =
      if ltb u32_max entry.uncompressed_size
        || ltb u32_max entry.compressed_size
        || ltb u32_max entry.local_header_offset
      then to_le_bytes 2 0x0001
        ++ (to_le_bytes 2 (length (zip64_data entry) % u16_mod) ++ zip64_data entry)
      else []

  unfoldable pub central_extra : ZipEntry → List ℕ
  unfolding central_aes_extra central_zip64_extra
  central_extra entry = central_aes_extra entry ++ central_zip64_extra entry

  -- The calls for one entry of the central directory; the last is made where there is an extra field.
  unfoldable pub central_header : ZipEntry → List (List ℕ)
  unfolding central_extra size_or_placeholder
  central_header entry =
      (0x50 ∷ 0x4b ∷ 0x01 ∷ 0x02 ∷ [])
      ∷ (20 ∷ 0 ∷ [])
      ∷ (51 ∷ 0 ∷ [])
      ∷ (central_flags entry.encryption_strength ∷ 0 ∷ [])
      ∷ to_le_bytes 2 entry.compression_method
      ∷ (0 ∷ 0 ∷ 0 ∷ 0 ∷ [])
      ∷ to_le_bytes 4 entry.crc32
      ∷ size_or_placeholder entry.compressed_size
      ∷ size_or_placeholder entry.uncompressed_size
      ∷ to_le_bytes 2 (length entry.name % u16_mod)
      ∷ to_le_bytes 2 (length (central_extra entry) % u16_mod)
      ∷ to_le_bytes 2 0
      ∷ to_le_bytes 2 0
      ∷ to_le_bytes 2 0
      ∷ to_le_bytes 4 0
      ∷ size_or_placeholder entry.local_header_offset
      ∷ entry.name
      ∷ elim (central_extra entry) [ [] ↦ [] | b ∷ bs ↦ (b ∷ bs) ∷ [] ]

  unfoldable pub central_headers : List ZipEntry → List (List ℕ)
  unfolding central_header
  central_headers [] = []
  central_headers (entry ∷ entries) = central_header entry ++ central_headers entries

  -- The ZIP64 end record and its locator.
  unfoldable pub zip64_end_records : ℕ → ℕ → ℕ → List (List ℕ)
  zip64_end_records entry_count central_dir_size central_dir_offset =
      (0x50 ∷ 0x4b ∷ 0x06 ∷ 0x06 ∷ [])
      ∷ to_le_bytes 8 44
      ∷ (20 ∷ 0 ∷ [])
      ∷ (20 ∷ 0 ∷ [])
      ∷ to_le_bytes 4 0
      ∷ to_le_bytes 4 0
      ∷ to_le_bytes 8 entry_count
      ∷ to_le_bytes 8 entry_count
      ∷ to_le_bytes 8 central_dir_size
      ∷ to_le_bytes 8 central_dir_offset
      ∷ (0x50 ∷ 0x4b ∷ 0x06 ∷ 0x07 ∷ [])
      ∷ to_le_bytes 4 0
      ∷ to_le_bytes 8 (central_dir_offset + central_dir_size)
      ∷ to_le_bytes 4 0
      ∷ []

  abbrev pub count_or_placeholder : ℕ → List ℕ
  count_or_placeholder n =
      if ltb u16_max n then to_le_bytes 2 0xFFFF else to_le_bytes 2 (n % u16_mod)

  -- The end of central directory.
  unfoldable pub end_record : ℕ → ℕ → ℕ → List (List ℕ)
  unfolding size_or_placeholder
  end_record entry_count central_dir_size central_dir_offset =
      (0x50 ∷ 0x4b ∷ 0x05 ∷ 0x06 ∷ [])
      ∷ to_le_bytes 2 0
      ∷ to_le_bytes 2 0
      ∷ count_or_placeholder entry_count
      ∷ count_or_placeholder entry_count
      ∷ size_or_placeholder central_dir_size
      ∷ size_or_placeholder central_dir_offset
      ∷ to_le_bytes 2 0
      ∷ []

  unfoldable pub end_records : ℕ → ℕ → ℕ → List (List ℕ)
  unfolding zip64_end_records end_record
  end_records entry_count central_dir_size central_dir_offset =
      (if ltb u16_max entry_count || ltb u32_max central_dir_size || ltb u32_max central_dir_offset
        then zip64_end_records entry_count central_dir_size central_dir_offset
        else [])
      ++ end_record entry_count central_dir_size central_dir_offset

  -- The central directory and the end records; the sink is flushed and shut down, which completes an
  -- upload.
  unfoldable pub write_directory : Writing ext (Unit {0})
  unfolding central_headers end_records on_output
  write_directory = do
    central_dir_offset ← on_output ext stream_position
    entries ← gets (λ w. w.entries)
    on_output ext (write_chunks (central_headers entries))
    end_of_dir ← on_output ext stream_position
    on_output ext (
        write_chunks
          (end_records (length entries) (end_of_dir - central_dir_offset) central_dir_offset))
    on_output ext flush
    on_output ext shutdown

  -- Everything that `finish` does but giving the sink back.
  unfoldable pub finish_all : Writing ext (Unit {0})
  unfolding finish_current_entry write_directory
  finish_all = do finish_current_entry ext; write_directory

  -- The writer is consumed; its sink is given back where all went well.
  unfoldable pub finish : AsyncStreamingZipWriter ext → Result AsyncSink
  unfolding finish_all
  finish w =
      let (r, w') = finish_all w in elim r [ ok u ↦ ok w'.output | err e ↦ err e | panic ↦ panic ]

  sum_compressed : List ZipEntry → ℕ
  sum_compressed [] = 0
  sum_compressed (e ∷ es) = add_u64 e.compressed_size (sum_compressed es)

  any_encrypted : List ZipEntry → Bool
  any_encrypted [] = false
  any_encrypted (e ∷ es) =
      elim e.encryption_strength [ none ↦ false | some code ↦ true ] || any_encrypted es

  -- The statistics are taken once the open entry is closed, before `finish`.
  pub finish_with_stats : AsyncStreamingZipWriter ext → Result (AsyncSink × ZipStats)
  unfolding sum_uncompressed sum_compressed any_encrypted finish finish_current_entry
  finish_with_stats w =
      let (closed, w') = finish_current_entry ext w in
      let stats : ZipStats = record {
        entry_count = length w'.entries;
        total_uncompressed_bytes = sum_uncompressed ext w'.entries;
        total_compressed_bytes = sum_compressed w'.entries;
        encrypted = any_encrypted w'.entries;
      } in
      elim closed [
        | ok u ↦ elim (finish w') [ ok sink ↦ ok (sink, stats) | err e ↦ err e | panic ↦ panic ]
        | err e ↦ err e
        | panic ↦ panic
      ]
