-- ===== src/AsyncWriter/Entries.antt =====
-- `write_entries_parallel` of src/async_writer.rs.
use s_zip.Common.{
  ℕ, ◌%◌, ◌||◌, List, [], ◌∷◌, none, if◌then◌else◌, length, to_le_bytes, u16_mod, u32_mod, u32_max,
  ltb,
}
use s_zip.Outcome.{Result}
use s_zip.Parallel.{CompressedEntry}
use s_zip.Sink.{◌>>=◌, ◌>>◌, pure, lift}
use s_zip.AsyncSink.{write_chunks, stream_position}
use s_zip.AsyncWriter.Compress.{AsyncExternal}
use s_zip.AsyncWriter.{Writing, on_output, push_entry, finish_current_entry}

module _ (ext : AsyncExternal) where
  -- What is written for one entry of `write_entries_parallel`, in front of its data.
  unfoldable pub parallel_header : CompressedEntry → List (List ℕ)
  parallel_header entry =
      let compressed_size = length entry.content in
      let uncompressed_size = entry.uncompressed_size in
      let needs_zip64 = ltb u32_max compressed_size || ltb u32_max uncompressed_size in
      (0x50 ∷ 0x4b ∷ 0x03 ∷ 0x04 ∷ [])
      ∷ to_le_bytes 2 (if needs_zip64 then 45 else 20)
      ∷ (8 ∷ 0 ∷ [])
      ∷ (8 ∷ 0 ∷ [])
      ∷ (0 ∷ 0 ∷ 0 ∷ 0 ∷ [])
      ∷ to_le_bytes 4 entry.crc32
      ∷ to_le_bytes 4 (if needs_zip64 then 0xFFFFFFFF else compressed_size % u32_mod)
      ∷ to_le_bytes 4 (if needs_zip64 then 0xFFFFFFFF else uncompressed_size % u32_mod)
      ∷ to_le_bytes 2 (length entry.name % u16_mod)
      ∷ to_le_bytes 2 (if needs_zip64 then 20 else 0)
      ∷ entry.name
      ∷ (if needs_zip64
          then to_le_bytes 2 0x0001
            ∷ to_le_bytes 2 16
            ∷ to_le_bytes 8 uncompressed_size
            ∷ to_le_bytes 8 compressed_size
            ∷ []
          else [])

  -- The loop over the compressed entries.
  unfoldable pub write_compressed : List CompressedEntry → Writing ext (Unit {0})
  unfolding parallel_header on_output push_entry
  write_compressed [] = pure tt
  write_compressed (entry ∷ entries) = do
    local_header_offset ← on_output ext stream_position
    on_output ext (write_chunks (parallel_header entry))
    on_output ext (write_chunks (entry.content ∷ []))
    push_entry ext (record {
      name = entry.name;
      local_header_offset = local_header_offset;
      crc32 = entry.crc32;
      compressed_size = length entry.content;
      uncompressed_size = entry.uncompressed_size;
      compression_method = 8;
      encryption_strength = none;
    })
    write_compressed entries

  -- `compressed` is what `compress_entries_parallel` returned.
  unfoldable pub write_entries_parallel : Result (List CompressedEntry) → Writing ext (Unit {0})
  unfolding finish_current_entry write_compressed
  write_entries_parallel compressed = do
    finish_current_entry ext
    entries ← lift compressed
    write_compressed entries
