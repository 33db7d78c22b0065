-- ===== src/AsyncWriter/Compress.antt =====
-- src/async_writer.rs: its own buffer, compressors and counter. An `AsyncWrite` over memory is ready at
-- once.
use s_zip.Common.{
  ℕ, ◌*◌, Bool, List, [], ◌++◌, Option, none, some, leb, ltb, ◌==◌, if◌then◌else◌, length,
}
use s_zip.Outcome.{Result}
use s_zip.External.{Encoder, Hasher}
use s_zip.Encryption.{Crypto}
use s_zip.Compress.{CompressionMethod, stored, deflate, zstd, add_u64}

-- `async_compression::Level`
pub data Level : Type 0 where
  fastest : Level
  best : Level
  default_level : Level
  precise : ℕ → Level

-- The other packages: `async_compression` in place of `flate2` and `zstd`. An encoder's `shutdown` is
-- its `finish`.
pub record AsyncExternal : Type 1 where
  pub crypto : Crypto
  pub hasher : Hasher
  pub deflate : Encoder
  pub deflate_with : Level → deflate.State
  pub inflate : List ℕ → Result (List ℕ)
  pub zstd : Encoder
  pub zstd_with : Level → zstd.State
  pub unzstd : List ℕ → Result (List ℕ)

-- The quality that a level of 0 to 9 stands for.
unfoldable pub deflate_level : ℕ → Level
deflate_level level =
    if level == 0
    then fastest
    else if leb level 3
    then precise level
    else if leb level 6
    then default_level
    else if leb level 9
    then best
    else default_level

pub record CompressedBuffer : Type 0 where
  pub buffer : List ℕ
  pub flush_threshold : ℕ

-- The threshold for a hint; the capacity that is reserved does not show.
unfoldable pub flush_threshold_for : Option ℕ → ℕ
flush_threshold_for none = 8 * 1024 * 1024
flush_threshold_for (some size) =
    if ltb size 10_000
    then 256 * 1024
    else if ltb size 100_000
    then 512 * 1024
    else if ltb size 1_000_000
    then 2 * 1024 * 1024
    else if ltb size 10_000_000
    then 4 * 1024 * 1024
    else 8 * 1024 * 1024

unfoldable pub with_size_hint : Option ℕ → CompressedBuffer
unfolding flush_threshold_for
with_size_hint size_hint = record { buffer = []; flush_threshold = flush_threshold_for size_hint }

-- What was in the buffer, and the empty buffer.
unfoldable pub take_buffer : CompressedBuffer → List ℕ × CompressedBuffer
take_buffer b = (b.buffer, record b { buffer = [] })

unfoldable pub should_flush : CompressedBuffer → Bool
should_flush b = leb b.flush_threshold (length b.buffer)

-- `poll_write`
abbrev pub extend : CompressedBuffer → List ℕ → CompressedBuffer
extend b bytes = record b { buffer = b.buffer ++ bytes }

module _ (ext : AsyncExternal) where
  -- `Box<dyn AsyncCompressorWrite>`: an encoder over its buffer.
  pub data Compressor : Type 0 where
    deflate_compressor : ext.deflate.State → CompressedBuffer → Compressor
    zstd_compressor : ext.zstd.State → CompressedBuffer → Compressor
    stored_compressor : CompressedBuffer → Compressor

module _ (ext : AsyncExternal) where
  -- The match on the method in `start_entry_with_hint`.
  unfoldable pub new_compressor : CompressionMethod → ℕ → Option ℕ → Compressor ext
  unfolding with_size_hint deflate_level
  new_compressor deflate level hint =
      deflate_compressor (ext.deflate_with (deflate_level level)) (with_size_hint hint)
  new_compressor zstd level hint =
      zstd_compressor (ext.zstd_with (precise level)) (with_size_hint hint)
  new_compressor stored level hint = stored_compressor (with_size_hint hint)

  -- `write_all`, then `flush`.
  unfoldable pub write_flush : Compressor ext → List ℕ → Compressor ext
  write_flush (deflate_compressor s b) bytes =
      let (out, s1) = ext.deflate.write_all s bytes in
      let (more, s2) = ext.deflate.flush s1 in deflate_compressor s2 (extend (extend b out) more)
  write_flush (zstd_compressor s b) bytes =
      let (out, s1) = ext.zstd.write_all s bytes in
      let (more, s2) = ext.zstd.flush s1 in zstd_compressor s2 (extend (extend b out) more)
  write_flush (stored_compressor b) bytes = stored_compressor (extend b bytes)

  unfoldable pub get_buffer : Compressor ext → CompressedBuffer
  get_buffer (deflate_compressor s b) = b
  get_buffer (zstd_compressor s b) = b
  get_buffer (stored_compressor b) = b

  -- A write through `get_buffer_mut`.
  unfoldable pub set_buffer : Compressor ext → CompressedBuffer → Compressor ext
  set_buffer (deflate_compressor s b) b' = deflate_compressor s b'
  set_buffer (zstd_compressor s b) b' = zstd_compressor s b'
  set_buffer (stored_compressor b) b' = stored_compressor b'

  unfoldable pub finish_compression : Compressor ext → CompressedBuffer
  finish_compression (deflate_compressor s b) = extend b (ext.deflate.finish s)
  finish_compression (zstd_compressor s b) = extend b (ext.zstd.finish s)
  finish_compression (stored_compressor b) = b

module _ (h : Hasher) where
  pub record CrcCounter : Type 0 where
    pub crc : h.State
    pub uncompressed_count : ℕ
    pub compressed_count : ℕ

module _ (h : Hasher) where
  unfoldable pub new_counter : CrcCounter h
  new_counter = record { crc = h.new; uncompressed_count = 0; compressed_count = 0 }

  unfoldable pub update_uncompressed : CrcCounter h → List ℕ → CrcCounter h
  update_uncompressed k bytes = record k {
    crc = h.update k.crc bytes;
    uncompressed_count = add_u64 k.uncompressed_count (length bytes);
  }

  unfoldable pub add_compressed : CrcCounter h → ℕ → CrcCounter h
  add_compressed k count = record k { compressed_count = add_u64 k.compressed_count count }

  unfoldable pub finalize_crc : CrcCounter h → ℕ
  finalize_crc k = h.finalize k.crc
