-- ===== src/Compress.antt =====
-- src/writer.rs: the compression method, the buffer, the compressors over it and the counter.
pub mod Remaining
pub mod Counted
use s_zip.Common.{
  ℕ, ◌+◌, ◌*◌, ◌%◌, Bool, List, [], ◌++◌, Option, none, some, leb, ltb, if◌then◌else◌, length,
  u64_mod,
}
use s_zip.Outcome.{Result, ok, err, io, codec_failed}
use s_zip.External.{External, Hasher}

pub data CompressionMethod : Type 0 where
  stored deflate zstd : CompressionMethod

unfoldable pub to_zip_method : CompressionMethod → ℕ
to_zip_method stored = 0
to_zip_method deflate = 8
to_zip_method zstd = 93

-- The initial capacity does not show in what the buffer holds.
pub record CompressedBuffer : Type 0 where
  pub buffer : List ℕ
  pub flush_threshold : ℕ

-- The initial capacity and the flush threshold.
unfoldable pub adaptive_sizes : Option ℕ → ℕ × ℕ
adaptive_sizes none = (512 * 1024, 8 * 1024 * 1024)
adaptive_sizes (some size) =
    if ltb size 10_000
    then (8 * 1024, 256 * 1024)
    else if ltb size 100_000
    then (32 * 1024, 512 * 1024)
    else if ltb size 1_000_000
    then (128 * 1024, 2 * 1024 * 1024)
    else if ltb size 10_000_000
    then (256 * 1024, 4 * 1024 * 1024)
    else (512 * 1024, 8 * 1024 * 1024)

unfoldable pub with_size_hint : Option ℕ → CompressedBuffer
unfolding adaptive_sizes
with_size_hint size_hint = record { buffer = []; flush_threshold = (adaptive_sizes size_hint).1 }

-- What was in the buffer, and the empty buffer.
unfoldable pub take_buffer : CompressedBuffer → List ℕ × CompressedBuffer
take_buffer b = (b.buffer, record b { buffer = [] })

unfoldable pub should_flush : CompressedBuffer → Bool
should_flush b = leb b.flush_threshold (length b.buffer)

abbrev pub extend : CompressedBuffer → List ℕ → CompressedBuffer
extend b bytes = record b { buffer = b.buffer ++ bytes }

module _ (ext : External) where
  -- `Box<dyn CompressorWrite>`: an encoder over its buffer.
  pub data Compressor : Type 0 where
    deflate_compressor : ext.deflate.State → CompressedBuffer → Compressor
    zstd_compressor : ext.zstd.State → CompressedBuffer → Compressor
    stored_compressor : CompressedBuffer → Compressor

module _ (ext : External) where
  -- A stored entry takes the default buffer, whatever the hint.
  unfoldable pub new_compressor : CompressionMethod → ℕ → Option ℕ → Result (Compressor ext)
  unfolding with_size_hint
  new_compressor deflate level hint =
      ok (deflate_compressor (ext.deflate_new level) (with_size_hint hint))
  new_compressor stored level hint = ok (stored_compressor (with_size_hint none))
  new_compressor zstd level hint = elim (ext.zstd_new level) [
    | none ↦ err (io codec_failed)
    | some encoder ↦ ok (zstd_compressor encoder (with_size_hint hint))
  ]

  -- `write_all`, then `flush`.
  unfoldable pub write_flush : Compressor ext → List ℕ → Compressor ext
  write_flush (deflate_compressor s b) bytes =
      let (out, s1) = ext.deflate.write_all s bytes in
      let (more, s2) = ext.deflate.flush s1 in deflate_compressor s2 (extend (extend b out) more)
  write_flush (zstd_compressor s b) bytes =
      let (out, s1) = ext.zstd.write_all s bytes in
      let (more, s2) = ext.zstd.flush s1 in zstd_compressor s2 (extend (extend b out) more)
  write_flush (stored_compressor b) bytes = stored_compressor (extend b bytes)

  unfoldable pub get_buffer : Compressor ext → CompressedBuffer
  get_buffer (deflate_compressor s b) = b
  get_buffer (zstd_compressor s b) = b
  get_buffer (stored_compressor b) = b

  -- A write through `get_buffer_mut`.
  unfoldable pub set_buffer : Compressor ext → CompressedBuffer → Compressor ext
  set_buffer (deflate_compressor s b) b' = deflate_compressor s b'
  set_buffer (zstd_compressor s b) b' = zstd_compressor s b'
  set_buffer (stored_compressor b) b' = stored_compressor b'

  unfoldable pub finish_compression : Compressor ext → CompressedBuffer
  finish_compression (deflate_compressor s b) = extend b (ext.deflate.finish s)
  finish_compression (zstd_compressor s b) = extend b (ext.zstd.finish s)
  finish_compression (stored_compressor b) = b

-- `u64` addition.
abbrev pub add_u64 : ℕ → ℕ → ℕ
add_u64 a b = (a + b) % u64_mod

module _ (h : Hasher) where
  pub record CrcCounter : Type 0 where
    pub crc : h.State
    pub uncompressed_count : ℕ
    pub compressed_count : ℕ

module _ (h : Hasher) where
  unfoldable pub new_counter : CrcCounter h
  new_counter = record { crc = h.new; uncompressed_count = 0; compressed_count = 0 }

  unfoldable pub update_uncompressed : CrcCounter h → List ℕ → CrcCounter h
  update_uncompressed k bytes = record k {
    crc = h.update k.crc bytes;
    uncompressed_count = add_u64 k.uncompressed_count (length bytes);
  }

  unfoldable pub add_compressed : CrcCounter h → ℕ → CrcCounter h
  add_compressed k count = record k { compressed_count = add_u64 k.compressed_count count }

  unfoldable pub finalize_crc : CrcCounter h → ℕ
  finalize_crc k = h.finalize k.crc
