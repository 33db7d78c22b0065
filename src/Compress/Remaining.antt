-- ===== src/Compress/Remaining.antt =====
-- What a compressor of src/writer.rs has still to give: its buffer, and what its encoder adds for the
-- chunks that are yet to be written.
use s_zip.Common.{ℕ, ◌≡◌, refl, sym, List, [], ◌∷◌, ◌++◌, flatten, append-nil, append_assoc}
use s_zip.External.{External, encode_chunks}
use s_zip.Compress.{
  Compressor, deflate_compressor, zstd_compressor, stored_compressor, write_flush, get_buffer,
  set_buffer, take_buffer, finish_compression,
}

module _ (ext : External) where
  unfoldable pub remaining : Compressor ext → List (List ℕ) → List ℕ
  remaining (deflate_compressor s b) chunks = b.buffer ++ encode_chunks ext.deflate s chunks
  remaining (zstd_compressor s b) chunks = b.buffer ++ encode_chunks ext.zstd s chunks
  remaining (stored_compressor b) chunks = b.buffer ++ flatten chunks

  regroup : (a b c d : List ℕ) → a ++ (b ++ (c ++ d)) ≡ ((a ++ b) ++ c) ++ d
  regroup a b c d = rw (append_assoc (a ++ b) c d, append_assoc a b (c ++ d))

  -- A write and a flush lose nothing, and add nothing of their own.
  pub remaining-write_flush :
      (k : Compressor ext) (bytes : List ℕ) (chunks : List (List ℕ))
      → remaining k (bytes ∷ chunks) ≡ remaining (write_flush ext k bytes) chunks
  unfolding remaining write_flush encode_chunks
  remaining-write_flush (deflate_compressor s b) bytes chunks =
      let (out, s1) = ext.deflate.write_all s bytes in
      let (more, s2) = ext.deflate.flush s1 in
      regroup b.buffer out more (encode_chunks ext.deflate s2 chunks)
  remaining-write_flush (zstd_compressor s b) bytes chunks =
      let (out, s1) = ext.zstd.write_all s bytes in
      let (more, s2) = ext.zstd.flush s1 in
      regroup b.buffer out more (encode_chunks ext.zstd s2 chunks)
  remaining-write_flush (stored_compressor b) bytes chunks =
      sym (append_assoc b.buffer bytes (flatten chunks))

  -- Nor does taking the buffer out.
  pub remaining-take_buffer :
      (k : Compressor ext) (chunks : List (List ℕ))
      → (take_buffer (get_buffer ext k)).0
          ++ remaining (set_buffer ext k (take_buffer (get_buffer ext k)).1) chunks
        ≡ remaining k chunks
  unfolding remaining get_buffer set_buffer take_buffer
  remaining-take_buffer (deflate_compressor s b) chunks = refl
  remaining-take_buffer (zstd_compressor s b) chunks = refl
  remaining-take_buffer (stored_compressor b) chunks = refl

  pub finish_compression-remaining :
      (k : Compressor ext) → (take_buffer (finish_compression ext k)).0 ≡ remaining k []
  unfolding remaining finish_compression take_buffer encode_chunks
  finish_compression-remaining (deflate_compressor s b) = refl
  finish_compression-remaining (zstd_compressor s b) = refl
  finish_compression-remaining (stored_compressor b) = sym (append-nil b.buffer)
