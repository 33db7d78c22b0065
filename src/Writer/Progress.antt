-- ===== src/Writer/Progress.antt =====
-- What `write_data` of src/writer.rs has done to the entry that is open: the data that is out and the
-- data that is still in the compressor make up the compressed data of all that was written.
use s_zip.Common.{
  ℕ, ◌≡◌, sym, ap, ◌∙◌, List, [], ◌∷◌, ◌++◌, arith, length, append_assoc, length-append,
}
use s_zip.External.{External}
use s_zip.Encryption.{CounterMode}
use s_zip.Compress.{update_uncompressed, add_compressed, get_buffer, set_buffer, take_buffer}
use s_zip.Compress.Counted.{counted, update_uncompressed-counted, add_compressed-counted}
use s_zip.Compress.Remaining.{remaining, remaining-write_flush, remaining-take_buffer}
use s_zip.Writer.{CurrentEntry, encrypt_if, update_hmac_if, absorb}
use s_zip.Writer.Cipher.{moved, update_hmac_if-moved, encrypt_if-moved, length-encrypt_if}

module _ (ext : External) (laws : CounterMode ext.crypto) (c0 : CurrentEntry ext) where
  -- What an entry has become that was `c0` when chunks were written, whose compressed data is out
  -- as far as `raw`.
  pub record Progress (chunks : List (List ℕ)) (raw : List ℕ) (c : CurrentEntry ext) : Type 0 where
    pub same_name : c.name ≡ c0.name
    pub same_offset : c.local_header_offset ≡ c0.local_header_offset
    pub same_method : c.compression_method ≡ c0.compression_method
    pub compressed :
        (ys : List (List ℕ))
        → raw ++ remaining ext c.encoder ys ≡ remaining ext c0.encoder (chunks ++ ys)
    pub counter : c.counter ≡ counted ext.hasher c0.counter chunks (length raw)
    pub encryptor : c.encryptor ≡ moved ext laws c0.encryptor chunks (length raw)

module _ (ext : External) (laws : CounterMode ext.crypto) (c0 : CurrentEntry ext) where
  pub absorb-Progress :
      (chunks : List (List ℕ)) (raw bytes : List ℕ) (c : CurrentEntry ext)
      → Progress ext laws c0 chunks raw c
      → Progress ext laws c0 (chunks ++ bytes ∷ []) raw (absorb ext c bytes)
  unfolding absorb
  absorb-Progress chunks raw bytes c p = record {
    same_name = p.same_name;
    same_offset = p.same_offset;
    same_method = p.same_method;
    compressed = λ ys.
        ap (λ (t : List ℕ). raw ++ t) (sym (remaining-write_flush ext c.encoder bytes ys))
        ∙ p.compressed (bytes ∷ ys)
        ∙ ap (remaining ext c0.encoder) (sym (append_assoc chunks (bytes ∷ []) ys));
    counter =
        ap (λ k. update_uncompressed ext.hasher k bytes) p.counter
        ∙ update_uncompressed-counted ext.hasher c0.counter chunks (length raw) bytes;
    encryptor =
        ap (λ e. update_hmac_if ext e bytes) p.encryptor
        ∙ update_hmac_if-moved ext laws c0.encryptor chunks (length raw) bytes;
  }

  -- The entry after its buffer was taken out.
  abbrev pub flushed : CurrentEntry ext → CurrentEntry ext
  flushed c =
      let (piece, emptied) = take_buffer (get_buffer ext c.encoder) in
      let (bytes, encryptor) = encrypt_if ext c.encryptor piece in
      record c {
        encoder = set_buffer ext c.encoder emptied;
        encryptor = encryptor;
        counter = add_compressed ext.hasher c.counter (length bytes);
      }

  abbrev pub piece_of : CurrentEntry ext → List ℕ
  piece_of c = (take_buffer (get_buffer ext c.encoder)).0

  pub flushed-Progress :
      (chunks : List (List ℕ)) (raw : List ℕ) (c : CurrentEntry ext)
      → Progress ext laws c0 chunks raw c
      → Progress ext laws c0 chunks (raw ++ piece_of c) (flushed c)
  flushed-Progress chunks raw c p = record {
    same_name = p.same_name;
    same_offset = p.same_offset;
    same_method = p.same_method;
    compressed = λ ys.
        append_assoc raw (piece_of c) _
        ∙ ap (λ (t : List ℕ). raw ++ t) (remaining-take_buffer ext c.encoder ys)
        ∙ p.compressed ys;
    counter =
        ap (λ k. add_compressed ext.hasher k (length (encrypt_if ext c.encryptor (piece_of c)).0))
          p.counter
        ∙ add_compressed-counted ext.hasher c0.counter chunks (length raw) _
        ∙ ap (counted ext.hasher c0.counter chunks) (
            omega (
              arith,
              length-append raw (piece_of c),
              length-encrypt_if ext laws c.encryptor (piece_of c),
            ));
    encryptor =
        ap (λ e. (encrypt_if ext e (piece_of c)).1) p.encryptor
        ∙ encrypt_if-moved ext laws c0.encryptor chunks raw (piece_of c);
  }
