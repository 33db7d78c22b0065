-- ===== src/Writer/Close.antt =====
-- `finish_current_entry` of src/writer.rs on an open entry, where the sink has room.
use s_zip.Common.{
  ℕ, ◌+◌, ◌%◌, ◌≤◌, ◌≡◌, refl, ap, ◌∙◌, List, [], ◌∷◌, ◌++◌, Option, none, some, arith, length,
  flatten, append_assoc, append-nil, length-append, u64_mod,
}
use s_zip.Outcome.{ok}
use s_zip.External.{External, hash_chunks}
use s_zip.Encryption.{CounterMode}
use s_zip.Central.{ZipEntry}
use s_zip.Compress.{take_buffer, finish_compression, add_u64, add_compressed, finalize_crc}
use s_zip.Compress.Remaining.{remaining, finish_compression-remaining}
use s_zip.Compress.Counted.{counted, add_compressed-counted}
use s_zip.Sink.{write_chunks}
use s_zip.Sink.Chunks.{write_chunks_room, bind_ok}
use s_zip.Writer.{
  CurrentEntry, StreamingZipWriter, encrypt_if, finish_encryption, data_descriptor, take_current,
  push_entry, seal_entry, close_entry, finish_current_entry,
}
use s_zip.Writer.Finish.{on_output_ok}
use s_zip.Writer.Cipher.{cipher, moved, encrypt_if-moved, length-encrypt_if}
use s_zip.Writer.Progress.{Progress}
use s_zip.Writer.WriteData.{holding, HasRoom, HasRoom-le, write_piece}

module _ (ext : External) (laws : CounterMode ext.crypto) (c0 : CurrentEntry ext)
    (chunks : List (List ℕ)) where
  -- All the compressed data of the entry that was `c0` when the chunks were written.
  abbrev pub all_compressed : List ℕ
  all_compressed = remaining ext c0.encoder chunks

  -- The code of an encrypted entry, and its strength's code.
  abbrev pub code_and_strength : List ℕ × Option ℕ
  code_and_strength =
      finish_encryption ext (moved ext laws c0.encryptor chunks (length all_compressed))

  abbrev pub crc_of : ℕ
  crc_of = ext.hasher.finalize (hash_chunks ext.hasher c0.counter.crc chunks)

  abbrev pub compressed_size_of : ℕ
  compressed_size_of =
      add_u64 ((c0.counter.compressed_count + length all_compressed) % u64_mod)
        (length code_and_strength.0)

  abbrev pub uncompressed_size_of : ℕ
  uncompressed_size_of = (c0.counter.uncompressed_count + length (flatten chunks)) % u64_mod

  -- The entry as the central directory will show it.
  abbrev pub closed_entry : ZipEntry
  closed_entry = record {
    name = c0.name;
    local_header_offset = c0.local_header_offset;
    crc32 = crc_of;
    compressed_size = compressed_size_of;
    uncompressed_size = uncompressed_size_of;
    compression_method = c0.compression_method;
    encryption_strength = code_and_strength.1;
  }

  -- What stands in the file from the entry's data on.
  abbrev pub closed_bytes : List ℕ
  closed_bytes =
      cipher ext laws c0.encryptor all_compressed
      ++ (code_and_strength.0
          ++ flatten (data_descriptor ext crc_of compressed_size_of uncompressed_size_of))

module _ (ext : External) (laws : CounterMode ext.crypto) (c0 : CurrentEntry ext)
    (w : StreamingZipWriter ext) (base : List ℕ) (chunks : List (List ℕ)) where
  -- The writer when the entry is closed.
  abbrev pub closed_writer : StreamingZipWriter ext
  closed_writer = record w {
    current_entry = none;
    output = record w.output { written = base ++ closed_bytes ext laws c0 chunks };
    entries = w.entries ++ closed_entry ext laws c0 chunks ∷ [];
  }

regroup : (b a c d : List ℕ) → ((b ++ a) ++ (c ++ [])) ++ d ≡ b ++ (a ++ (c ++ d))
regroup b a c d = rw (append-nil c, append_assoc (b ++ a) c d, append_assoc b a (c ++ d))

module _ (ext : External) (laws : CounterMode ext.crypto) (c0 : CurrentEntry ext)
    (w : StreamingZipWriter ext) (base : List ℕ) (chunks : List (List ℕ))
    (room : length (base ++ closed_bytes ext laws c0 chunks) ≤ w.output.capacity) where
  abbrev all : List ℕ
  all = all_compressed ext laws c0 chunks

  abbrev code : List ℕ
  code = (code_and_strength ext laws c0 chunks).0

  abbrev descriptor : List (List ℕ)
  descriptor =
      data_descriptor ext (crc_of ext laws c0 chunks) (compressed_size_of ext laws c0 chunks)
        (uncompressed_size_of ext laws c0 chunks)

  abbrev data_out : List ℕ
  data_out = base ++ cipher ext laws c0.encryptor all

  sizes : length data_out + length code + length (flatten descriptor) ≤ w.output.capacity
  sizes = omega (
    arith,
    room,
    length-append base (closed_bytes ext laws c0 chunks),
    length-append base (cipher ext laws c0.encryptor all),
    length-append (cipher ext laws c0.encryptor all) (code ++ flatten descriptor),
    length-append code (flatten descriptor),
  )

  seal_entry-written :
      seal_entry ext c0
        (counted ext.hasher c0.counter chunks (length all))
        (moved ext laws c0.encryptor chunks (length all))
        (holding ext laws c0 w base all none)
      ≡ (ok tt, closed_writer ext laws c0 w base chunks)
  unfolding seal_entry push_entry finalize_crc counted
  seal_entry-written =
      bind_ok _ _ (
        on_output_ok ext (write_chunks (code ∷ [])) (holding ext laws c0 w base all none) (
          write_chunks_room (code ∷ []) (record w.output { written = data_out })
            (omega (arith, sizes, length-append code []))))
      ∙ bind_ok _ _ (
          on_output_ok ext (write_chunks descriptor) _ (
            write_chunks_room descriptor (record w.output { written = data_out ++ (code ++ []) })
              (omega (arith, sizes, length-append code [], length-append data_out (code ++ [])))))
      ∙ ap
          (λ (t : List ℕ). (
            ok tt,
            record (closed_writer ext laws c0 w base chunks) {
              output = record w.output { written = t };
            },
          ))
          (regroup base (cipher ext laws c0.encryptor all) code (flatten descriptor))

  module _ (raw : List ℕ) (c : CurrentEntry ext) (p : Progress ext laws c0 chunks raw c)
      (stream : HasRoom ext laws c0 w base (length all)) where
    abbrev piece : List ℕ
    piece = (take_buffer (finish_compression ext c.encoder)).0

    -- The last piece completes the data.
    complete : raw ++ piece ≡ all
    complete =
        ap (λ (t : List ℕ). raw ++ t) (finish_compression-remaining ext c.encoder)
        ∙ p.compressed []
        ∙ ap (remaining ext c0.encoder) (append-nil chunks)

    counter_complete :
        add_compressed ext.hasher c.counter (length (encrypt_if ext c.encryptor piece).0)
        ≡ counted ext.hasher c0.counter chunks (length all)
    counter_complete =
        ap (λ k. add_compressed ext.hasher k (length (encrypt_if ext c.encryptor piece).0))
          p.counter
        ∙ add_compressed-counted ext.hasher c0.counter chunks (length raw) _
        ∙ ap (counted ext.hasher c0.counter chunks) (
            omega (
              arith,
              length-append raw piece,
              ap length complete,
              length-encrypt_if ext laws c.encryptor piece,
            ))

    encryptor_complete :
        (encrypt_if ext c.encryptor piece).1 ≡ moved ext laws c0.encryptor chunks (length all)
    encryptor_complete =
        ap (λ e. (encrypt_if ext e piece).1) p.encryptor
        ∙ encrypt_if-moved ext laws c0.encryptor chunks raw piece
        ∙ ap (λ (t : List ℕ). moved ext laws c0.encryptor chunks (length t)) complete

    -- Closing an open entry writes the rest of its data, its code where it is encrypted and its
    -- data descriptor, and adds it to the entries of the central directory.
    pub finish_current_entry-written :
        finish_current_entry ext (holding ext laws c0 w base raw (some c))
        ≡ (ok tt, closed_writer ext laws c0 w base chunks)
    unfolding finish_current_entry take_current close_entry seal_entry
    finish_current_entry-written =
        bind_ok _ _ refl
        ∙ bind_ok _ _ (
            write_piece ext laws c0 w base chunks raw none c piece p
              (HasRoom-le ext laws c0 w base _ _ stream (omega (arith, ap length complete))))
        ∙ (λ i.
            seal_entry ext
              (record c0 {
                name = p.same_name i;
                local_header_offset = p.same_offset i;
                compression_method = p.same_method i;
              })
              (counter_complete i) (encryptor_complete i)
              (holding ext laws c0 w base (complete i) none))
        ∙ seal_entry-written
