-- ===== src/RoundTrip/Extract.antt =====
-- An entry that src/writer.rs has written, read back by `read_entry` of src/reader.rs, whatever follows it
-- in the file.
use mathlib.Core.Path.{subst}
use s_zip.Common.{
  ℕ, ◌+◌, ◌^◌, ◌≤◌, ◌<◌, ◌≡◌, refl, ap, ◌∙◌, List, ◌++◌, Option, none, arith, length, flatten,
  append_assoc, length-append, drop, drop_append, u16_mod, Option-cases, inl, inr,
}
use s_zip.Outcome.{ok, ok_inj}
use s_zip.External.{External, HasherLaws, CodecLaws}
use s_zip.Format
use s_zip.Format.{max_entry_alloc}
use s_zip.Encryption.{CounterMode}
use s_zip.Options.{SystemTime}
use s_zip.Compress.{
  CompressionMethod, stored, deflate, zstd, Compressor, to_zip_method, new_compressor,
  with_size_hint, new_counter,
}
use s_zip.Compress.Remaining.{remaining}
use s_zip.Cursor.Runs.{Runs-bind, bind_ok}
use s_zip.Reader.EndRecord.{seek_start_small}
use s_zip.Entry.{decompress, read_entry_data}
use s_zip.Writer.Cipher.{cipher, moved}
use s_zip.Writer.{
  CurrentEntry, StreamingZipWriter, local_header, finish_encryption, data_descriptor,
}
use s_zip.Writer.Close.{
  all_compressed, closed_entry, closed_bytes, crc_of, compressed_size_of, uncompressed_size_of,
}
use s_zip.Writer.Start.{opened, before_data}
use s_zip.RoundTrip.Entry.{seen}
use s_zip.RoundTrip.Local.{plain_options, Runs-read_local_header_plain}
use s_zip.RoundTrip.Payload.{Runs-read_payload_plain}

module _ (ext : External) (codec : CodecLaws ext) where
  -- What a new compressor makes of the chunks decompresses to their bytes.
  pub decompress-remaining :
      (m : CompressionMethod) (level : ℕ) (hint : Option ℕ) (k : Compressor ext)
      (chunks : List (List ℕ))
      → new_compressor ext m level hint ≡ ok k
      → decompress ext (to_zip_method m) (remaining ext k chunks) ≡ ok (flatten chunks)
  unfolding new_compressor decompress remaining to_zip_method with_size_hint
  decompress-remaining stored level hint k chunks e =
      subst
        (λ (k : Compressor ext). decompress ext 0 (remaining ext k chunks) ≡ ok (flatten chunks))
        (ok_inj e) refl
  decompress-remaining deflate level hint k chunks e =
      subst
        (λ (k : Compressor ext). decompress ext 8 (remaining ext k chunks) ≡ ok (flatten chunks))
        (ok_inj e) (codec.inflate-deflate level chunks)
  decompress-remaining zstd level hint k chunks e = elim (Option-cases (ext.zstd_new level)) [
    | inl r ↦ absurd (cc (rw (r, new_compressor) at e))
    | inr (s, r) ↦
        subst
          (λ (k : Compressor ext). decompress ext 93 (remaining ext k chunks) ≡ ok (flatten chunks))
          (ok_inj (rw (r, new_compressor) at e)) (codec.unzstd-zstd level s chunks r)
  ]

pub regroup : (w h a t r : List ℕ) → ((w ++ h) ++ (a ++ t)) ++ r ≡ w ++ ((h ++ a) ++ (t ++ r))
regroup w h a t r = rw (
  append_assoc (w ++ h) (a ++ t) r,
  append_assoc w h ((a ++ t) ++ r),
  append_assoc a t r,
  append_assoc h a (t ++ r),
)

pub to_zip_method-lt : (m : CompressionMethod) → to_zip_method m < u16_mod
unfolding to_zip_method
to_zip_method-lt stored = omega arith
to_zip_method-lt deflate = omega arith
to_zip_method-lt zstd = omega arith

module _ (ext : External) (laws : CounterMode ext.crypto) (codec : CodecLaws ext)
    (hashing : HasherLaws ext.hasher) (rng : ℕ → Option (List ℕ)) (name : List ℕ)
    (mtime : Option SystemTime) (hint : Option ℕ) (w : StreamingZipWriter ext)
    (encoder : Compressor ext) (chunks : List (List ℕ))
    (made : new_compressor ext w.compression_method w.compression_level hint ≡ ok encoder)
    (name_fits : length name < u16_mod) where
  abbrev start : CurrentEntry ext
  start = opened ext rng name (plain_options mtime) hint w none encoder

  abbrev base : List ℕ
  base = before_data ext rng name (plain_options mtime) hint w none encoder

  abbrev all : List ℕ
  all = all_compressed ext laws start chunks

  abbrev entry : Format.ZipEntry
  entry = seen (closed_entry ext laws start chunks)

  abbrev file : List ℕ → List ℕ
  file rest = (base ++ closed_bytes ext laws start chunks) ++ rest

  size_same : length all ≤ max_entry_alloc → entry.compressed_size ≡ length all
  unfolding new_counter moved finish_encryption
  size_same small = omega arith

  crc_same : entry.crc32 ≡ ext.hasher.hash (flatten chunks)
  unfolding new_counter
  crc_same = hashing.finalize-updates chunks

  -- An entry that was written without a password is read back, whatever follows it in the file:
  -- the reader gives exactly the bytes of the chunks, in their order.
  pub read_entry_data-plain :
      (password : Option (List ℕ)) (rest : List ℕ) (p : ℕ)
      → length all ≤ max_entry_alloc
      → length (file rest) < 2 ^ 63
      → read_entry_data ext password entry (record { bytes = file rest; pos = p })
        ≡ ok (flatten chunks, record { bytes = file rest; pos = length base + length all })
  unfolding read_entry_data cipher moved finish_encryption
  read_entry_data-plain password rest p small in_file =
      bind_ok _ _ (seek_start_small (length w.output.written) _ (omega (arith, sizes)))
      ∙ (Runs-bind _ _
            (Runs-read_local_header_plain ext name mtime (to_zip_method w.compression_method)
              name_fits (to_zip_method-lt w.compression_method))
            (Runs-read_payload_plain ext password entry (flatten chunks) all (size_same small) small
              (decompress-remaining ext codec w.compression_method w.compression_level hint encoder
                chunks made)
              crc_same)).at
          _ (tail ++ rest)
          (record {
            here =
                ap (drop (length w.output.written)) parts
                ∙ drop_append (length w.output.written) w.output.written _ refl;
            inside = omega (arith, sizes);
            small = in_file;
          })
      ∙ ap (λ (q : ℕ). ok (flatten chunks, record { bytes = file rest; pos = q }))
          (omega (arith, length-append w.output.written head, length-append head all))
    where
      head : List ℕ
      head =
          flatten
            (local_header ext name (plain_options mtime) (to_zip_method w.compression_method) none)

      tail : List ℕ
      tail = flatten (
          data_descriptor ext (crc_of ext laws start chunks)
            (compressed_size_of ext laws start chunks) (uncompressed_size_of ext laws start chunks))

      parts : file rest ≡ w.output.written ++ ((head ++ all) ++ (tail ++ rest))
      parts = regroup w.output.written head all tail rest

      sizes :
          length (file rest) ≡ length w.output.written + length ((head ++ all) ++ (tail ++ rest))
      sizes = ap length parts ∙ length-append w.output.written ((head ++ all) ++ (tail ++ rest))
