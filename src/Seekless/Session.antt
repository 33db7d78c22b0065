-- ===== src/Seekless/Session.antt =====
-- A whole archive: written and finished by src/seekless.rs, opened and read by src/reader.rs.
use s_zip.Common.{
  ℕ, ◌+◌, ◌^◌, ◌≤◌, ◌<◌, ◌≡◌, ◌≢◌, refl, sym, ap, ◌∙◌, List, [], ◌∷◌, ◌++◌, Option, none, All, map,
  arith, length, u32_max, append_assoc, length-append,
}
use s_zip.Outcome.{ok}
use s_zip.External.{External, HasherLaws, WholeLaws}
use s_zip.Compress.{CompressionMethod, to_zip_method}
use s_zip.Format.{ZipEntry}
use s_zip.Cursor.{Cursor}
use s_zip.Entry.{StreamingZipReader, open_reader, read_entry_data, read_entry}
use s_zip.RoundTrip.Opening.{Opens, file_of, end_bytes, read_central_directory_lem}
use s_zip.AsyncSink.{AsyncSink, fresh}
use s_zip.Seekless.{PreparedEntry, SeeklessZipWriter, with_method, prepared_entry}
use s_zip.Seekless.Directory.{IsReadable, seen, directory_bytes, Runs-directory_bytes}
use s_zip.Seekless.Finish.{HasRoom, finished, finish-written}
use s_zip.Seekless.Added.{
  File, part, parts, entry_at, entries_at, Compresses, added, add_all-added, write_archive,
  write_archive-added,
}
use s_zip.Seekless.Extract.{IsFile, file_entry-IsReadable, read_entry_data-file}

module _ (ext : External) (encode_all : ℕ → List ℕ → Option (List ℕ)) (m : CompressionMethod)
    (level capacity : ℕ) (out : List ℕ → List ℕ) where
  abbrev pub start : SeeklessZipWriter
  start = with_method (fresh capacity) m level

  abbrev pub bytes_of : List File → List ℕ
  bytes_of fs = parts ext encode_all (to_zip_method m) out fs

  abbrev pub entries_of : ℕ → List File → List PreparedEntry
  entries_of offset fs = entries_at ext encode_all (to_zip_method m) out offset fs

  abbrev pub archive : List File → List ℕ
  archive fs =
      file_of 45 1 (bytes_of fs) (directory_bytes (entries_of 0 fs)) (length (entries_of 0 fs))

  -- The reader that the archive is opened with.
  abbrev pub reader : List File → StreamingZipReader
  reader fs = record {
    file = record {
      bytes = archive fs;
      pos = length (bytes_of fs) + length (directory_bytes (entries_of 0 fs));
    };
    entries = map seen (entries_of 0 fs);
    password = none;
  }

  -- Each file is read back by its entry, the first of which stands at the offset.
  abbrev pub ReadsBack : StreamingZipReader → ℕ → List File → Type 0
  ReadsBack r offset [] = Unit {0}
  ReadsBack r offset (f ∷ fs) =
      ((r' : StreamingZipReader) × (read_entry ext
            (seen (entry_at ext encode_all (to_zip_method m) out offset f)) r
          ≡ ok (f.bytes, r')))
      × ReadsBack r (offset + length (part ext encode_all (to_zip_method m) out f)) fs

  -- The conditions on the files: each compresses, none starts at exactly `u32::MAX`, the sink has
  -- room, and the directory can be opened.
  pub record CanArchive (fs : List File) : Type 0 where
    pub files : All (IsFile out) fs
    pub compressed : All (Compresses ext encode_all (to_zip_method m) out start) fs
    pub plain : All (λ (e : PreparedEntry). e.local_header_offset ≢ u32_max) (entries_of 0 fs)
    pub fits : length (archive fs) ≤ capacity
    pub opens :
        Opens 45 1 (bytes_of fs) (directory_bytes (entries_of 0 fs)) (length (entries_of 0 fs))

module _ (ext : External) where
  read_entry_ok :
      (e : ZipEntry) (r : StreamingZipReader) {bytes : List ℕ} {file : Cursor}
      → read_entry_data ext r.password e r.file ≡ ok (bytes, file)
      → read_entry ext e r ≡ ok (bytes, record r { file = file })
  unfolding read_entry
  read_entry_ok e r h = rw (h, read_entry)

module _ (ext : External) (encode_all : ℕ → List ℕ → Option (List ℕ))
    (hashing : HasherLaws ext.hasher) (whole : WholeLaws ext encode_all) (m : CompressionMethod)
    (level capacity : ℕ) (out : List ℕ → List ℕ) where
  abbrev front_of : List File → List ℕ
  front_of fs = bytes_of ext encode_all m level capacity out fs

  abbrev es_of : ℕ → List File → List PreparedEntry
  es_of offset fs = entries_of ext encode_all m level capacity out offset fs

  abbrev w0 : SeeklessZipWriter
  w0 = start ext encode_all m level capacity out

  abbrev one_part : File → List ℕ
  one_part f = part ext encode_all (to_zip_method m) out f

  readable :
      (fs : List File) (offset : ℕ)
      → All (IsFile out) fs
      → All (Compresses ext encode_all (to_zip_method m) out w0) fs
      → All (λ (e : PreparedEntry). e.local_header_offset ≢ u32_max) (es_of offset fs)
      → offset + length (front_of fs) < 2 ^ 63
      → All IsReadable (es_of offset fs)
  unfolding entries_at parts prepared_entry
  readable [] offset h c p small = tt
  readable (f ∷ fs) offset (h, hs) (c, cs) (p, ps) small =
      let size = length-append (one_part f) (front_of fs) in
      (
        file_entry-IsReadable ext encode_all hashing whole m level (fresh capacity) out f h c offset
            (omega arith) p,
        readable fs (offset + length (one_part f)) hs cs ps (omega (arith, size)),
      )

  module _ (fs : List File) (h : CanArchive ext encode_all m level capacity out fs) where
    abbrev file : List ℕ
    file = archive ext encode_all m level capacity out fs

    abbrev end : List ℕ
    end =
        end_bytes 45 1 (length (es_of 0 fs)) (length (directory_bytes (es_of 0 fs)))
          (length (front_of fs))

    sizes : length file ≡ length (front_of fs) + length (directory_bytes (es_of 0 fs) ++ end)
    sizes = length-append (front_of fs) (directory_bytes (es_of 0 fs) ++ end)

    abbrev opened : StreamingZipReader
    opened = reader ext encode_all m level capacity out fs

    one_read :
        (g : File) (front rest : List ℕ)
        → IsFile out g
        → Compresses ext encode_all (to_zip_method m) out w0 g
        → front ++ (one_part g ++ rest) ≡ file
        → (r' : StreamingZipReader) × (read_entry ext
              (seen (entry_at ext encode_all (to_zip_method m) out (length front) g))
              opened
            ≡ ok (g.bytes, r'))
    one_read g front rest is_file c at = (
      _,
      read_entry_ok ext _ opened (
          (λ i.
            read_entry_data ext none
              (seen (entry_at ext encode_all (to_zip_method m) out (length front) g))
              (record { bytes = sym at i; pos = opened.file.pos }))
          ∙ read_entry_data-file ext encode_all hashing whole m level (fresh capacity) out g is_file
              c none front rest opened.file.pos (omega (arith, ap length at, h.opens.small))
          ∙ (λ i. ok (g.bytes, record { bytes = at i; pos = length front + length (one_part g) }))),
    )

    -- The files behind `front`, which the archive starts with.
    reads_back :
        (gs : List File) (front rest : List ℕ)
        → All (IsFile out) gs
        → All (Compresses ext encode_all (to_zip_method m) out w0) gs
        → front ++ (front_of gs ++ rest) ≡ file
        → ReadsBack ext encode_all m level capacity out opened (length front) gs
    unfolding parts
    reads_back [] front rest hs cs e = tt
    reads_back (g ∷ gs) front rest (h1, hs) (c, cs) e =
        let at : front ++ (one_part g ++ (front_of gs ++ rest)) ≡ file =
          ap (λ (t : List ℕ). front ++ t) (sym (append_assoc (one_part g) (front_of gs) rest))
          ∙ e in
        (
          one_read g front (front_of gs ++ rest) h1 c at,
          rw (sym (length-append front (one_part g))) (
              reads_back gs (front ++ one_part g) rest hs cs
                (append_assoc front (one_part g) (front_of gs ++ rest) ∙ at)),
        )

    ready : HasRoom w0 (length (front_of fs) + length (directory_bytes (es_of 0 fs) ++ end))
    unfolding with_method
    ready = record {
      is_open = refl;
      in_step = refl;
      fits = omega (arith, sizes, h.fits);
      small = omega (arith, sizes, h.opens.small);
    }

    written :
        write_archive ext encode_all fs w0
        ≡ ok (finished (added ext encode_all (to_zip_method m) out w0 fs))
    unfolding with_method
    written =
        write_archive-added ext encode_all (to_zip_method m) out fs w0 (
          add_all-added ext encode_all (to_zip_method m) out fs w0
            (length (directory_bytes (es_of 0 fs) ++ end)) h.compressed ready)
        ∙ finish-written (added ext encode_all (to_zip_method m) out w0 fs) room
      where
        room :
            HasRoom
              (added ext encode_all (to_zip_method m) out w0 fs)
              (length (directory_bytes (es_of 0 fs) ++ end))
        room = record {
          is_open = refl;
          in_step = omega arith;
          fits = omega (arith, sizes, h.fits);
          small = omega (arith, sizes, h.opens.small);
        }

    opened_lem : open_reader file ≡ ok opened
    unfolding open_reader
    opened_lem = rw (
      read_central_directory_lem 45 1 (front_of fs) (directory_bytes (es_of 0 fs))
          (length (es_of 0 fs)) h.opens
          (Runs-directory_bytes (es_of 0 fs)
            (readable fs 0 h.files h.compressed h.plain (omega (arith, sizes, h.opens.small))))
          0,
      open_reader,
    )

    -- What the seekless writer makes of some files, the readers open and read: where the files
    -- compress, the sink has room, the directory can be opened and no file starts at exactly
    -- `u32::MAX`, all the calls succeed, all that is written is flushed, the reader lists one entry for
    -- each file in their order, and by each entry it gives exactly the bytes of the file.
    pub write_archive-read_entry :
        (sink : AsyncSink) × (write_archive ext encode_all fs w0 ≡ ok sink)
        × (sink.flushed ≡ length sink.sink.written)
        × (open_reader sink.sink.written ≡ ok opened)
        × ReadsBack ext encode_all m level capacity out opened 0 fs
    unfolding with_method
    write_archive-read_entry = (
      finished (added ext encode_all (to_zip_method m) out w0 fs),
      written,
      refl,
      opened_lem,
      reads_back fs [] (directory_bytes (es_of 0 fs) ++ end) h.files h.compressed refl,
    )
