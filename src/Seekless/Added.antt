-- ===== src/Seekless/Added.antt =====
-- `add_entry_with_options` of src/seekless.rs on many files, where the sink has room for them.
use s_zip.Common.{
  ℕ, ◌+◌, ◌≡◌, refl, sym, ap, ◌∙◌, List, [], ◌∷◌, ◌++◌, Option, All, arith, length, append-nil,
  append_assoc, length-append,
}
use s_zip.Outcome.{Result, ok, err, panic}
use s_zip.External.{External}
use s_zip.Options.{EntryOptions}
use s_zip.Sink.{◌>>◌, pure, lift, gets}
use s_zip.Sink.Chunks.{bind_ok}
use s_zip.AsyncSink.{AsyncSink}
use s_zip.Seekless.{
  PreparedEntry, SeeklessZipWriter, Writing, compress, local_header, prepared_entry, push_entry,
  add_entry_with_options, finish,
}
use s_zip.Seekless.Finish.{HasRoom, advanced, write_pair_then}

-- What is added at once.
pub record File : Type 0 where
  pub name : List ℕ
  pub bytes : List ℕ
  pub options : EntryOptions

module _ (ext : External) (encode_all : ℕ → List ℕ → Option (List ℕ)) where
  unfoldable pub add_all : List File → Writing (Unit {0})
  add_all [] = pure tt
  add_all (f ∷ fs) = do add_entry_with_options ext encode_all f.name f.bytes f.options; add_all fs

  -- The calls that write a whole archive.
  pub write_archive : List File → SeeklessZipWriter → Result AsyncSink
  unfolding add_all
  write_archive files w =
      let (r, w') = add_all files w in elim r [ ok u ↦ finish w' | err e ↦ err e | panic ↦ panic ]

-- `out` is what the files' bytes are compressed to.
module _ (ext : External) (encode_all : ℕ → List ℕ → Option (List ℕ)) (method : ℕ)
    (out : List ℕ → List ℕ) where
  -- The local header of a file and its data.
  abbrev pub header : File → List ℕ
  header f =
      local_header f.name f.options method (ext.hasher.hash f.bytes) (length f.bytes)
        (length (out f.bytes))

  abbrev pub part : File → List ℕ
  part f = header f ++ out f.bytes

  unfoldable pub parts : List File → List ℕ
  parts [] = []
  parts (f ∷ fs) = part f ++ parts fs

  abbrev pub entry_at : ℕ → File → PreparedEntry
  entry_at offset f =
      prepared_entry f.name f.options method (ext.hasher.hash f.bytes) (length f.bytes)
        (length (out f.bytes)) offset

  -- The entries of the files, the first of which stands at the offset.
  unfoldable pub entries_at : ℕ → List File → List PreparedEntry
  entries_at offset [] = []
  entries_at offset (f ∷ fs) = entry_at offset f ∷ entries_at (offset + length (part f)) fs

  -- The writer when the files are added.
  abbrev pub added : SeeklessZipWriter → List File → SeeklessZipWriter
  added w fs = record (advanced w (parts fs)) { entries = w.entries ++ entries_at w.bytes_out fs }

  -- The writer compresses the bytes of a file to `out` of them.
  abbrev pub Compresses : SeeklessZipWriter → File → Type 0
  Compresses w f =
      (compress ext encode_all w f.bytes ≡ ok (out f.bytes, ext.hasher.hash f.bytes, method))

  pub write_archive-added :
      (fs : List File) (w : SeeklessZipWriter)
      → add_all ext encode_all fs w ≡ (ok tt, added w fs)
      → write_archive ext encode_all fs w ≡ finish (added w fs)
  unfolding write_archive
  write_archive-added fs w e = ap (λ (r : Result (Unit {0}) × SeeklessZipWriter). given r.0 r.1) e
    where
      given : Result (Unit {0}) → SeeklessZipWriter → Result AsyncSink
      given r v = elim r [ ok u ↦ finish v | err e ↦ err e | panic ↦ panic ]

  abbrev added_one : SeeklessZipWriter → File → SeeklessZipWriter
  added_one w f = record (advanced w (part f)) {
    entries = w.entries ++ entry_at w.bytes_out f ∷ [];
  }

  add_one :
      (w : SeeklessZipWriter) (f : File) (n : ℕ)
      → Compresses w f
      → HasRoom w (length (header f) + length (out f.bytes) + n)
      → add_entry_with_options ext encode_all f.name f.bytes f.options w ≡ (ok tt, added_one w f)
  unfolding add_entry_with_options gets lift push_entry
  add_one w f n c h =
      bind_ok _ _ {s = w} {s' = w} {a = w} refl
      ∙ bind_ok _ _ {s = w} {s' = w} (λ i. (c i, w))
      ∙ write_pair_then w (header f) (out f.bytes) n (push_entry (entry_at w.bytes_out f)) h

  added_step :
      (w : SeeklessZipWriter) (f : File) (fs : List File)
      → added (added_one w f) fs ≡ added w (f ∷ fs)
  unfolding parts entries_at
  added_step w f fs = λ i. record w {
    output = record w.output {
      sink = record w.output.sink {
        written = append_assoc w.output.sink.written (part f) (parts fs) i;
      };
    };
    bytes_out = count i;
    entries =
        append_assoc w.entries (entry_at w.bytes_out f ∷ [])
          (entries_at (w.bytes_out + length (part f)) fs) i;
  }
    where
      count :
          w.bytes_out + length (part f) + length (parts fs)
          ≡ w.bytes_out + length (part f ++ parts fs)
      count = omega (arith, length-append (part f) (parts fs))

  -- Each file is written behind what is there, and its entry has the offset of its header.
  pub add_all-added :
      (fs : List File) (w : SeeklessZipWriter) (n : ℕ)
      → All (Compresses w) fs
      → HasRoom w (length (parts fs) + n)
      → add_all ext encode_all fs w ≡ (ok tt, added w fs)
  unfolding add_all parts entries_at pure compress
  add_all-added [] w n c h = λ i. (
    ok tt,
    record w {
      output = record w.output {
        sink = record w.output.sink { written = sym (append-nil w.output.sink.written) i };
      };
      bytes_out = sym zero_more i;
      entries = sym (append-nil w.entries) i;
    },
  )
    where
      zero_more : w.bytes_out + 0 ≡ w.bytes_out
      zero_more = omega arith
  add_all-added (f ∷ fs) w n (c, cs) h =
      let one = length-append (header f) (out f.bytes) in
      let two = length-append (part f) (parts fs) in
      bind_ok _ _ (
        add_one w f (length (parts fs) + n) c (record {
          is_open = h.is_open;
          in_step = h.in_step;
          fits = omega (arith, one, two, h.fits);
          small = omega (arith, one, two, h.small);
        }))
      ∙ add_all-added fs (added_one w f) n cs (record {
        is_open = h.is_open;
        in_step = omega (arith, h.in_step, length-append w.output.sink.written (part f));
        fits = omega (arith, two, h.fits, length-append w.output.sink.written (part f));
        small = omega (arith, two, h.small, length-append w.output.sink.written (part f));
      })
      ∙ ap (λ v. (ok tt, v)) (added_step w f fs)
