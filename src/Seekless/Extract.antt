-- ===== src/Seekless/Extract.antt =====
-- A file that `add_entry_with_options` of src/seekless.rs has written, read back by `read_entry` of
-- src/reader.rs, whatever stands before and behind it.
use s_zip.Common.{
  ℕ, min, u32_max, ◌≢◌, ◌+◌, ◌%◌, ◌^◌, ◌≤◌, ◌<◌, ◌≡◌, refl, sym, ◌∙◌, inl, inr, true, false, Bool,
  if◌then◌else◌, List, [], ◌++◌, Option, none, arith, length, u16_mod, Bool-cases, Option-cases,
  append-nil, length-append, drop_append, to_le_bytes,
}
use s_zip.Outcome.{ok, ok_inj}
use s_zip.External.{External, HasherLaws, WholeLaws}
use s_zip.Format.{max_entry_alloc}
use s_zip.Options.{EntryOptions, msdos_datetime, unix_extra_field}
use s_zip.Compress.{CompressionMethod, stored, deflate, zstd, to_zip_method}
use s_zip.Cursor.Runs.{Runs, Runs-bind, bind_ok}
use s_zip.Reader.EndRecord.{seek_start_small}
use s_zip.Entry.{decompress, read_entry_data, read_local_header}
use s_zip.Entry.LocalHeader.{LocalFields, local_bytes, Runs-local_bytes}
use s_zip.RoundTrip.Payload.{Runs-read_payload_plain}
use s_zip.RoundTrip.Extract.{to_zip_method-lt}
use s_zip.Seekless.{
  large, sizes, version_needed, build_zip64_extra, local_extra, local_header, compress,
  prepared_entry, with_method, PreparedEntry,
}
use s_zip.AsyncSink.{AsyncSink}
use s_zip.Utf8.{IsUtf8}
use s_zip.Seekless.Directory.{seen, IsReadable}
use s_zip.Seekless.Added.{File, header, part, entry_at, Compresses}

length-unix_extra_field : (options : EntryOptions) → length (unix_extra_field options) ≤ 15
unfolding unix_extra_field
length-unix_extra_field options = elim (Option-cases options.unix_mode) [
  | inl e ↦ rw (e, unix_extra_field) (omega arith)
  | inr (mode, e) ↦ rw (e, unix_extra_field) (omega arith)
]

length-unix_if :
    (b : Bool) (options : EntryOptions) → length (if b then unix_extra_field options else []) ≤ 15
length-unix_if true options = length-unix_extra_field options
length-unix_if false options = omega arith

length-local_extra : (options : EntryOptions) (u c : ℕ) → length (local_extra options u c) < u16_mod
unfolding local_extra build_zip64_extra
length-local_extra options u c = elim (Bool-cases (large u c)) [
  | inl e ↦ rw e (omega arith)
  | inr e ↦ rw e (omega (arith, length-unix_extra_field options))
]

length-sizes : (b : Bool) (c u : ℕ) → length (sizes b c u) ≡ 8
length-sizes true c u = refl
length-sizes false c u = refl

module _ (name : List ℕ) (options : EntryOptions) (method crc u c : ℕ)
    (name_fits : length name < u16_mod) (method_fits : method < u16_mod) where
  abbrev fields : LocalFields
  fields = record {
    version = to_le_bytes 2 (version_needed (large u c));
    flags = 0;
    method = method;
    times_crc =
        to_le_bytes 2 (msdos_datetime options).0
        ++ (to_le_bytes 2 (msdos_datetime options).1 ++ to_le_bytes 4 crc);
    sizes = sizes (large u c) c u;
    filename = name;
    extra = local_extra options u c;
  }

  local_header_lem : local_header name options method crc u c ≡ local_bytes fields
  unfolding local_header
  local_header_lem =
      let name_size : length name % u16_mod ≡ length name = omega (arith, name_fits) in
      let extra_size : length (local_extra options u c) % u16_mod
          ≡ length (local_extra options u c) =
        omega (arith, length-local_extra options u c) in
      rw (name_size, extra_size, append-nil (local_extra options u c))

  -- The reader passes over the local header.
  pub Runs-local_header : Runs read_local_header (local_header name options method crc u c) none
  Runs-local_header = rw local_header_lem (
      Runs-local_bytes fields (record {
        version_size = refl;
        flags_fit = omega arith;
        not_encrypted = refl;
        method_fits = method_fits;
        times_crc_size = refl;
        sizes_size = length-sizes (large u c) c u;
        filename_fits = name_fits;
        extra_fits = length-local_extra options u c;
      }))

module _ (ext : External) (encode_all : ℕ → List ℕ → Option (List ℕ))
    (whole : WholeLaws ext encode_all) where
  -- What the writer compresses decompresses to the bytes.
  pub decompress-compress :
      (m : CompressionMethod) (level : ℕ) (sink : AsyncSink) (bytes out : List ℕ) (crc : ℕ)
      → compress ext encode_all (with_method sink m level) bytes ≡ ok (out, crc, to_zip_method m)
      → decompress ext (to_zip_method m) out ≡ ok bytes
  unfolding compress decompress to_zip_method with_method
  decompress-compress stored level sink bytes out crc e = λ i. ok ((ok_inj (sym e) i).0)
  decompress-compress deflate level sink bytes out crc e =
      (λ i. ext.inflate ((ok_inj (sym e) i).0)) ∙ whole.inflate-whole (min level 9) bytes
  decompress-compress zstd level sink bytes out crc e =
      elim (Option-cases (encode_all level bytes)) [
        | inl r ↦ absurd (cc (rw (r, compress) at e))
        | inr (c, r) ↦
            (λ i. ext.unzstd ((ok_inj (sym (rw (r, compress) at e)) i).0))
            ∙ whole.unzstd-all level bytes c r
      ]

-- What a file has to be: its name is a `str` of less than 64 KiB, it fits the memory, and its data is not
-- too large to be read at once.
pub record IsFile (out : List ℕ → List ℕ) (f : File) : Type 0 where
  pub utf8 : IsUtf8 f.name
  pub name_fits : length f.name < u16_mod
  pub in_memory : length f.bytes < 2 ^ 63
  pub not_large : length (out f.bytes) ≤ max_entry_alloc

module _ (ext : External) (encode_all : ℕ → List ℕ → Option (List ℕ))
    (hashing : HasherLaws ext.hasher) (whole : WholeLaws ext encode_all) (m : CompressionMethod)
    (level : ℕ) (sink : AsyncSink) (out : List ℕ → List ℕ) (f : File) (h : IsFile out f)
    (compressed : Compresses ext encode_all
      (to_zip_method m)
      out
      (with_method sink m level)
      f) where
  abbrev pub file_part : List ℕ
  file_part = part ext encode_all (to_zip_method m) out f

  abbrev pub file_header : List ℕ
  file_header = header ext encode_all (to_zip_method m) out f

  abbrev pub file_entry : ℕ → PreparedEntry
  file_entry offset = entry_at ext encode_all (to_zip_method m) out offset f

  pub file_entry-IsReadable :
      (offset : ℕ) → offset < 2 ^ 63 → offset ≢ u32_max → IsReadable (file_entry offset)
  unfolding prepared_entry
  file_entry-IsReadable offset fits plain = record {
    utf8 = h.utf8;
    name_fits = h.name_fits;
    method_fits = to_zip_method-lt m;
    crc_fits = hashing.hash_fits f.bytes;
    compressed_fits = omega (arith, h.not_large);
    uncompressed_fits = omega (arith, h.in_memory);
    offset_fits = omega arith;
    offset_plain = plain;
    unix_fits = length-unix_if (large (length f.bytes) (length (out f.bytes))) f.options;
    unix_narrow = λ e. rw e;
  }

  -- The reader gives exactly the bytes of the file.
  pub read_entry_data-file :
      (password : Option (List ℕ)) (front rest : List ℕ) (p : ℕ)
      → length (front ++ (file_part ++ rest)) < 2 ^ 63
      → read_entry_data ext password
          (seen (file_entry (length front)))
          (record { bytes = front ++ (file_part ++ rest); pos = p })
        ≡ ok (
          f.bytes,
          record { bytes = front ++ (file_part ++ rest); pos = length front + length file_part },
        )
  unfolding read_entry_data prepared_entry
  read_entry_data-file password front rest p small =
      let size = length-append front (file_part ++ rest) in
      bind_ok _ _ (seek_start_small (length front) _ (omega (arith, size)))
      ∙ (Runs-bind _ _
            (Runs-local_header f.name f.options (to_zip_method m) (ext.hasher.hash f.bytes)
              (length f.bytes) (length (out f.bytes)) h.name_fits (to_zip_method-lt m))
            (Runs-read_payload_plain ext password (seen (file_entry (length front))) f.bytes
              (out f.bytes) refl h.not_large
              (decompress-compress ext encode_all whole m level sink f.bytes (out f.bytes)
                (ext.hasher.hash f.bytes) compressed)
              refl)).at
          _ rest
          (record {
            here = drop_append (length front) front (file_part ++ rest) refl;
            inside = omega (arith, size);
            small = small;
          })
