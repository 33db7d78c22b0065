-- ===== src/Seekless/Directory.antt =====
-- The central directory that `finish` of src/seekless.rs writes, read by src/reader.rs.
use s_zip.Common.{
  ℕ, ◌%◌, ◌≤◌, ◌<◌, ◌≡◌, ◌≢◌, refl, sym, ap, ◌∙◌, inl, inr, true, false, ◌||◌, ◌==◌, List, [], ◌∷◌,
  ◌++◌, arith, length, map, All, Bool-cases, u16_mod, u32_mod, u64_mod, u32_max, append-nil,
  append_assoc, to_le_bytes,
}
use s_zip.Format
use s_zip.Format.{parse_zip64_extra_field}
use s_zip.Format.Zip64.{
  narrow, Stored, zip64_payload, zip64_field, parse_zip64_extra_field_round_trip,
  parse_zip64_extra_field-nil,
}
use s_zip.Format.Extra.{encode_field, encode_fields}
use s_zip.Utf8.{IsUtf8, from_utf8_lossy-IsUtf8}
use s_zip.Cursor.Runs.{Runs, Runs-pure, Runs-bind}
use s_zip.Reader.{resolve_zip64, read_central_entry, read_entries}
use s_zip.Reader.Fields.{Runs-read_u32_le}
use s_zip.Reader.Directory.{
  CentralFields, FieldsFit, central_bytes, entry_of, Runs-read_central_entry,
}
use s_zip.RoundTrip.Placeholder.{big, narrow-lt, or_false, stored}
use s_zip.Seekless.{
  PreparedEntry, build_zip64_extra, build_zip64_extra_with_offset, large, sizes, central_large,
  version_needed, central_extra, local_offset, central_header,
}

-- An entry that the reader can get back.
pub record IsReadable (e : PreparedEntry) : Type 0 where
  pub utf8 : IsUtf8 e.name
  pub name_fits : length e.name < u16_mod
  pub method_fits : e.compression_method < u16_mod
  pub crc_fits : e.crc32 < u32_mod
  pub compressed_fits : e.compressed_size < u64_mod
  pub uncompressed_fits : e.uncompressed_size < u64_mod
  pub offset_fits : e.local_header_offset < u64_mod
  pub offset_plain : e.local_header_offset ≢ u32_max
  pub unix_fits : length e.unix_extra ≤ 15
  pub unix_narrow : large e.uncompressed_size e.compressed_size ≡ false → e.unix_extra ≡ []

-- The entry as the reader shows it.
abbrev pub seen : PreparedEntry → Format.ZipEntry
seen e = record {
  name = e.name;
  compressed_size = e.compressed_size;
  uncompressed_size = e.uncompressed_size;
  compression_method = e.compression_method;
  offset = e.local_header_offset;
  crc32 = e.crc32;
  is_encrypted = false;
}

-- All the bytes of the entries.
unfoldable pub directory_bytes : List PreparedEntry → List ℕ
directory_bytes [] = []
directory_bytes (e ∷ es) = central_header e ++ directory_bytes es

resolve_nil : (c u o : ℕ) → resolve_zip64 [] c u o ≡ (u, c, o)
unfolding resolve_zip64
resolve_nil c u o = elim (Bool-cases (c == 0xFFFFFFFF || u == 0xFFFFFFFF || o == 0xFFFFFFFF)) [
  | inl b ↦ rw (b, resolve_zip64) (parse_zip64_extra_field-nil c u o)
  | inr b ↦ rw (b, resolve_zip64)
]

below : (v : ℕ) → big v ≡ false → v < u32_mod
below v e = ground arith

same_32 : (v : ℕ) → big v ≡ false → v % u32_mod ≡ v
same_32 v e = ground arith

always : (v : ℕ) → v < u64_mod → Stored true v
always v h = record { fits = h; plain = λ e. cc }

length-central_extra :
    (e : PreparedEntry) → length e.unix_extra ≤ 15 → length (central_extra e) ≤ 43
unfolding central_extra build_zip64_extra build_zip64_extra_with_offset
length-central_extra e h = elim (Bool-cases (central_large e)) [
  | inl b ↦ elim (Bool-cases (big e.local_header_offset)) [
    | inl w ↦ rw (b, w) (omega arith)
    | inr w ↦ rw (b, w) (omega arith)
  ]
  | inr b ↦ rw b (omega arith)
]

local_offset-narrow : (o : ℕ) → local_offset o ≡ narrow (big o) o
unfolding local_offset
local_offset-narrow o = elim (Bool-cases (big o)) [ inl e ↦ rw e | inr e ↦ rw e (ground arith) ]

module _ (e : PreparedEntry) (h : IsReadable e) where
  -- The ZIP64 field, where there is one.
  wide_extra :
      central_large e ≡ true
      → central_extra e
        ≡ encode_field (
            zip64_field (
              zip64_payload true true
                (big e.local_header_offset)
                e.uncompressed_size
                e.compressed_size
                e.local_header_offset))
          ++ e.unix_extra
  unfolding central_extra build_zip64_extra build_zip64_extra_with_offset encode_field
  wide_extra b = elim (Bool-cases (big e.local_header_offset)) [
    | inl w ↦ rw (b, w)
    | inr w ↦ rw (b, w)
  ]

  narrow_unix : central_large e ≡ false → central_extra e ≡ []
  unfolding central_extra
  narrow_unix b =
      let (u, c, o) =
        or_false (big e.uncompressed_size) (big e.compressed_size) (big e.local_header_offset) b in
      rw b (h.unix_narrow (rw (u, c)))

  values :
      resolve_zip64
        (central_extra e)
        (narrow (central_large e) e.compressed_size)
        (narrow (central_large e) e.uncompressed_size)
        (narrow (big e.local_header_offset) e.local_header_offset)
      ≡ (e.uncompressed_size, e.compressed_size, e.local_header_offset)
  unfolding resolve_zip64 encode_fields
  values = elim (Bool-cases (central_large e)) [
    | inl b ↦
        rw (b, wide_extra b)
          (parse_zip64_extra_field_round_trip [] e.unix_extra true true (big e.local_header_offset)
            e.uncompressed_size e.compressed_size e.local_header_offset tt tt
            (always e.uncompressed_size h.uncompressed_fits)
            (always e.compressed_size h.compressed_fits)
            (stored e.local_header_offset h.offset_fits h.offset_plain))
    | inr b ↦
        let (u, c, o) =
          or_false (big e.uncompressed_size) (big e.compressed_size) (big e.local_header_offset)
            b in
        rw (b, narrow_unix b, o)
          (resolve_nil e.compressed_size e.uncompressed_size e.local_header_offset)
  ]

  abbrev pub fields : CentralFields
  fields = record {
    flags = 0;
    method = e.compression_method;
    crc = e.crc32;
    compressed_32 = narrow (central_large e) e.compressed_size;
    uncompressed_32 = narrow (central_large e) e.uncompressed_size;
    offset_32 = narrow (big e.local_header_offset) e.local_header_offset;
    filename = e.name;
    extra = central_extra e;
    comment = [];
    versions =
        to_le_bytes 2 (version_needed (central_large e))
        ++ to_le_bytes 2 (version_needed (central_large e));
    times = to_le_bytes 2 e.dos_time ++ to_le_bytes 2 e.dos_date;
    attributes = 0 ∷ 0 ∷ 0 ∷ 0 ∷ to_le_bytes 4 e.external_attrs;
  }

  narrow_sizes :
      central_large e ≡ false → (big e.uncompressed_size ≡ false) × (big e.compressed_size ≡ false)
  narrow_sizes b =
      let (u, c, o) =
        or_false (big e.uncompressed_size) (big e.compressed_size) (big e.local_header_offset) b in
      (u, c)

  narrow_fits :
      (v : ℕ) → (central_large e ≡ false → v < u32_mod) → narrow (central_large e) v < u32_mod
  narrow_fits v p = elim (Bool-cases (central_large e)) [
    | inl b ↦ rw b (omega arith)
    | inr b ↦ rw b (p b)
  ]

  fields-FieldsFit : FieldsFit fields
  fields-FieldsFit = record {
    flags_fit = omega arith;
    method_fits = h.method_fits;
    crc_fits = h.crc_fits;
    compressed_fits =
        narrow_fits e.compressed_size (λ b. below e.compressed_size (narrow_sizes b).1);
    uncompressed_fits =
        narrow_fits e.uncompressed_size (λ b. below e.uncompressed_size (narrow_sizes b).0);
    offset_fits = narrow-lt e.local_header_offset;
    filename_fits = h.name_fits;
    extra_fits = omega (arith, length-central_extra e h.unix_fits);
    comment_fits = omega arith;
    versions_size = refl;
    times_size = refl;
    attributes_size = refl;
  }

  sizes_lem :
      sizes (central_large e) e.compressed_size e.uncompressed_size
      ≡ to_le_bytes 4 (narrow (central_large e) e.compressed_size)
        ++ to_le_bytes 4 (narrow (central_large e) e.uncompressed_size)
  sizes_lem = elim (Bool-cases (central_large e)) [
    | inl b ↦ rw b
    | inr b ↦ rw (
      b,
      same_32 e.compressed_size (narrow_sizes b).1,
      same_32 e.uncompressed_size (narrow_sizes b).0,
    )
  ]

  central_header_lem : central_header e ≡ (0x50 ∷ 0x4b ∷ 0x01 ∷ 0x02 ∷ []) ++ central_bytes fields
  unfolding central_header
  central_header_lem =
      let name_size : length e.name % u16_mod ≡ length e.name = omega (arith, h.name_fits) in
      let extra_size : length (central_extra e) % u16_mod ≡ length (central_extra e) =
        omega (arith, length-central_extra e h.unix_fits) in
      rw (
        name_size,
        extra_size,
        sizes_lem,
        local_offset-narrow e.local_header_offset,
        append-nil (central_extra e),
      )

  entry_of_lem : entry_of fields ≡ seen e
  entry_of_lem = rw (values, from_utf8_lossy-IsUtf8 h.utf8)

  -- The reader takes the bytes behind the signature and shows the entry.
  pub Runs-central_bytes : Runs read_central_entry (central_bytes fields) (seen e)
  Runs-central_bytes = rw (sym entry_of_lem) (Runs-read_central_entry fields fields-FieldsFit)

-- The reader takes the bytes of the entries and shows them.
pub Runs-directory_bytes :
    (es : List PreparedEntry)
    → All IsReadable es
    → Runs (read_entries (length es)) (directory_bytes es) (map seen es)
unfolding read_entries directory_bytes
Runs-directory_bytes [] h = Runs-pure []
Runs-directory_bytes (e ∷ es) (h, hs) =
    let bytes : central_header e ++ directory_bytes es
        ≡ (0x50 ∷ 0x4b ∷ 0x01 ∷ 0x02 ∷ [])
          ++ (central_bytes (fields e h) ++ (directory_bytes es ++ [])) =
      ap (λ (t : List ℕ). t ++ directory_bytes es) (central_header_lem e h)
      ∙ append_assoc (0x50 ∷ 0x4b ∷ 0x01 ∷ 0x02 ∷ []) (central_bytes (fields e h))
          (directory_bytes es)
      ∙ ap (λ (t : List ℕ). (0x50 ∷ 0x4b ∷ 0x01 ∷ 0x02 ∷ []) ++ (central_bytes (fields e h) ++ t))
          (sym (append-nil (directory_bytes es))) in
    rw bytes (
      Runs-bind _ _ (Runs-read_u32_le 0x02014b50 (omega arith)) (
        Runs-bind _ _ (Runs-central_bytes e h)
          (Runs-bind _ _ (Runs-directory_bytes es hs) (Runs-pure (map seen (e ∷ es))))))
