-- ===== src/AsyncWriter/Directory.antt =====
-- The central directory that `finish` of src/async_writer.rs writes, read by src/reader.rs.
use Prim.Native.Nat.{bit_and}
use s_zip.Common.{
  ℕ, ◌/◌, ◌%◌, ◌≤◌, ◌<◌, ◌≡◌, ◌≢◌, refl, sym, ap, ◌∙◌, inl, inr, true, false, ◌||◌, not, ◌==◌, List,
  [], ◌∷◌, ◌++◌, Option, none, some, arith, length, flatten, map, All, Bool-cases, Option-cases,
  u8_mod, u16_mod, u32_mod, u64_mod, u32_max, append-nil, append_assoc, length-append,
  flatten-append, to_le_bytes,
}
use s_zip.Format
use s_zip.Format.{parse_zip64_extra_field}
use s_zip.Format.Zip64.{narrow, zip64_payload, zip64_field, parse_zip64_extra_field_round_trip}
use s_zip.Format.Extra.{Field, Fits, encode_field, encode_fields}
use s_zip.Utf8.{IsUtf8, from_utf8_lossy-IsUtf8}
use s_zip.Cursor.Runs.{Runs, Runs-pure, Runs-bind}
use s_zip.Reader.{resolve_zip64, read_central_entry, read_entries}
use s_zip.Reader.Fields.{Runs-read_u32_le}
use s_zip.Reader.Directory.{
  CentralFields, FieldsFit, central_bytes, entry_of, Runs-read_central_entry,
}
use s_zip.RoundTrip.Placeholder.{
  big, size_or_placeholder-narrow, narrow-lt, stored, placeholder_wide, or_false, or_swap,
  narrow_same,
}
use s_zip.RoundTrip.Entry
use s_zip.RoundTrip.Entry.{needs_zip64, central_zip64_extra_wide, length-central_zip64_extra}
use s_zip.Central
use s_zip.AsyncWriter.Compress.{AsyncExternal}
use s_zip.AsyncWriter.{ZipEntry}
use s_zip.AsyncWriter.Closing.{
  size_or_placeholder, central_flags, central_aes_extra, zip64_data, central_zip64_extra,
  central_extra, central_header, central_headers,
}
use s_zip.AsyncWriter.Sync.{sync_entry}

-- An entry that the reader can get back, encrypted or not: its values fit their fields, and a size or
-- an offset is not exactly `u32::MAX`.
pub record IsReadable (e : ZipEntry) : Type 0 where
  pub utf8 : IsUtf8 e.name
  pub name_fits : length e.name < u16_mod
  pub method_fits : e.compression_method < u16_mod
  pub crc_fits : e.crc32 < u32_mod
  pub compressed_fits : e.compressed_size < u64_mod
  pub uncompressed_fits : e.uncompressed_size < u64_mod
  pub offset_fits : e.local_header_offset < u64_mod
  pub compressed_plain : e.compressed_size ≢ u32_max
  pub uncompressed_plain : e.uncompressed_size ≢ u32_max
  pub offset_plain : e.local_header_offset ≢ u32_max

-- The entry as the reader shows it.
abbrev pub seen : ZipEntry → Format.ZipEntry
seen e = Entry.seen (sync_entry e)

-- The fields in front of the ZIP64 field.
abbrev aes_fields : ZipEntry → List Field
aes_fields e = elim e.encryption_strength [
  | none ↦ []
  | some code ↦
      record {
        id = 0x9901;
        payload = 2 ∷ 0 ∷ 0x41 ∷ 0x45 ∷ (code % u8_mod) ∷ to_le_bytes 2 e.compression_method;
      }
      ∷ []
]

module _ (ext : AsyncExternal) (e : ZipEntry) where
  zip64_same : central_zip64_extra ext e ≡ Central.central_zip64_extra (sync_entry e)
  unfolding central_zip64_extra zip64_data Central.central_zip64_extra Central.zip64_data
  zip64_same = refl

  aes_same : central_aes_extra ext e ≡ encode_fields (aes_fields e)
  unfolding central_aes_extra encode_field encode_fields
  aes_same = elim (Option-cases e.encryption_strength) [ inl n ↦ rw n | inr (code, n) ↦ rw n ]

  extra_split :
      central_extra ext e
      ≡ encode_fields (aes_fields e) ++ Central.central_zip64_extra (sync_entry e)
  unfolding central_extra
  extra_split = λ i. aes_same i ++ zip64_same i

  aes_fit : All Fits (aes_fields e) × All (λ (f : Field). f.id ≢ 0x0001) (aes_fields e)
  aes_fit = elim (Option-cases e.encryption_strength) [
    | inl n ↦ rw n (tt, tt)
    | inr (code, n) ↦ rw n (
      (record { id_fits = omega arith; payload_fits = omega arith }, tt),
      ((λ p. omega arith), tt),
    )
  ]

  length-aes : length (encode_fields (aes_fields e)) ≤ 11
  unfolding encode_field encode_fields
  length-aes = elim (Option-cases e.encryption_strength) [
    | inl n ↦ rw n (omega arith)
    | inr (code, n) ↦ rw n (omega arith)
  ]

  length-central_extra : length (central_extra ext e) < u16_mod
  length-central_extra = rw extra_split (
      omega (
        arith,
        length-append (encode_fields (aes_fields e)) (Central.central_zip64_extra (sync_entry e)),
        length-aes,
        length-central_zip64_extra (sync_entry e),
      ))

  module _ (h : IsReadable e) where
    test :
        (narrow (big e.compressed_size) e.compressed_size == 0xFFFFFFFF
          || narrow (big e.uncompressed_size) e.uncompressed_size == 0xFFFFFFFF
          || narrow (big e.local_header_offset) e.local_header_offset == 0xFFFFFFFF)
        ≡ needs_zip64 (sync_entry e)
    test =
        rw
          (
            placeholder_wide e.compressed_size h.compressed_plain,
            placeholder_wide e.uncompressed_size h.uncompressed_plain,
            placeholder_wide e.local_header_offset h.offset_plain,
          )
          (or_swap (big e.uncompressed_size) (big e.compressed_size) (big e.local_header_offset))

    abbrev field : List ℕ
    field = encode_field (
        zip64_field (
          zip64_payload (big e.uncompressed_size) (big e.compressed_size)
            (big e.local_header_offset) e.uncompressed_size e.compressed_size
            e.local_header_offset))

    wide_extra :
        needs_zip64 (sync_entry e) ≡ true
        → central_extra ext e ≡ encode_fields (aes_fields e) ++ (field ++ [])
    wide_extra b =
        extra_split
        ∙ ap (λ (t : List ℕ). encode_fields (aes_fields e) ++ t)
            (central_zip64_extra_wide (sync_entry e) b ∙ sym (append-nil field))

    values :
        resolve_zip64
          (central_extra ext e)
          (narrow (big e.compressed_size) e.compressed_size)
          (narrow (big e.uncompressed_size) e.uncompressed_size)
          (narrow (big e.local_header_offset) e.local_header_offset)
        ≡ (e.uncompressed_size, e.compressed_size, e.local_header_offset)
    unfolding resolve_zip64
    values = elim (Bool-cases (needs_zip64 (sync_entry e))) [
      | inl b ↦
          rw (test ∙ b, resolve_zip64, wide_extra b)
            (parse_zip64_extra_field_round_trip (aes_fields e) [] (big e.uncompressed_size)
              (big e.compressed_size) (big e.local_header_offset) e.uncompressed_size
              e.compressed_size e.local_header_offset aes_fit.0 aes_fit.1
              (stored e.uncompressed_size h.uncompressed_fits h.uncompressed_plain)
              (stored e.compressed_size h.compressed_fits h.compressed_plain)
              (stored e.local_header_offset h.offset_fits h.offset_plain))
      | inr b ↦
          let (u, c, o) =
            or_false (big e.uncompressed_size) (big e.compressed_size) (big e.local_header_offset)
              b in
          rw (
            test ∙ b,
            resolve_zip64,
            narrow_same e.uncompressed_size u,
            narrow_same e.compressed_size c,
            narrow_same e.local_header_offset o,
          )
    ]

    abbrev pub fields : CentralFields
    fields = record {
      flags = central_flags ext e.encryption_strength;
      method = e.compression_method;
      crc = e.crc32;
      compressed_32 = narrow (big e.compressed_size) e.compressed_size;
      uncompressed_32 = narrow (big e.uncompressed_size) e.uncompressed_size;
      offset_32 = narrow (big e.local_header_offset) e.local_header_offset;
      filename = e.name;
      extra = central_extra ext e;
      comment = [];
      versions = 20 ∷ 0 ∷ 51 ∷ 0 ∷ [];
      times = 0 ∷ 0 ∷ 0 ∷ 0 ∷ [];
      attributes = 0 ∷ 0 ∷ 0 ∷ 0 ∷ 0 ∷ 0 ∷ 0 ∷ 0 ∷ [];
    }

    flags_fit : (s : Option ℕ) → central_flags ext s < u16_mod
    flags_fit none = omega arith
    flags_fit (some code) = omega arith

    fields-FieldsFit : FieldsFit fields
    fields-FieldsFit = record {
      flags_fit = flags_fit e.encryption_strength;
      method_fits = h.method_fits;
      crc_fits = h.crc_fits;
      compressed_fits = narrow-lt e.compressed_size;
      uncompressed_fits = narrow-lt e.uncompressed_size;
      offset_fits = narrow-lt e.local_header_offset;
      filename_fits = h.name_fits;
      extra_fits = length-central_extra;
      comment_fits = omega arith;
      versions_size = refl;
      times_size = refl;
      attributes_size = refl;
    }

    flags_bytes :
        (s : Option ℕ)
        → (central_flags ext s % 256 ≡ central_flags ext s) × (central_flags ext s / 256 % 256 ≡ 0)
    flags_bytes none = (refl, refl)
    flags_bytes (some code) = (refl, refl)

    last_call :
        (extra : List ℕ)
        → flatten (elim extra [ [] ↦ [] | b ∷ bs ↦ (b ∷ bs) ∷ [] ]) ≡ extra ++ ([] ++ [])
    last_call [] = refl
    last_call (b ∷ bs) = refl

    size_same : (v : ℕ) → size_or_placeholder ext v ≡ to_le_bytes 4 (narrow (big v) v)
    unfolding size_or_placeholder Central.size_or_placeholder
    size_same v = size_or_placeholder-narrow v

    -- The bytes of the calls for the entry are the signature and those of its fields.
    flatten-central_header :
        flatten (central_header ext e) ≡ (0x50 ∷ 0x4b ∷ 0x01 ∷ 0x02 ∷ []) ++ central_bytes fields
    unfolding central_header
    flatten-central_header =
        let name_size : length e.name % u16_mod ≡ length e.name = omega (arith, h.name_fits) in
        let extra_size : length (central_extra ext e) % u16_mod ≡ length (central_extra ext e) =
          omega (arith, length-central_extra) in
        let flags = flags_bytes e.encryption_strength in
        rw (
          flags.0,
          flags.1,
          name_size,
          extra_size,
          size_same e.compressed_size,
          size_same e.uncompressed_size,
          size_same e.local_header_offset,
          last_call (central_extra ext e),
        )

    flags_read :
        (s : Option ℕ)
        → not (bit_and (central_flags ext s) 0x01 == 0) ≡ elim s [ none ↦ false | some code ↦ true ]
    flags_read none = refl
    flags_read (some code) = refl

    entry_of_lem : entry_of fields ≡ seen e
    entry_of_lem = rw (values, from_utf8_lossy-IsUtf8 h.utf8, flags_read e.encryption_strength)

    Runs-central_bytes : Runs read_central_entry (central_bytes fields) (seen e)
    Runs-central_bytes = rw (sym entry_of_lem) (Runs-read_central_entry fields fields-FieldsFit)

module _ (ext : AsyncExternal) where
  flatten_headers :
      (e : ZipEntry) (es : List ZipEntry)
      → flatten (central_headers ext (e ∷ es))
        ≡ flatten (central_header ext e) ++ flatten (central_headers ext es)
  unfolding central_headers
  flatten_headers e es = flatten-append (central_header ext e) (central_headers ext es)

  -- The reader takes the bytes of the entries and shows them.
  pub Runs-central_headers :
      (es : List ZipEntry)
      → All IsReadable es
      → Runs (read_entries (length es)) (flatten (central_headers ext es)) (map seen es)
  unfolding read_entries central_headers
  Runs-central_headers [] h = Runs-pure []
  Runs-central_headers (e ∷ es) (h, hs) =
      let rest = flatten (central_headers ext es) in
      let bytes : flatten (central_headers ext (e ∷ es))
          ≡ (0x50 ∷ 0x4b ∷ 0x01 ∷ 0x02 ∷ []) ++ (central_bytes (fields ext e h) ++ (rest ++ [])) =
        flatten_headers e es
        ∙ ap (λ (t : List ℕ). t ++ rest) (flatten-central_header ext e h)
        ∙ append_assoc (0x50 ∷ 0x4b ∷ 0x01 ∷ 0x02 ∷ []) (central_bytes (fields ext e h)) rest
        ∙ ap
            (λ (t : List ℕ).
              (0x50 ∷ 0x4b ∷ 0x01 ∷ 0x02 ∷ []) ++ (central_bytes (fields ext e h) ++ t))
            (sym (append-nil rest)) in
      rw bytes (
        Runs-bind _ _ (Runs-read_u32_le 0x02014b50 (omega arith)) (
          Runs-bind _ _ (Runs-central_bytes ext e h)
            (Runs-bind _ _ (Runs-central_headers es hs) (Runs-pure (map seen (e ∷ es))))))
