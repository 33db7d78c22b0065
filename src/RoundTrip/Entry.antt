-- ===== src/RoundTrip/Entry.antt =====
-- One entry of the central directory: `finish` of src/writer.rs against `read_central_entry` of
-- src/reader.rs.
use Prim.Native.Nat.{bit_and}
use s_zip.Common.{
  ℕ, ◌/◌, ◌%◌, ◌≤◌, ◌<◌, ◌≡◌, ◌≢◌, refl, sym, ap, ◌∙◌, ◌⊎◌, inl, inr, Bool, true, false, ◌||◌, not,
  List, [], ◌∷◌, ◌++◌, Option, none, some, arith, ◌==◌, length, flatten, Bool-cases, Option-cases,
  ltb-false, u16_mod, u32_mod, u64_mod, u32_max, append-nil, length-append, ltb-false,
}
use s_zip.Format
use s_zip.Format.{parse_zip64_extra_field}
use s_zip.Format.Zip64.{narrow, zip64_payload, zip64_field, parse_zip64_extra_field_round_trip}
use s_zip.Format.Extra.{encode_field, encode_fields}
use s_zip.Utf8.{IsUtf8, from_utf8_lossy-IsUtf8}
use s_zip.Cursor.Runs.{Runs}
use s_zip.Reader.{resolve_zip64, read_central_entry}
use s_zip.Reader.Directory.{
  CentralFields, FieldsFit, central_bytes, entry_of, Runs-read_central_entry,
}
use s_zip.RoundTrip.Placeholder.{
  big, size_or_placeholder-narrow, narrow-lt, if_wide_lem, stored, placeholder_wide, or_false,
  or_swap, narrow_same,
}
use s_zip.Central.{
  ZipEntry, central_flags, central_aes_extra, if_wide, zip64_data, central_zip64_extra,
  central_extra, central_header,
}

-- An entry that the reader can get back: its values fit their fields, a size or an offset is not
-- exactly `u32::MAX`, and an encrypted entry needs no ZIP64 field.
pub record IsReadable (e : ZipEntry) : Type 0 where
  pub utf8 : IsUtf8 e.name
  pub name_fits : length e.name < u16_mod
  pub method_fits : e.compression_method < u16_mod
  pub crc_fits : e.crc32 < u32_mod
  pub compressed_fits : e.compressed_size < u64_mod
  pub uncompressed_fits : e.uncompressed_size < u64_mod
  pub offset_fits : e.local_header_offset < u64_mod
  pub compressed_plain : e.compressed_size ≢ u32_max
  pub uncompressed_plain : e.uncompressed_size ≢ u32_max
  pub offset_plain : e.local_header_offset ≢ u32_max
  pub encrypted_narrow :
      (e.encryption_strength ≡ none)
      ⊎ (e.compressed_size < u32_max)
        × (e.uncompressed_size < u32_max)
        × (e.local_header_offset < u32_max)

-- The entry as the reader shows it.
abbrev pub seen : ZipEntry → Format.ZipEntry
seen e = record {
  name = e.name;
  compressed_size = e.compressed_size;
  uncompressed_size = e.uncompressed_size;
  compression_method = e.compression_method;
  offset = e.local_header_offset;
  crc32 = e.crc32;
  is_encrypted = elim e.encryption_strength [ none ↦ false | some code ↦ true ];
}

length-if_wide : (v : ℕ) → length (if_wide v) ≤ 8
length-if_wide v = elim (Bool-cases (big v)) [
  | inl e ↦ rw e (omega arith)
  | inr e ↦ rw e (omega arith)
]

length-zip64_data : (e : ZipEntry) → length (zip64_data e) ≤ 24
unfolding zip64_data
length-zip64_data e = omega (
  arith,
  length-append (if_wide e.uncompressed_size)
      (if_wide e.compressed_size ++ if_wide e.local_header_offset),
  length-append (if_wide e.compressed_size) (if_wide e.local_header_offset),
  length-if_wide e.uncompressed_size,
  length-if_wide e.compressed_size,
  length-if_wide e.local_header_offset,
)

-- Whether the entry needs a ZIP64 field.
abbrev pub needs_zip64 : ZipEntry → Bool
needs_zip64 e = big e.uncompressed_size || big e.compressed_size || big e.local_header_offset

pub length-central_zip64_extra : (e : ZipEntry) → length (central_zip64_extra e) ≤ 28
unfolding central_zip64_extra
length-central_zip64_extra e = elim (Bool-cases (needs_zip64 e)) [
  | inl b ↦ rw (b, central_zip64_extra) (omega (arith, length-zip64_data e))
  | inr b ↦ rw (b, central_zip64_extra) (omega arith)
]

length-central_aes_extra : (e : ZipEntry) → length (central_aes_extra e) ≤ 12
unfolding central_aes_extra
length-central_aes_extra e = elim (Option-cases e.encryption_strength) [
  | inl b ↦ rw (b, central_aes_extra) (omega arith)
  | inr (code, b) ↦ rw (b, central_aes_extra) (omega arith)
]

central_extra_split :
    (e : ZipEntry) → central_extra e ≡ central_aes_extra e ++ central_zip64_extra e
unfolding central_extra
central_extra_split e = refl

length-central_extra : (e : ZipEntry) → length (central_extra e) < u16_mod
length-central_extra e = rw central_extra_split (
    omega (
      arith,
      length-append (central_aes_extra e) (central_zip64_extra e),
      length-central_aes_extra e,
      length-central_zip64_extra e,
    ))

flags_byte :
    (s : Option ℕ)
    → (central_flags s % 256 ≡ central_flags s)
      × (central_flags s / 256 % 256 ≡ 0)
      × (central_flags s < u16_mod)
unfolding central_flags
flags_byte none = (refl, refl, omega arith)
flags_byte (some code) = (refl, refl, omega arith)

zip64_data_lem :
    (e : ZipEntry)
    → zip64_data e
      ≡ zip64_payload
          (big e.uncompressed_size)
          (big e.compressed_size)
          (big e.local_header_offset)
          e.uncompressed_size
          e.compressed_size
          e.local_header_offset
unfolding zip64_data
zip64_data_lem e = rw (
  if_wide_lem e.uncompressed_size,
  if_wide_lem e.compressed_size,
  if_wide_lem e.local_header_offset,
)

-- The ZIP64 field of an entry that needs one.
pub central_zip64_extra_wide :
    (e : ZipEntry)
    → needs_zip64 e ≡ true
    → central_zip64_extra e
      ≡ encode_field (
          zip64_field (
            zip64_payload
              (big e.uncompressed_size)
              (big e.compressed_size)
              (big e.local_header_offset)
              e.uncompressed_size
              e.compressed_size
              e.local_header_offset))
unfolding central_zip64_extra encode_field
central_zip64_extra_wide e b =
    let size : length (zip64_data e) % u16_mod ≡ length (zip64_data e) =
      omega (arith, length-zip64_data e) in
    rw (b, central_zip64_extra, size, zip64_data_lem e)

module _ {A : Type 0} where
  absurd_wide :
      (e : ZipEntry)
      → (e.compressed_size < u32_max)
        × (e.uncompressed_size < u32_max)
        × (e.local_header_offset < u32_max)
      → needs_zip64 e ≡ true
      → A
  absurd_wide e (c, u, o) b =
      let small : needs_zip64 e ≡ false = rw (
        ltb-false u32_max e.uncompressed_size (omega arith),
        ltb-false u32_max e.compressed_size (omega arith),
        ltb-false u32_max e.local_header_offset (omega arith),
      ) in
      ground arith

-- An entry that needs a ZIP64 field has no AES field.
plain_extra :
    (e : ZipEntry) → IsReadable e → needs_zip64 e ≡ true → central_extra e ≡ central_zip64_extra e
unfolding central_aes_extra
plain_extra e h b = elim h.encrypted_narrow [
  | inl none_eq ↦ central_extra_split e ∙ rw (none_eq, central_aes_extra)
  | inr (c, u, o) ↦ absurd_wide e (c, u, o) b
]

module _ (e : ZipEntry) (h : IsReadable e) where
  test :
      (narrow (big e.compressed_size) e.compressed_size == 0xFFFFFFFF
        || narrow (big e.uncompressed_size) e.uncompressed_size == 0xFFFFFFFF
        || narrow (big e.local_header_offset) e.local_header_offset == 0xFFFFFFFF)
      ≡ needs_zip64 e
  test =
      rw
        (
          placeholder_wide e.compressed_size h.compressed_plain,
          placeholder_wide e.uncompressed_size h.uncompressed_plain,
          placeholder_wide e.local_header_offset h.offset_plain,
        )
        (or_swap (big e.uncompressed_size) (big e.compressed_size) (big e.local_header_offset))

  values :
      resolve_zip64
        (central_extra e)
        (narrow (big e.compressed_size) e.compressed_size)
        (narrow (big e.uncompressed_size) e.uncompressed_size)
        (narrow (big e.local_header_offset) e.local_header_offset)
      ≡ (e.uncompressed_size, e.compressed_size, e.local_header_offset)
  unfolding resolve_zip64 encode_fields
  values = elim (Bool-cases (needs_zip64 e)) [
    | inl b ↦
        rw (test ∙ b, resolve_zip64, plain_extra e h b, central_zip64_extra_wide e b)
          (ap
              (λ (t : List ℕ).
                parse_zip64_extra_field t (narrow (big e.compressed_size) e.compressed_size)
                  (narrow (big e.uncompressed_size) e.uncompressed_size)
                  (narrow (big e.local_header_offset) e.local_header_offset))
              (sym (append-nil _))
            ∙ parse_zip64_extra_field_round_trip [] [] (big e.uncompressed_size)
                (big e.compressed_size) (big e.local_header_offset) e.uncompressed_size
                e.compressed_size e.local_header_offset tt tt
                (stored e.uncompressed_size h.uncompressed_fits h.uncompressed_plain)
                (stored e.compressed_size h.compressed_fits h.compressed_plain)
                (stored e.local_header_offset h.offset_fits h.offset_plain))
    | inr b ↦
        let (u, c, o) =
          or_false (big e.uncompressed_size) (big e.compressed_size) (big e.local_header_offset)
            b in
        rw (
          test ∙ b,
          resolve_zip64,
          narrow_same e.uncompressed_size u,
          narrow_same e.compressed_size c,
          narrow_same e.local_header_offset o,
        )
  ]

  abbrev pub fields : CentralFields
  fields = record {
    flags = central_flags e.encryption_strength;
    method = e.compression_method;
    crc = e.crc32;
    compressed_32 = narrow (big e.compressed_size) e.compressed_size;
    uncompressed_32 = narrow (big e.uncompressed_size) e.uncompressed_size;
    offset_32 = narrow (big e.local_header_offset) e.local_header_offset;
    filename = e.name;
    extra = central_extra e;
    comment = [];
    versions = 20 ∷ 0 ∷ 20 ∷ 0 ∷ [];
    times = 0 ∷ 0 ∷ 0 ∷ 0 ∷ [];
    attributes = 0 ∷ 0 ∷ 0 ∷ 0 ∷ 0 ∷ 0 ∷ 0 ∷ 0 ∷ [];
  }

  pub fields-FieldsFit : FieldsFit fields
  fields-FieldsFit = record {
    flags_fit = (flags_byte e.encryption_strength).2;
    method_fits = h.method_fits;
    crc_fits = h.crc_fits;
    compressed_fits = narrow-lt e.compressed_size;
    uncompressed_fits = narrow-lt e.uncompressed_size;
    offset_fits = narrow-lt e.local_header_offset;
    filename_fits = h.name_fits;
    extra_fits = length-central_extra e;
    comment_fits = omega arith;
    versions_size = refl;
    times_size = refl;
    attributes_size = refl;
  }

  -- The bytes of the calls for the entry are the signature and those of its fields.
  pub flatten-central_header :
      flatten (central_header e) ≡ (0x50 ∷ 0x4b ∷ 0x01 ∷ 0x02 ∷ []) ++ central_bytes fields
  unfolding central_header
  flatten-central_header =
      let name_size : length e.name % u16_mod ≡ length e.name = omega (arith, h.name_fits) in
      let extra_size : length (central_extra e) % u16_mod ≡ length (central_extra e) =
        omega (arith, length-central_extra e) in
      let flags = flags_byte e.encryption_strength in
      rw (
        flags.0,
        flags.1,
        name_size,
        extra_size,
        size_or_placeholder-narrow e.compressed_size,
        size_or_placeholder-narrow e.uncompressed_size,
        size_or_placeholder-narrow e.local_header_offset,
      )

  flags_read :
      (s : Option ℕ)
      → not (bit_and (central_flags s) 0x01 == 0) ≡ elim s [ none ↦ false | some code ↦ true ]
  unfolding central_flags
  flags_read none = refl
  flags_read (some code) = refl

  -- The reader shows the entry with the values that the writer counted.
  pub entry_of_lem : entry_of fields ≡ seen e
  entry_of_lem = rw (values, from_utf8_lossy-IsUtf8 h.utf8, flags_read e.encryption_strength)

  -- The reader takes the bytes behind the signature and shows the entry.
  pub Runs-central_bytes : Runs read_central_entry (central_bytes fields) (seen e)
  Runs-central_bytes = rw (sym entry_of_lem) (Runs-read_central_entry fields fields-FieldsFit)
