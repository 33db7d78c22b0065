-- ===== src/Reader/Directory.antt =====
-- `read_central_entry` of src/reader.rs on the bytes of an entry, whoever wrote them.
use Prim.Native.Nat.{bit_and}
use s_zip.Common.{
  ℕ, ◌<◌, ◌≡◌, refl, not, List, [], ◌∷◌, ◌++◌, arith, ◌==◌, ltb, if◌then◌else◌, length, ltb-true,
  u16_mod, u32_mod, to_le_bytes,
}
use s_zip.Format.{ZipEntry}
use s_zip.Utf8.{from_utf8_lossy}
use s_zip.Cursor.{pure, read_exact, seek_current}
use s_zip.Cursor.Runs.{Runs, Runs-pure, Runs-bind, Runs-read_exact, Runs-seek_current}
use s_zip.Reader.{resolve_zip64, read_central_entry}
use s_zip.Reader.Fields.{Runs-read_u16_le, Runs-read_u32_le}

-- What stands in a central directory entry.
pub record CentralFields : Type 0 where
  pub flags : ℕ
  pub method : ℕ
  pub crc : ℕ
  pub compressed_32 : ℕ
  pub uncompressed_32 : ℕ
  pub offset_32 : ℕ
  pub filename : List ℕ
  pub extra : List ℕ
  pub comment : List ℕ
  pub versions : List ℕ
  pub times : List ℕ
  pub attributes : List ℕ

pub record FieldsFit (f : CentralFields) : Type 0 where
  pub flags_fit : f.flags < u16_mod
  pub method_fits : f.method < u16_mod
  pub crc_fits : f.crc < u32_mod
  pub compressed_fits : f.compressed_32 < u32_mod
  pub uncompressed_fits : f.uncompressed_32 < u32_mod
  pub offset_fits : f.offset_32 < u32_mod
  pub filename_fits : length f.filename < u16_mod
  pub extra_fits : length f.extra < u16_mod
  pub comment_fits : length f.comment < u16_mod
  pub versions_size : length f.versions ≡ 4
  pub times_size : length f.times ≡ 4
  pub attributes_size : length f.attributes ≡ 8

-- The bytes behind the signature.
abbrev pub central_bytes : CentralFields → List ℕ
central_bytes f =
    f.versions
    ++ (to_le_bytes 2 f.flags
        ++ (to_le_bytes 2 f.method
            ++ (f.times
                ++ (to_le_bytes 4 f.crc
                    ++ (to_le_bytes 4 f.compressed_32
                        ++ (to_le_bytes 4 f.uncompressed_32
                            ++ (to_le_bytes 2 (length f.filename)
                                ++ (to_le_bytes 2 (length f.extra)
                                    ++ (to_le_bytes 2 (length f.comment)
                                        ++ (f.attributes
                                            ++ (to_le_bytes 4 f.offset_32
                                                ++ (f.filename
                                                    ++ (f.extra ++ (f.comment ++ []))))))))))))))

abbrev pub entry_of : CentralFields → ZipEntry
entry_of f =
    let values = resolve_zip64 f.extra f.compressed_32 f.uncompressed_32 f.offset_32 in
    record {
      name = from_utf8_lossy f.filename;
      compressed_size = values.1;
      uncompressed_size = values.0;
      compression_method = f.method;
      offset = values.2;
      crc32 = f.crc;
      is_encrypted = not (bit_and f.flags 0x01 == 0);
    }

Runs-extra :
    (extra : List ℕ)
    → Runs (if ltb 0 (length extra) then read_exact (length extra) else pure []) extra extra
Runs-extra [] = Runs-pure []
Runs-extra (x ∷ xs) =
    rw (ltb-true 0 (length (x ∷ xs)) (omega arith))
      (Runs-read_exact (length (x ∷ xs)) (x ∷ xs) refl)

Runs-comment :
    (comment : List ℕ)
    → Runs (if ltb 0 (length comment) then seek_current (length comment) else pure tt) comment tt
Runs-comment [] = Runs-pure tt
Runs-comment (x ∷ xs) =
    rw (ltb-true 0 (length (x ∷ xs)) (omega arith))
      (Runs-seek_current (length (x ∷ xs)) (x ∷ xs) refl)

-- The reader takes exactly the bytes of an entry whose values fit their fields, its extra field and
-- its comment among them, and shows its fields.
pub Runs-read_central_entry :
    (f : CentralFields) → FieldsFit f → Runs read_central_entry (central_bytes f) (entry_of f)
unfolding read_central_entry
Runs-read_central_entry f h = Runs-bind _ _ (Runs-seek_current 4 f.versions h.versions_size) (
    Runs-bind _ _ (Runs-read_u16_le f.flags h.flags_fit) (
      Runs-bind _ _ (Runs-read_u16_le f.method h.method_fits) (
        Runs-bind _ _ (Runs-seek_current 4 f.times h.times_size) (
          Runs-bind _ _ (Runs-read_u32_le f.crc h.crc_fits) (
            Runs-bind _ _ (Runs-read_u32_le f.compressed_32 h.compressed_fits) (
              Runs-bind _ _ (Runs-read_u32_le f.uncompressed_32 h.uncompressed_fits) (
                Runs-bind _ _ (Runs-read_u16_le (length f.filename) h.filename_fits) (
                  Runs-bind _ _ (Runs-read_u16_le (length f.extra) h.extra_fits) (
                    Runs-bind _ _ (Runs-read_u16_le (length f.comment) h.comment_fits) (
                      Runs-bind _ _ (Runs-seek_current 8 f.attributes h.attributes_size) (
                        Runs-bind _ _ (Runs-read_u32_le f.offset_32 h.offset_fits) (
                          Runs-bind _ _ (Runs-read_exact (length f.filename) f.filename refl) (
                            Runs-bind _ _ (Runs-extra f.extra) (
                              Runs-bind _ _ (Runs-comment f.comment)
                                (Runs-pure (entry_of f))))))))))))))))
