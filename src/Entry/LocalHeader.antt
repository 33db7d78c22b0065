-- ===== src/Entry/LocalHeader.antt =====
-- The local header of an entry that is not encrypted, whoever wrote it, read by `read_entry` of
-- src/reader.rs.
use Prim.Native.Nat.{bit_and}
use s_zip.Common.{
  ℕ, ◌<◌, ◌≡◌, refl, true, List, [], ◌∷◌, ◌++◌, none, arith, length, ◌==◌, u16_mod, to_le_bytes,
}
use s_zip.Cursor.Runs.{Runs, Runs-pure, Runs-bind, Runs-seek_current}
use s_zip.Reader.Fields.{Runs-read_u16_le, Runs-read_u32_le}
use s_zip.Entry.{read_local_header}

-- What stands in a local header.
pub record LocalFields : Type 0 where
  pub version : List ℕ
  pub flags : ℕ
  pub method : ℕ
  pub times_crc : List ℕ
  pub sizes : List ℕ
  pub filename : List ℕ
  pub extra : List ℕ

pub record LocalFit (f : LocalFields) : Type 0 where
  pub version_size : length f.version ≡ 2
  pub flags_fit : f.flags < u16_mod
  pub not_encrypted : (bit_and f.flags 0x01 == 0) ≡ true
  pub method_fits : f.method < u16_mod
  pub times_crc_size : length f.times_crc ≡ 8
  pub sizes_size : length f.sizes ≡ 8
  pub filename_fits : length f.filename < u16_mod
  pub extra_fits : length f.extra < u16_mod

abbrev pub local_bytes : LocalFields → List ℕ
local_bytes f =
    (0x50 ∷ 0x4b ∷ 0x03 ∷ 0x04 ∷ [])
    ++ (f.version
        ++ (to_le_bytes 2 f.flags
            ++ (to_le_bytes 2 f.method
                ++ (f.times_crc
                    ++ (f.sizes
                        ++ (to_le_bytes 2 (length f.filename)
                            ++ (to_le_bytes 2 (length f.extra)
                                ++ (f.filename ++ (f.extra ++ [])))))))))

-- The reader passes over exactly the header.
pub Runs-local_bytes : (f : LocalFields) → LocalFit f → Runs read_local_header (local_bytes f) none
unfolding read_local_header
Runs-local_bytes f h = Runs-bind _ _ (Runs-read_u32_le 0x04034b50 (omega arith)) (
    Runs-bind _ _ (Runs-seek_current 2 f.version h.version_size) (
      Runs-bind _ _ (Runs-read_u16_le f.flags h.flags_fit) (
        Runs-bind _ _ (Runs-read_u16_le f.method h.method_fits) (
          Runs-bind _ _ (Runs-seek_current 8 f.times_crc h.times_crc_size) (
            Runs-bind _ _ (Runs-seek_current 8 f.sizes h.sizes_size) (
              Runs-bind _ _ (Runs-read_u16_le (length f.filename) h.filename_fits) (
                Runs-bind _ _ (Runs-read_u16_le (length f.extra) h.extra_fits) (
                  Runs-bind _ _ (Runs-seek_current (length f.filename) f.filename refl) (
                    rw h.not_encrypted (
                      Runs-bind _ _ (Runs-seek_current (length f.extra) f.extra refl)
                        (Runs-pure none)))))))))))
