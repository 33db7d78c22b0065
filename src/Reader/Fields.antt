-- ===== src/Reader/Fields.antt =====
-- The integer reads of src/reader.rs on the little-endian bytes of a value.
use s_zip.Common.{
  ℕ, ◌<◌, refl, u16_mod, u32_mod, u64_mod, to_le_bytes, from_le_bytes_u16, from_le_bytes_u32,
  from_le_bytes_u64,
}
use s_zip.Cursor.{read_exact}
use s_zip.Cursor.Runs.{Runs, Runs-pure, Runs-bind, Runs-read_exact}
use s_zip.Reader.{read_u16_le, read_u32_le, read_u64_le}

pub Runs-read_u16_le : (v : ℕ) → v < u16_mod → Runs read_u16_le (to_le_bytes 2 v) v
unfolding read_u16_le
Runs-read_u16_le v h =
    Runs-bind (read_exact 2) _ (Runs-read_exact 2 (to_le_bytes 2 v) refl)
      (rw (from_le_bytes_u16 v h) (Runs-pure v))

pub Runs-read_u32_le : (v : ℕ) → v < u32_mod → Runs read_u32_le (to_le_bytes 4 v) v
unfolding read_u32_le
Runs-read_u32_le v h =
    Runs-bind (read_exact 4) _ (Runs-read_exact 4 (to_le_bytes 4 v) refl)
      (rw (from_le_bytes_u32 v h) (Runs-pure v))

pub Runs-read_u64_le : (v : ℕ) → v < u64_mod → Runs read_u64_le (to_le_bytes 8 v) v
unfolding read_u64_le
Runs-read_u64_le v h =
    Runs-bind (read_exact 8) _ (Runs-read_exact 8 (to_le_bytes 8 v) refl)
      (rw (from_le_bytes_u64 v h) (Runs-pure v))
