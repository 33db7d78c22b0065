-- ===== src/Reader/Search.antt =====
-- The search for the end records by `find_eocd` and `read_zip64_eocd` of src/reader.rs.
use s_zip.Common.{
  ℕ, ◌+◌, ◌-◌, ◌^◌, ◌≤◌, ◌<◌, ◌≡◌, List, ◌++◌, arith, length, drop, length-append, length-drop,
  drop-append_le, ltb-true,
}
use s_zip.Outcome.{ok}
use s_zip.Format.Scan.{HasSignature, find_eocd_in_buffer-append}
use s_zip.Cursor.{◌>>=◌, pure, seek_start, seek_end, read_to_end}
use s_zip.Reader.{find_eocd}

-- The search finds the end record where it is the last thing of the file and holds no other
-- signature of its kind.
pub find_eocd_end :
    (front record_bytes : List ℕ) (pos : ℕ)
    → length record_bytes ≤ 65557
    → length (front ++ record_bytes) < 2 ^ 63
    → HasSignature record_bytes 0x05 0x06 0
    → ((j : ℕ) → 0 < j → j + 3 < length record_bytes → ¬ HasSignature record_bytes 0x05 0x06 j)
    → find_eocd (record { bytes = front ++ record_bytes; pos = pos })
      ≡ ok (
        length front,
        record { bytes = front ++ record_bytes; pos = length (front ++ record_bytes) },
      )
unfolding find_eocd seek_end seek_start read_to_end ◌>>=◌ pure
find_eocd_end front rec pos short small here once =
    let start = length (front ++ rec) - 65557 in
    let size = length-append front rec in
    let cut = drop-append_le start front rec (omega arith) in
    let index : start + length (drop start front) ≡ length front =
      omega (arith, length-drop start front) in
    let end : start + length (drop start front ++ rec) ≡ length (front ++ rec) =
      omega (arith, length-drop start front, length-append (drop start front) rec) in
    rw (
      ltb-true start (2 ^ 63) (omega arith),
      ◌>>=◌,
      cut,
      end,
      find_eocd_in_buffer-append (drop start front) rec start here once,
      index,
    )
