-- ===== src/Reader/EndRecord.antt =====
-- `read_central_directory` of src/reader.rs on a file that ends in an end record.
use s_zip.Common.{
  ℕ, ◌+◌, ◌^◌, ◌<◌, ◌≡◌, refl, ◌∙◌, List, [], ◌∷◌, ◌++◌, arith, length, length-append, drop_append,
  ltb-true, to_le_bytes, u16_mod, u32_mod,
}
use s_zip.Outcome.{ok}
use s_zip.Format.Scan.{HasSignature}
use s_zip.Cursor.{Cursor, seek_start}
use s_zip.Cursor.Runs.{Runs, Runs-pure, Runs-bind, Runs-seek_current, bind_ok}
use s_zip.Reader.{read_end_values, read_end_record}
use s_zip.Reader.Fields.{Runs-read_u16_le, Runs-read_u32_le}
use s_zip.Reader.Search.{find_eocd_end}

-- The end record with its three values, without a comment.
abbrev pub record_bytes : ℕ → ℕ → ℕ → List ℕ
record_bytes n s o =
    (0x50 ∷ 0x4b ∷ 0x05 ∷ 0x06 ∷ [])
    ++ ((0 ∷ 0 ∷ 0 ∷ 0 ∷ [])
        ++ (to_le_bytes 2 n
            ++ (to_le_bytes 2 n ++ (to_le_bytes 4 s ++ (to_le_bytes 4 o ++ ([] ++ (0 ∷ 0 ∷ [])))))))

-- No second end record seems to start inside the end record.
abbrev pub StandsAlone : ℕ → ℕ → ℕ → Type 0
StandsAlone n s o = (j : ℕ) → 0 < j → j + 3 < 22 → ¬ HasSignature (record_bytes n s o) 0x05 0x06 j

pub seek_start_small :
    (n : ℕ) (c : Cursor) → n < 2 ^ 63 → seek_start n c ≡ ok (tt, record c { pos = n })
unfolding seek_start
seek_start_small n c h = rw (ltb-true n (2 ^ 63) h)

module _ (front : List ℕ) (n s o pos : ℕ) (hn : n < u16_mod) (hs : s < u32_mod) (ho : o < u32_mod)
    (small : length (front ++ record_bytes n s o) < 2 ^ 63) (alone : StandsAlone n s o) where
  Runs-read_end_values :
      Runs
        (read_end_values (length front))
        ((0x50 ∷ 0x4b ∷ 0x05 ∷ 0x06 ∷ [])
          ++ ((0 ∷ 0 ∷ 0 ∷ 0 ∷ [])
              ++ (to_le_bytes 2 n
                  ++ (to_le_bytes 2 n ++ (to_le_bytes 4 s ++ (to_le_bytes 4 o ++ []))))))
        (length front, n, s, o)
  unfolding read_end_values
  Runs-read_end_values = Runs-bind _ _ (Runs-read_u32_le 0x06054b50 (omega arith)) (
      Runs-bind _ _ (Runs-seek_current 4 (0 ∷ 0 ∷ 0 ∷ 0 ∷ []) refl) (
        Runs-bind _ _ (Runs-read_u16_le n hn) (
          Runs-bind _ _ (Runs-read_u16_le n hn) (
            Runs-bind _ _ (Runs-read_u32_le s hs)
              (Runs-bind _ _ (Runs-read_u32_le o ho) (Runs-pure (length front, n, s, o)))))))

  -- The reader finds the record and takes its values.
  pub read_end_record_end :
      read_end_record (record { bytes = front ++ record_bytes n s o; pos = pos })
      ≡ ok (
        (length front, n, s, o),
        record { bytes = front ++ record_bytes n s o; pos = length front + 20 },
      )
  unfolding read_end_record
  read_end_record_end =
      bind_ok _ _ (find_eocd_end front (record_bytes n s o) pos (omega arith) small refl alone)
      ∙ bind_ok _ _ (
          seek_start_small (length front) _
            (omega (arith, length-append front (record_bytes n s o))))
      ∙ Runs-read_end_values.at _ (0 ∷ 0 ∷ []) (record {
        here = drop_append (length front) front (record_bytes n s o) refl;
        inside = omega (arith, length-append front (record_bytes n s o));
        small = small;
      })
