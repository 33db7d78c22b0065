-- ===== src/Reader/Zip64Record.antt =====
-- `read_zip64_eocd` of src/reader.rs on a file that ends in a ZIP64 end record, its locator and an end
-- record.
use s_zip.Common.{
  ℕ, ◌+◌, ◌-◌, ◌^◌, ◌<◌, ◌≡◌, refl, sym, ap, ◌∙◌, List, [], ◌∷◌, ◌++◌, arith, length, drop,
  append_assoc, length-append, drop_append, drop-append_le, to_le_bytes, u64_mod,
}
use s_zip.Outcome.{ok}
use s_zip.Format.{find_zip64_eocd_offset}
use s_zip.Format.Scan.{HasSignature, locator_bytes, find_zip64_eocd_offset-append}
use s_zip.Cursor.{Read, pure, read_to_end}
use s_zip.Cursor.Runs.{Runs, Runs-pure, Runs-bind, Runs-read_exact, Runs-seek_current, bind_ok}
use s_zip.Reader.{read_zip64_values, read_zip64_eocd, or_no_locator}
use s_zip.Reader.Fields.{Runs-read_u32_le, Runs-read_u64_le}
use s_zip.Reader.EndRecord.{seek_start_small}

-- The ZIP64 end record with its three values, and the version that the writer gives.
abbrev pub zip64_record_bytes : ℕ → ℕ → ℕ → ℕ → List ℕ
zip64_record_bytes version n s o =
    (0x50 ∷ 0x4b ∷ 0x06 ∷ 0x06 ∷ [])
    ++ (to_le_bytes 8 44
        ++ ((version ∷ 0 ∷ version ∷ 0 ∷ 0 ∷ 0 ∷ 0 ∷ 0 ∷ 0 ∷ 0 ∷ 0 ∷ 0 ∷ [])
            ++ (to_le_bytes 8 n
                ++ (to_le_bytes 8 n ++ (to_le_bytes 8 s ++ (to_le_bytes 8 o ++ []))))))

Runs-read_zip64_values :
    (version n s o : ℕ)
    → n < u64_mod
    → s < u64_mod
    → o < u64_mod
    → Runs read_zip64_values (zip64_record_bytes version n s o) (n, s, o)
unfolding read_zip64_values
Runs-read_zip64_values version n s o hn hs ho =
    Runs-bind _ _ (Runs-read_u32_le 0x06064b50 (omega arith)) (
      Runs-bind _ _ (Runs-read_u64_le 44 (omega arith)) (
        Runs-bind _ _
          (Runs-seek_current 12 (version ∷ 0 ∷ version ∷ 0 ∷ 0 ∷ 0 ∷ 0 ∷ 0 ∷ 0 ∷ 0 ∷ 0 ∷ 0 ∷ [])
            refl)
          (Runs-bind _ _ (Runs-read_u64_le n hn) (
            Runs-bind _ _ (Runs-read_exact 8 (to_le_bytes 8 n) refl) (
              Runs-bind _ _ (Runs-read_u64_le s hs)
                (Runs-bind _ _ (Runs-read_u64_le o ho) (Runs-pure (n, s, o))))))))

module _ (front : List ℕ) (here : ℕ) (at : length front ≡ here) (version disks n s o : ℕ)
    (rec : List ℕ) (hn : n < u64_mod) (hs : s < u64_mod) (ho : o < u64_mod)
    (small : length
        (front ++ (zip64_record_bytes version n s o ++ (locator_bytes disks here ++ rec)))
      < 2 ^ 63)
    (alone : (j : ℕ)
      → 0 < j
      → j + 3 < length (locator_bytes disks here ++ rec)
      → ¬ HasSignature (locator_bytes disks here ++ rec) 0x06 0x07 j) where
  abbrev file : List ℕ
  file = front ++ (zip64_record_bytes version n s o ++ (locator_bytes disks here ++ rec))

  -- Where the search for the locator starts, when the end record is `rec`.
  abbrev start : ℕ
  start = here + 56 + 20 - 65557

  sizes : length file ≡ here + 76 + length rec
  sizes = omega (
    arith,
    at,
    length-append front (zip64_record_bytes version n s o ++ (locator_bytes disks here ++ rec)),
  )

  located : or_no_locator (find_zip64_eocd_offset (drop start file)) ≡ pure here
  located =
      let before = front ++ zip64_record_bytes version n s o in
      let parts : file ≡ before ++ (locator_bytes disks here ++ rec) =
        sym (
          append_assoc front (zip64_record_bytes version n s o)
            (locator_bytes disks here ++ rec)) in
      let cut : drop start file ≡ drop start before ++ (locator_bytes disks here ++ rec) =
        ap (drop start) parts
        ∙ drop-append_le start before (locator_bytes disks here ++ rec)
            (omega (arith, at, length-append front (zip64_record_bytes version n s o))) in
      ap (λ (t : List ℕ). or_no_locator (find_zip64_eocd_offset t)) cut
      ∙ ap or_no_locator (
          find_zip64_eocd_offset-append (drop start before) disks here rec (omega (arith, sizes))
            alone)

  -- The reader finds the ZIP64 end record and takes its values.
  pub read_zip64_eocd_end :
      (p : ℕ)
      → read_zip64_eocd (here + 56 + 20) (record { bytes = file; pos = p })
        ≡ ok ((n, s, o), record { bytes = file; pos = here + 56 })
  unfolding read_zip64_eocd read_to_end pure
  read_zip64_eocd_end p =
      bind_ok _ _ (seek_start_small start _ (omega (arith, sizes)))
      ∙ bind_ok _ _ refl
      ∙ bind_ok _ _ (
          ap (λ (m : Read ℕ). m (record { bytes = file; pos = start + length (drop start file) }))
            located)
      ∙ bind_ok _ _ (seek_start_small here _ (omega (arith, sizes)))
      ∙ (Runs-read_zip64_values version n s o hn hs ho).at _ (locator_bytes disks here ++ rec)
          (record {
            here = drop_append here front _ at;
            inside = omega (arith, sizes);
            small = small;
          })
