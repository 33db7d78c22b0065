-- ===== src/RoundTrip/Opening.antt =====
-- `read_central_directory` of src/reader.rs on a file that ends in a central directory and the end
-- records, whichever of the writers wrote them.
use s_zip.Common.{
  ℕ, ◌≢◌, u16_max, ◌*◌, ◌+◌, ◌-◌, ◌^◌, ◌<◌, ◌≡◌, refl, sym, ap, ◌∙◌, inl, inr, Bool, true, false,
  ◌||◌, if◌then◌else◌, List, [], ◌++◌, arith, length, Bool-cases, drop_append, append_assoc,
  length-append, ltb-false, u32_max,
}
use s_zip.Outcome.{ok}
use s_zip.Format
use s_zip.Format.Scan.{HasSignature, locator_bytes}
use s_zip.Format.Zip64.{narrow}
use s_zip.Cursor.{Cursor, Read, ◌>>◌, pure, lift, seek_start}
use s_zip.Cursor.Runs.{Runs, bind_ok}
use s_zip.Reader.{
  with_capacity, has_placeholder, directory_place, read_end_record, read_zip64_eocd, read_entries,
  read_central_directory,
}
use s_zip.Reader.EndRecord.{record_bytes, StandsAlone, seek_start_small, read_end_record_end}
use s_zip.Reader.Zip64Record.{zip64_record_bytes, read_zip64_eocd_end}
use s_zip.RoundTrip.Placeholder.{
  big, narrow-lt, placeholder_wide, narrow_same, or_false, big_count, narrow_count, narrow_count-lt,
  placeholder_count,
}

-- The three values of the end record.
abbrev pub narrow_16 : ℕ → ℕ
narrow_16 n = narrow_count (big_count n) n

abbrev pub narrow_32 : ℕ → ℕ
narrow_32 v = narrow (big v) v

-- Whether a value does not fit the end record.
abbrev pub any_wide : ℕ → ℕ → ℕ → Bool
any_wide n s o = big_count n || big s || big o

abbrev pub classic : ℕ → ℕ → ℕ → List ℕ
classic n s o = record_bytes (narrow_16 n) (narrow_32 s) (narrow_32 o)

-- The end records of a directory of `n` entries and `s` bytes at `o`.
abbrev pub end_bytes : ℕ → ℕ → ℕ → ℕ → ℕ → List ℕ
end_bytes version disks n s o =
    (if any_wide n s o then zip64_record_bytes version n s o ++ locator_bytes disks (o + s) else [])
    ++ classic n s o

abbrev pub file_of : ℕ → ℕ → List ℕ → List ℕ → ℕ → List ℕ
file_of version disks front dir n =
    front ++ (dir ++ end_bytes version disks n (length dir) (length front))

-- A directory of `n` entries that the reader can open: no value is exactly a placeholder, the file is of
-- a size that the system can seek in, a vector of the entries can be allocated, and no bytes
-- behind the start of a record look like the start of another.
pub record Opens (version disks : ℕ) (front dir : List ℕ) (n : ℕ) : Type 0 where
  pub count_plain : n ≢ u16_max
  pub size_plain : length dir ≢ u32_max
  pub offset_plain : length front ≢ u32_max
  pub allocates : n * 56 < 2 ^ 63
  pub small : length (file_of version disks front dir n) < 2 ^ 63
  pub record_alone : StandsAlone (narrow_16 n) (narrow_32 (length dir)) (narrow_32 (length front))
  pub locator_alone :
      (j : ℕ)
      → 0 < j
      → j + 3 < 42
      → ¬ HasSignature
          (locator_bytes disks (length front + length dir) ++ classic n (length dir) (length front))
          0x06
          0x07
          j

module _ (version disks : ℕ) (front dir : List ℕ) (n : ℕ) (h : Opens version disks front dir n)
    {entries : List Format.ZipEntry} (runs : Runs (read_entries n) dir entries) where
  abbrev s : ℕ
  s = length dir

  abbrev o : ℕ
  o = length front

  abbrev rec : List ℕ
  rec = classic n s o

  abbrev tail : List ℕ
  tail = end_bytes version disks n s o

  abbrev file : List ℕ
  file = file_of version disks front dir n

  placeholders : has_placeholder (narrow_16 n) (narrow_32 s) (narrow_32 o) ≡ any_wide n s o
  placeholders = rw (
    placeholder_count n h.count_plain,
    placeholder_wide s h.size_plain,
    placeholder_wide o h.offset_plain,
  )

  sizes : length file ≡ o + s + length tail
  sizes = omega (arith, length-append front (dir ++ tail), length-append dir tail)

  -- The entries, once the place of the directory is known.
  abbrev entries_at : ℕ × ℕ → Read (List Format.ZipEntry)
  entries_at (total_entries, cd_offset) = do
    seek_start cd_offset
    lift (with_capacity total_entries)
    read_entries total_entries

  entries_from :
      (p : ℕ)
      → entries_at (n, o) (record { bytes = file; pos = p })
        ≡ ok (entries, record { bytes = file; pos = o + s })
  unfolding lift with_capacity
  entries_from p =
      bind_ok _ _ (seek_start_small o _ (omega (arith, sizes, h.small)))
      ∙ bind_ok _ _ (rw (ltb-false (2 ^ 63 - 1) (n * 56) (omega (arith, h.allocates))))
      ∙ runs.at _ tail (record {
        here = drop_append o front _ refl;
        inside = omega (arith, sizes);
        small = h.small;
      })

  -- Where the end record stands at the end of the file and the place of the directory follows
  -- from it, the reader gets the entries.
  through :
      (before : List ℕ) (at p q : ℕ)
      → length before ≡ at
      → before ++ rec ≡ file
      → directory_place
          (at, narrow_16 n, narrow_32 s, narrow_32 o)
          (record { bytes = file; pos = at + 20 })
        ≡ ok ((n, o), record { bytes = file; pos = q })
      → read_central_directory (record { bytes = file; pos = p })
        ≡ ok (entries, record { bytes = file; pos = o + s })
  unfolding read_central_directory
  through before at p q size parts place = bind_ok _ _ found ∙ bind_ok _ _ place ∙ entries_from q
    where
      found :
          read_end_record (record { bytes = file; pos = p })
          ≡ ok ((at, narrow_16 n, narrow_32 s, narrow_32 o), record { bytes = file; pos = at + 20 })
      found =
          rw (sym parts, sym size)
            (read_end_record_end before (narrow_16 n) (narrow_32 s) (narrow_32 o) p
              (narrow_count-lt n) (narrow-lt s) (narrow-lt o)
              (omega (arith, ap length parts, h.small)) h.record_alone)

  -- Without ZIP64 records.
  narrow_directory :
      any_wide n s o ≡ false
      → (p : ℕ)
      → read_central_directory (record { bytes = file; pos = p })
        ≡ ok (entries, record { bytes = file; pos = o + s })
  unfolding directory_place pure
  narrow_directory e p =
      through (front ++ dir) (length (front ++ dir)) p (length (front ++ dir) + 20) refl parts
        (place _)
    where
      parts : (front ++ dir) ++ rec ≡ file
      parts = rw e (append_assoc front dir rec)

      same : (narrow_16 n ≡ n) × (narrow_32 o ≡ o)
      same = let (c, b, a) = or_false (big_count n) (big s) (big o) e in (rw c, narrow_same o a)

      place :
          (c : Cursor)
          → directory_place (length (front ++ dir), narrow_16 n, narrow_32 s, narrow_32 o) c
            ≡ ok ((n, o), c)
      place c = rw (placeholders ∙ e, same.0, same.1)

  wide_directory :
      any_wide n s o ≡ true
      → (p : ℕ)
      → read_central_directory (record { bytes = file; pos = p })
        ≡ ok (entries, record { bytes = file; pos = o + s })
  unfolding directory_place pure
  wide_directory e p =
      through ((front ++ dir) ++ (zip64_record_bytes version n s o ++ locator_bytes disks (o + s)))
        (o + s + 56 + 20) p (o + s + 56)
        (omega (
          arith,
          length-append (front ++ dir)
              (zip64_record_bytes version n s o ++ locator_bytes disks (o + s)),
          length-append front dir,
        ))
        (append_assoc (front ++ dir)
            (zip64_record_bytes version n s o ++ locator_bytes disks (o + s)) rec
          ∙ ap (λ (t : List ℕ). (front ++ dir) ++ t)
              (append_assoc (zip64_record_bytes version n s o) (locator_bytes disks (o + s)) rec)
          ∙ sym parts)
        place
    where
      parts :
          file
          ≡ (front ++ dir)
            ++ (zip64_record_bytes version n s o ++ (locator_bytes disks (o + s) ++ rec))
      parts = rw e (
          ap (λ (t : List ℕ). front ++ (dir ++ t))
            (append_assoc (zip64_record_bytes version n s o) (locator_bytes disks (o + s)) rec)
          ∙ sym (append_assoc front dir _))

      place :
          directory_place
            (o + s + 56 + 20, narrow_16 n, narrow_32 s, narrow_32 o)
            (record { bytes = file; pos = o + s + 56 + 20 + 20 })
          ≡ ok ((n, o), record { bytes = file; pos = o + s + 56 })
      place = rw (placeholders ∙ e) (
          bind_ok _ _ (
            ap
              (λ (t : List ℕ).
                read_zip64_eocd (o + s + 56 + 20)
                  (record { bytes = t; pos = o + s + 56 + 20 + 20 }))
              parts
            ∙ read_zip64_eocd_end (front ++ dir) (o + s) (length-append front dir) version disks n s
                o rec (omega (arith, h.allocates)) (omega (arith, h.small, sizes))
                (omega (arith, h.small, sizes)) (omega (arith, ap length parts, h.small))
                h.locator_alone (o + s + 56 + 20 + 20)
            ∙ ap (λ (t : List ℕ). ok ((n, s, o), record { bytes = t; pos = o + s + 56 }))
                (sym parts)))

  -- A file that can be opened is opened: the reader gets the entries of the directory.
  pub read_central_directory_lem :
      (p : ℕ)
      → read_central_directory (record { bytes = file; pos = p })
        ≡ ok (entries, record { bytes = file; pos = o + s })
  read_central_directory_lem p = elim (Bool-cases (any_wide n s o)) [
    | inl e ↦ wide_directory e p
    | inr e ↦ narrow_directory e p
  ]
