-- ===== src/RoundTrip/Directory.antt =====
-- The central directory as a whole: the entries that `finish` of src/writer.rs writes, read by
-- `read_central_directory` of src/reader.rs.
use s_zip.Common.{
  ℕ, ◌≢◌, u16_max, ◌*◌, ◌+◌, ◌^◌, ◌<◌, ◌≡◌, ap, ◌∙◌, List, [], ◌∷◌, ◌++◌, arith, length, flatten,
  map, All, append-nil, append_assoc, flatten-append, u32_max,
}
use s_zip.Format.Scan.{HasSignature, locator_bytes}
use s_zip.Cursor.Runs.{Runs, Runs-pure, Runs-bind}
use s_zip.Reader.{read_entries}
use s_zip.Reader.Fields.{Runs-read_u32_le}
use s_zip.Reader.Directory.{central_bytes}
use s_zip.Reader.EndRecord.{StandsAlone}
use s_zip.Central.{ZipEntry, central_header, central_headers, end_record, end_records}
use s_zip.RoundTrip.Placeholder.{size_or_placeholder-narrow, count_or_placeholder_narrow}
use s_zip.RoundTrip.Opening.{narrow_16, narrow_32, classic}
use s_zip.RoundTrip.Entry.{IsReadable, seen, fields, flatten-central_header, Runs-central_bytes}

flatten_headers :
    (e : ZipEntry) (es : List ZipEntry)
    → flatten (central_headers (e ∷ es))
      ≡ flatten (central_header e) ++ flatten (central_headers es)
unfolding central_headers
flatten_headers e es = flatten-append (central_header e) (central_headers es)

regroup : (s b r : List ℕ) → (s ++ b) ++ r ≡ s ++ (b ++ (r ++ []))
regroup s b r = rw (append-nil r, append_assoc s b r)

-- The reader takes the bytes of the entries and shows them.
pub Runs-read_entries :
    (es : List ZipEntry)
    → All IsReadable es
    → Runs (read_entries (length es)) (flatten (central_headers es)) (map seen es)
unfolding read_entries central_headers
Runs-read_entries [] h = Runs-pure []
Runs-read_entries (e ∷ es) (h, hs) =
    let bytes : flatten (central_headers (e ∷ es))
        ≡ (0x50 ∷ 0x4b ∷ 0x01 ∷ 0x02 ∷ [])
          ++ (central_bytes (fields e h) ++ (flatten (central_headers es) ++ [])) =
      flatten_headers e es
      ∙ ap (λ (t : List ℕ). t ++ flatten (central_headers es)) (flatten-central_header e h)
      ∙ regroup (0x50 ∷ 0x4b ∷ 0x01 ∷ 0x02 ∷ []) (central_bytes (fields e h))
          (flatten (central_headers es)) in
    rw bytes (
      Runs-bind _ _ (Runs-read_u32_le 0x02014b50 (omega arith)) (
        Runs-bind _ _ (Runs-central_bytes e h)
          (Runs-bind _ _ (Runs-read_entries es hs) (Runs-pure (map seen (e ∷ es))))))

abbrev pub size_of : List ZipEntry → ℕ
size_of es = length (flatten (central_headers es))

-- The archive: what stands before the central directory, the directory and the end records.
abbrev pub archive : List ℕ → List ZipEntry → List ℕ
archive front es =
    front
    ++ (flatten (central_headers es)
        ++ flatten (end_records (length es) (size_of es) (length front)))

-- A directory that the reader can open: no value is exactly a placeholder, the file is of a size
-- that the system can seek in, a vector of the entries can be allocated, and no bytes behind the
-- start of a record look like the start of another.
pub record IsOpenable (front : List ℕ) (es : List ZipEntry) : Type 0 where
  pub readable : All IsReadable es
  pub count_plain : length es ≢ u16_max
  pub size_plain : size_of es ≢ u32_max
  pub offset_plain : length front ≢ u32_max
  pub allocates : length es * 56 < 2 ^ 63
  pub small : length (archive front es) < 2 ^ 63
  pub record_alone :
      StandsAlone (narrow_16 (length es)) (narrow_32 (size_of es)) (narrow_32 (length front))
  pub locator_alone :
      (j : ℕ)
      → 0 < j
      → j + 3 < 42
      → ¬ HasSignature
          (locator_bytes 0 (length front + size_of es)
            ++ classic (length es) (size_of es) (length front))
          0x06
          0x07
          j

pub flatten-end_record : (n s o : ℕ) → flatten (end_record n s o) ≡ classic n s o
unfolding end_record
flatten-end_record n s o =
    rw (count_or_placeholder_narrow n, size_or_placeholder-narrow s, size_or_placeholder-narrow o)
