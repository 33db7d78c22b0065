-- ===== src/RoundTrip/Archive.antt =====
-- The archive as a whole, with and without the ZIP64 records: the central directory and the end records
-- that `finish` of src/writer.rs writes, read by `read_central_directory` of src/reader.rs.
use s_zip.Common.{
  ℕ, ◌+◌, ◌≡◌, refl, ap, ◌∙◌, inl, inr, List, ◌++◌, length, flatten, map, Bool-cases,
  flatten-append,
}
use s_zip.Outcome.{ok}
use s_zip.Format.Scan.{locator_bytes}
use s_zip.Reader.{read_central_directory}
use s_zip.Reader.Zip64Record.{zip64_record_bytes}
use s_zip.Central.{
  ZipEntry, central_headers, need_zip64, zip64_end_records, end_record, end_records,
}
use s_zip.RoundTrip.Entry.{seen}
use s_zip.RoundTrip.Opening.{any_wide, classic, end_bytes, Opens, read_central_directory_lem}
use s_zip.RoundTrip.Directory.{archive, IsOpenable, size_of, flatten-end_record, Runs-read_entries}

flatten-zip64_end_records :
    (n s o : ℕ)
    → flatten (zip64_end_records n s o) ≡ zip64_record_bytes 20 n s o ++ locator_bytes 0 (o + s)
unfolding zip64_end_records
flatten-zip64_end_records n s o = refl

need_zip64_lem : (n s o : ℕ) → need_zip64 n s o ≡ any_wide n s o
unfolding need_zip64
need_zip64_lem n s o = refl

pub flatten-end_records : (n s o : ℕ) → flatten (end_records n s o) ≡ end_bytes 20 0 n s o
unfolding end_records
flatten-end_records n s o = elim (Bool-cases (any_wide n s o)) [
  | inl e ↦
      rw (need_zip64_lem n s o, e)
        (flatten-append (zip64_end_records n s o) (end_record n s o)
          ∙ ap (λ (t : List ℕ). flatten (zip64_end_records n s o) ++ t) (flatten-end_record n s o)
          ∙ ap (λ (t : List ℕ). t ++ classic n s o) (flatten-zip64_end_records n s o))
  | inr e ↦ rw (need_zip64_lem n s o, e) (flatten-end_record n s o)
]

module _ (front : List ℕ) (es : List ZipEntry) (h : IsOpenable front es) where
  abbrev dir : List ℕ
  dir = flatten (central_headers es)

  tail :
      flatten (end_records (length es) (size_of es) (length front))
      ≡ end_bytes 20 0 (length es) (size_of es) (length front)
  tail = flatten-end_records (length es) (size_of es) (length front)

  opens : Opens 20 0 front dir (length es)
  opens = record {
    count_plain = h.count_plain;
    size_plain = h.size_plain;
    offset_plain = h.offset_plain;
    allocates = h.allocates;
    small = rw tail at h.small;
    record_alone = h.record_alone;
    locator_alone = h.locator_alone;
  }

-- An archive that can be opened is opened: the reader gets from the bytes of `finish`, behind any
-- bytes of entries and whether or not the ZIP64 records are there, the entries that were written, in
-- their order, each with its name, sizes, method, checksum, offset and whether it is encrypted.
pub read_central_directory-archive :
    (front : List ℕ) (es : List ZipEntry) (p : ℕ)
    → IsOpenable front es
    → read_central_directory (record { bytes = archive front es; pos = p })
      ≡ ok (map seen es, record { bytes = archive front es; pos = length front + size_of es })
read_central_directory-archive front es p h = rw (tail front es h) (
    read_central_directory_lem 20 0 front (flatten (central_headers es)) (length es)
      (opens front es h) (Runs-read_entries es h.readable) p)
