-- ===== src/RoundTrip/Whole.antt =====
-- A whole archive: written and finished by src/writer.rs, opened and read by src/reader.rs.
use s_zip.Common.{
  ℕ, ◌+◌, ◌≤◌, ◌<◌, ◌≡◌, refl, ap, List, ◌++◌, Option, none, some, arith, length, flatten,
  length-append, map, u16_mod, All,
}
use s_zip.Outcome.{Result, ok, err, panic}
use s_zip.External.{External, HasherLaws, CodecLaws}
use s_zip.Format.{max_entry_alloc}
use s_zip.Encryption.{CounterMode, AesStrength, AesEncryptor, new_encryptor}
use s_zip.Encryption.Session.{new_encryptor-fields}
use s_zip.RoundTrip.Sealed.{read_entry_data-sealed}
use s_zip.Encryption.Auth.{StreamingMac}
use s_zip.Options.{SystemTime}
use s_zip.Compress.{Compressor}
use s_zip.Cursor.{Cursor}
use s_zip.Entry.{StreamingZipReader, open_reader, read_entry_data, read_entry}
use s_zip.Sink.{Sink}
use s_zip.Central.{central_headers, end_records}
use s_zip.Writer.{CurrentEntry, StreamingZipWriter, make_encryptor, finish_current_entry, finish}
use s_zip.Writer.Cipher.{InStream}
use s_zip.Writer.Finish.{archive_bytes, finish-archive, finish_current_entry-none}
use s_zip.Writer.Close.{all_compressed, closed_entry, closed_writer}
use s_zip.Writer.Start.{opened, before_data, CanOpen, write_entry, write_entry-written}
use s_zip.Central.{ZipEntry}
use s_zip.RoundTrip.Entry.{seen}
use s_zip.RoundTrip.Directory.{archive, IsOpenable, size_of}
use s_zip.RoundTrip.Archive.{read_central_directory-archive}
use s_zip.RoundTrip.Local.{plain_options}
use s_zip.RoundTrip.Extract.{read_entry_data-plain}

-- The reader that an archive is opened with.
abbrev pub opened_reader : List ℕ → List ZipEntry → StreamingZipReader
opened_reader front es = record {
  file = record { bytes = archive front es; pos = length front + size_of es };
  entries = map seen es;
  password = none;
}

pub open_reader-archive :
    (front : List ℕ) (es : List ZipEntry)
    → IsOpenable front es
    → open_reader (archive front es) ≡ ok (opened_reader front es)
unfolding open_reader
open_reader-archive front es h = rw (read_central_directory-archive front es 0 h, open_reader)

-- What `finish` gives is opened: once the entry that is open is closed, where the sink has room and
-- the directory can be opened, `finish` gives back a sink and the reader opens its bytes with the
-- entries of the writer, in their order.
pub open_reader-finish :
    (ext : External) (w w' : StreamingZipWriter ext)
    → finish_current_entry ext w ≡ (ok tt, w')
    → length (archive_bytes w'.output.written w'.entries) ≤ w'.output.capacity
    → IsOpenable w'.output.written w'.entries
    → (sink : Sink) × (finish ext w ≡ ok sink)
      × (open_reader sink.written ≡ ok (opened_reader w'.output.written w'.entries))
open_reader-finish ext w w' closed room h = (
  record w'.output { written = archive_bytes w'.output.written w'.entries },
  finish-archive ext w w' closed room,
  open_reader-archive w'.output.written w'.entries h,
)

module _ (ext : External) where
  read_entry-data :
      (entry : s_zip.Format.ZipEntry) (r : StreamingZipReader) {bytes : List ℕ} {file : Cursor}
      → read_entry_data ext r.password entry r.file ≡ ok (bytes, file)
      → read_entry ext entry r ≡ ok (bytes, record r { file = file })
  unfolding read_entry
  read_entry-data entry r e = rw (e, read_entry)

-- The writer with one more entry written, which was started under an encryptor or under none.
module _ (ext : External) (laws : CounterMode ext.crypto) (rng : ℕ → Option (List ℕ))
    (name : List ℕ) (mtime : Option SystemTime) (hint : Option ℕ) (w : StreamingZipWriter ext)
    (encryptor : Option (AesEncryptor ext.crypto)) (encoder : Compressor ext)
    (chunks : List (List ℕ)) where
  abbrev pub started : CurrentEntry ext
  started = opened ext rng name (plain_options mtime) hint w encryptor encoder

  abbrev pub before : List ℕ
  before = before_data ext rng name (plain_options mtime) hint w encryptor encoder

  abbrev pub with_entry : StreamingZipWriter ext
  with_entry = closed_writer ext laws started w before chunks

  abbrev pub new_entry : ZipEntry
  new_entry = closed_entry ext laws started chunks

  abbrev pub new_data : List ℕ
  new_data = all_compressed ext laws started chunks

  -- What is asked of the session: the entry can be opened, its data is not over the reader's limit,
  -- the sink has room, and the directory can be opened.
  pub record Session : Type 0 where
    pub can_open : CanOpen ext rng name (plain_options mtime) hint w encryptor encoder
    pub name_fits : length name < u16_mod
    pub not_large : length new_data ≤ max_entry_alloc
    pub room :
        length (archive_bytes with_entry.output.written with_entry.entries) ≤ w.output.capacity
    pub openable : IsOpenable with_entry.output.written with_entry.entries

  -- What comes of it with a password of the reader: every call succeeds, and the new entry is read
  -- as the bytes of the chunks.
  pub record Succeeds (password : Option (List ℕ)) : Type 0 where
    pub sink : Sink
    pub writes : write_entry ext rng name (plain_options mtime) hint chunks w ≡ (ok tt, with_entry)
    pub finishes : finish ext with_entry ≡ ok sink
    pub opens :
        open_reader sink.written ≡ ok (opened_reader with_entry.output.written with_entry.entries)
    pub position : Cursor
    pub reads :
        read_entry ext
          (seen new_entry)
          (record (opened_reader with_entry.output.written with_entry.entries) {
            password = password;
          })
        ≡ ok (
          flatten chunks,
          record { file = position; entries = map seen with_entry.entries; password = password },
        )

  -- The calls that both kinds of sessions share.
  shared :
      Session
      → InStream ext laws encryptor (length new_data)
      → (write_entry ext rng name (plain_options mtime) hint chunks w ≡ (ok tt, with_entry))
        × (finish ext with_entry
            ≡ ok (record w.output {
              written = archive_bytes with_entry.output.written with_entry.entries;
            }))
        × (open_reader (archive_bytes with_entry.output.written with_entry.entries)
            ≡ ok (opened_reader with_entry.output.written with_entry.entries))
  shared h stream =
      let fits : length with_entry.output.written ≤ w.output.capacity = omega (
        arith,
        h.room,
        length-append with_entry.output.written (
            flatten (central_headers with_entry.entries)
            ++ flatten (
                end_records (length with_entry.entries)
                  (length (flatten (central_headers with_entry.entries)))
                  (length with_entry.output.written))),
      ) in
      (
        write_entry-written ext rng name (plain_options mtime) hint w encryptor encoder laws
            h.can_open chunks stream fits,
        finish-archive ext with_entry with_entry (finish_current_entry-none ext with_entry refl)
            h.room,
        open_reader-archive with_entry.output.written with_entry.entries h.openable,
      )

-- A session without a password: one more entry is written in chunks, and the archive is finished,
-- opened and read. Every call succeeds, and the reader, whatever password it has, gives exactly the
-- bytes of the chunks.
pub plain_session :
    (ext : External) (laws : CounterMode ext.crypto) (codec : CodecLaws ext)
    (hashing : HasherLaws ext.hasher) (rng : ℕ → Option (List ℕ)) (name : List ℕ)
    (mtime : Option SystemTime) (hint : Option ℕ) (w : StreamingZipWriter ext)
    (encoder : Compressor ext) (chunks : List (List ℕ)) (password : Option (List ℕ))
    → Session ext laws rng name mtime hint w none encoder chunks
    → Succeeds ext laws rng name mtime hint w none encoder chunks password
unfolding InStream
plain_session ext laws codec hashing rng name mtime hint w encoder chunks password h =
    let (writes, finishes, opens) =
      shared ext laws rng name mtime hint w none encoder chunks h tt in
    record {
      sink = _;
      writes = writes;
      finishes = finishes;
      opens = opens;
      position = _;
      reads = read_entry-data ext _ _ (
          read_entry_data-plain ext laws codec hashing rng name mtime hint w encoder chunks
            h.can_open.makes_encoder h.name_fits password _ _ h.not_large h.openable.small);
    }

some_if_ok :
    (ext : External) (r : Result (AesEncryptor ext.crypto)) (e : AesEncryptor ext.crypto)
    → elim r as (λ x. Result (Option (AesEncryptor ext.crypto))) [
      | ok e ↦ ok (some e)
      | err x ↦ err x
      | panic ↦ panic
    ]
      ≡ ok (some e)
    → r ≡ ok e
some_if_ok ext (ok x) e h =
    ap (λ o. elim o [ ok y ↦ elim y [ some z ↦ ok z | none ↦ ok e ] | err y ↦ ok e | panic ↦ ok e ])
      h
some_if_ok ext (err x) e h = absurd (cc h)
some_if_ok ext panic e h = absurd (cc h)

-- The encryptor of an entry is a new one under the writer's password.
new_encryptor-made :
    (ext : External) (rng : ℕ → Option (List ℕ)) (password : List ℕ) (strength : AesStrength)
    (e : AesEncryptor ext.crypto)
    → make_encryptor ext rng (some password) strength ≡ ok (some e)
    → new_encryptor ext.crypto rng password strength ≡ ok e
new_encryptor-made ext rng password strength e h =
    some_if_ok ext (new_encryptor ext.crypto rng password strength) e h

in_stream :
    (ext : External) (laws : CounterMode ext.crypto) (rng : ℕ → Option (List ℕ))
    → ((n : ℕ) (salt : List ℕ) → rng n ≡ some salt → length salt ≡ n)
    → (password : List ℕ) (strength : AesStrength) (e : AesEncryptor ext.crypto)
    → new_encryptor ext.crypto rng password strength ≡ ok e
    → (count : ℕ) → count ≤ max_entry_alloc
    → InStream ext laws (some e) count
unfolding InStream
in_stream ext laws rng fills password strength e made count small =
    omega (arith, (new_encryptor-fields ext.crypto rng password strength e fills made).2)

-- A session under a password: the reader that has the same password gives exactly the bytes of the
-- chunks, with the key derived again and the authentication code accepted.
pub sealed_session :
    (ext : External) (laws : CounterMode ext.crypto) (mac : StreamingMac ext.crypto)
    (codec : CodecLaws ext) (rng : ℕ → Option (List ℕ)) (name : List ℕ) (mtime : Option SystemTime)
    (hint : Option ℕ) (w : StreamingZipWriter ext) (e : AesEncryptor ext.crypto)
    (encoder : Compressor ext) (chunks : List (List ℕ)) (password : List ℕ)
    → ((n : ℕ) (salt : List ℕ) → rng n ≡ some salt → length salt ≡ n)
    → w.password ≡ some password
    → All (λ b. b < 256) (new_data ext laws rng name mtime hint w (some e) encoder chunks)
    → Session ext laws rng name mtime hint w (some e) encoder chunks
    → Succeeds ext laws rng name mtime hint w (some e) encoder chunks (some password)
sealed_session ext laws mac codec rng name mtime hint w e encoder chunks password fills keyed
      are_bytes h =
    let made =
      new_encryptor-made ext rng password w.encryption_strength e
        (rw keyed at h.can_open.makes_encryptor) in
    let at_start : InStream ext laws (some e)
        (length (new_data ext laws rng name mtime hint w (some e) encoder chunks)) =
      in_stream ext laws rng fills password w.encryption_strength e made _ h.not_large in
    let (writes, finishes, opens) =
      shared ext laws rng name mtime hint w (some e) encoder chunks h at_start in
    record {
      sink = _;
      writes = writes;
      finishes = finishes;
      opens = opens;
      position = _;
      reads = read_entry-data ext _ _ (
          read_entry_data-sealed ext laws mac codec rng fills name mtime hint w password e made
            encoder h.can_open.makes_encoder h.name_fits chunks _ _ are_bytes h.not_large
            h.openable.small);
    }
