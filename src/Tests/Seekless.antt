-- ===== src/Tests/Seekless.antt =====
-- The writer of src/seekless.rs on concrete files.
use s_zip.Common.{
  ℕ, ◌≡◌, refl, ap, List, [], ◌∷◌, Option, none, some, arith, append-nil, length, bytes_eq,
}
use s_zip.Outcome.{ok}
use s_zip.Utf8.{empty, one}
use s_zip.External.{WholeLaws, encode_whole}
use s_zip.Options.{default_options, msdos_datetime, unix_extra_field, external_attrs}
use s_zip.Compress.{deflate, to_zip_method}
use s_zip.AsyncSink.{AsyncSink}
use s_zip.Entry.{open_reader}
use s_zip.Seekless.{
  with_method, compress, prepared_entry, local_header, local_extra, central_extra, local_offset,
  central_header,
}
use s_zip.Seekless.Directory.{directory_bytes}
use s_zip.Seekless.Added.{File, parts, entries_at, write_archive}
use s_zip.Seekless.Session.{start, reader, ReadsBack, CanArchive, write_archive-read_entry}
use s_zip.Tests.Absent.{absent, absent-not}
use s_zip.Tests.Toy.{toy, toy_hasher_laws}

abbrev toy_encode_all : ℕ → List ℕ → Option (List ℕ)
toy_encode_all level bytes = some bytes

toy_whole : WholeLaws toy toy_encode_all
unfolding encode_whole
toy_whole = record {
  inflate-whole = λ level bytes. ap ok (append-nil bytes);
  unzstd-all = λ level bytes out e. cc;
}

abbrev same : List ℕ → List ℕ
same bytes = bytes

abbrev files : List File
files =
    record { name = b'a' ∷ []; bytes = 104 ∷ 105 ∷ []; options = default_options }
    ∷ record {
      name = b'b' ∷ [];
      bytes = 33 ∷ [];
      options = record { mtime = none; unix_mode = some 0o644 };
    }
    ∷ []

files-CanArchive : CanArchive toy toy_encode_all deflate 6 1000 same files
unfolding with_method compress encode_whole to_zip_method parts entries_at directory_bytes
    prepared_entry local_header local_extra central_extra local_offset central_header msdos_datetime
    unix_extra_field external_attrs absent bytes_eq
files-CanArchive = record {
  files = (
    record {
      utf8 = one (omega arith) empty;
      name_fits = omega arith;
      in_memory = omega arith;
      not_large = omega arith;
    },
    (
      record {
        utf8 = one (omega arith) empty;
        name_fits = omega arith;
        in_memory = omega arith;
        not_large = omega arith;
      },
      tt,
    ),
  );
  compressed = (refl, (refl, tt));
  plain = ((λ e. omega arith), ((λ e. omega arith), tt));
  fits = omega arith;
  opens = record {
    count_plain = λ e. omega arith;
    size_plain = λ e. omega arith;
    offset_plain = λ e. omega arith;
    allocates = omega arith;
    small = omega arith;
    record_alone = λ j lo hi. absent-not _ 5 6 19 refl j lo (omega arith);
    locator_alone = λ j lo hi. absent-not _ 6 7 39 refl j lo (omega arith);
  };
}

write_archive-read_entry_example :
    (sink : AsyncSink) × (write_archive toy toy_encode_all files
        (start toy toy_encode_all deflate 6 1000 same)
      ≡ ok sink)
    × (sink.flushed ≡ length sink.sink.written)
    × (open_reader sink.sink.written ≡ ok (reader toy toy_encode_all deflate 6 1000 same files))
    × ReadsBack toy toy_encode_all deflate 6 1000 same
        (reader toy toy_encode_all deflate 6 1000 same files)
        0
        files
write_archive-read_entry_example =
    write_archive-read_entry toy toy_encode_all toy_hasher_laws toy_whole deflate 6 1000 same files
      files-CanArchive
