-- ===== src/Tests/Async.antt =====
-- The asynchronous writer of src/async_writer.rs on concrete inputs.
use s_zip.Common.{
  ℕ, ◌≡◌, ◌≤◌, refl, true, false, List, [], ◌∷◌, Option, none, some, arith, All, inl, replicate,
  length, bytes_eq,
}
use s_zip.Outcome.{ok}
use s_zip.Compress.{deflate}
use s_zip.Utf8.{empty, one}
use s_zip.Sink
use s_zip.Sink.{◌>>=◌}
use s_zip.AsyncSink.{AsyncSink, fresh}
use s_zip.Entry.{open_reader}
use s_zip.RoundTrip.Opening.{Opens}
use s_zip.AsyncWriter.Compress.{AsyncExternal}
use s_zip.AsyncWriter.{AsyncStreamingZipWriter, from_writer, finish_current_entry}
use s_zip.AsyncWriter.Closing.{
  central_headers, central_header, central_extra, central_aes_extra, central_zip64_extra,
  zip64_data, size_or_placeholder, finish,
}
use s_zip.AsyncWriter.Directory.{IsReadable}
use s_zip.AsyncWriter.Finish.{dir, archive, reader, open_reader-async_finish}
use s_zip.AsyncWriter.Sync.{SyncEncoders, SameEncoders, sync}
use s_zip.AsyncWriter.Simulated.{Good}
use s_zip.AsyncWriter.Alike.{
  Call, password, start, write, close, run_all, async_call, sync_call, Takes, run_all-sync,
}
use s_zip.Tests.Absent.{absent, absent-not}
use s_zip.Tests.Toy.{toy_crypto, toy_hasher, toy_encoder}

abbrev pub toy_async : AsyncExternal
toy_async = record {
  crypto = toy_crypto;
  hasher = toy_hasher;
  deflate = toy_encoder;
  deflate_with = λ level. tt;
  inflate = λ bytes. ok bytes;
  zstd = toy_encoder;
  zstd_with = λ level. tt;
  unzstd = λ bytes. ok bytes;
}

abbrev salt : ℕ → Option (List ℕ)
salt n = some (replicate n 9)

abbrev toy_sync : SyncEncoders toy_async
toy_sync = record { deflate_new = λ level. tt; zstd_new = λ level. some tt }

toy_alike : SameEncoders toy_async toy_sync
toy_alike = record { deflate_same = λ level. refl; zstd_same = λ level s e. refl }

-- A plain entry, an encrypted one, and a sink that gets too small for it.
abbrev calls : List Call
calls =
    write (1 ∷ [])
    ∷ start salt (b'a' ∷ []) none
    ∷ write (104 ∷ 105 ∷ [])
    ∷ password (b'p' ∷ [])
    ∷ start salt (b'b' ∷ []) none
    ∷ write (33 ∷ [])
    ∷ close
    ∷ []

abbrev async_writer : AsyncStreamingZipWriter toy_async
async_writer = from_writer toy_async (fresh 120)

calls-Takes : All (Takes toy_async toy_sync deflate) calls
calls-Takes = (tt, (inl refl, (tt, (tt, (inl refl, (tt, (tt, tt)))))))

async_writer-Good : Good toy_async toy_sync deflate async_writer
unfolding from_writer
async_writer-Good = record { is_open = refl; within = omega arith; method = refl; made = tt }

run_all-sync_example :
    run_all (sync_call toy_async toy_sync) calls (sync toy_async toy_sync async_writer) ≡ (
      (run_all (async_call toy_async toy_sync) calls async_writer).0,
      sync toy_async toy_sync (run_all (async_call toy_async toy_sync) calls async_writer).1,
    )
run_all-sync_example =
    run_all-sync toy_async toy_sync toy_alike deflate calls async_writer calls-Takes
      async_writer-Good

abbrev sum_bytes : List ℕ
sum_bytes = replicate 40 7

-- A writer with a plain entry and an encrypted one behind it.
abbrev two_entries : AsyncStreamingZipWriter toy_async
two_entries = record async_writer {
  output = record {
    sink = record { written = sum_bytes; capacity = 1000 };
    flushed = 0;
    is_shut = false;
  };
  entries =
      record {
        name = b'a' ∷ [];
        local_header_offset = 0;
        crc32 = 5;
        compressed_size = 2;
        uncompressed_size = 2;
        compression_method = 8;
        encryption_strength = none;
      }
      ∷ record {
        name = b'b' ∷ [];
        local_header_offset = 20;
        crc32 = 0;
        compressed_size = 9;
        uncompressed_size = 1;
        compression_method = 8;
        encryption_strength = some 3;
      }
      ∷ [];
}

two_entries-IsReadable : All IsReadable two_entries.entries
two_entries-IsReadable = (
  record {
    utf8 = one (omega arith) empty;
    name_fits = omega arith;
    method_fits = omega arith;
    crc_fits = omega arith;
    compressed_fits = omega arith;
    uncompressed_fits = omega arith;
    offset_fits = omega arith;
    compressed_plain = λ e. omega arith;
    uncompressed_plain = λ e. omega arith;
    offset_plain = λ e. omega arith;
  },
  (
    record {
      utf8 = one (omega arith) empty;
      name_fits = omega arith;
      method_fits = omega arith;
      crc_fits = omega arith;
      compressed_fits = omega arith;
      uncompressed_fits = omega arith;
      offset_fits = omega arith;
      compressed_plain = λ e. omega arith;
      uncompressed_plain = λ e. omega arith;
      offset_plain = λ e. omega arith;
    },
    tt,
  ),
)

two_entries-Opens : Opens 20 0 sum_bytes (dir toy_async two_entries) 2
unfolding central_headers central_header central_extra central_aes_extra central_zip64_extra
    zip64_data size_or_placeholder from_writer absent bytes_eq
two_entries-Opens = record {
  count_plain = λ e. omega arith;
  size_plain = λ e. omega arith;
  offset_plain = λ e. omega arith;
  allocates = omega arith;
  small = omega arith;
  record_alone = λ j lo hi. absent-not _ 5 6 19 refl j lo (omega arith);
  locator_alone = λ j lo hi. absent-not _ 6 7 39 refl j lo (omega arith);
}

two_entries-fits : length (archive toy_async two_entries) ≤ 1000
unfolding central_headers central_header central_extra central_aes_extra central_zip64_extra
    zip64_data size_or_placeholder from_writer
two_entries-fits = omega arith

two_entries-closed : finish_current_entry toy_async two_entries ≡ (ok tt, two_entries)
unfolding finish_current_entry from_writer ◌>>=◌ Sink.pure
two_entries-closed = refl

open_reader-async_finish_example :
    (sink : AsyncSink) × (finish toy_async two_entries ≡ ok sink)
    × (sink.is_shut ≡ true)
    × (sink.flushed ≡ length sink.sink.written)
    × (open_reader sink.sink.written ≡ ok (reader toy_async two_entries))
open_reader-async_finish_example =
    open_reader-async_finish toy_async two_entries two_entries two_entries-closed refl
      two_entries-fits two_entries-IsReadable two_entries-Opens
