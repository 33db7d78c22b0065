-- ===== src/AsyncWriter/Finish.antt =====
-- What `finish` of src/async_writer.rs leaves in its sink, opened by src/reader.rs.
use s_zip.Common.{
  ℕ, ◌+◌, ◌-◌, ◌≤◌, ◌≡◌, refl, ap, ◌∙◌, true, false, List, ◌++◌, none, arith, length, flatten, map,
  All, append_assoc, length-append,
}
use s_zip.Outcome.{Result, ok, err, panic}
use s_zip.Central
use s_zip.Entry.{StreamingZipReader, open_reader}
use s_zip.RoundTrip.Archive.{flatten-end_records}
use s_zip.RoundTrip.Opening.{Opens, file_of, end_bytes, read_central_directory_lem}
use s_zip.Sink.{Exec, gets}
use s_zip.Sink.Chunks.{bind_ok}
use s_zip.AsyncSink.{AsyncSink, write_chunks, stream_position, flush, shutdown}
use s_zip.AsyncSink.Room.{with_bytes, write_chunks_open, flush_open}
use s_zip.AsyncWriter.Compress.{AsyncExternal}
use s_zip.AsyncWriter.{AsyncStreamingZipWriter, on_output, finish_current_entry}
use s_zip.AsyncWriter.Closing.{
  size_or_placeholder, zip64_end_records, end_record, end_records, central_headers, write_directory,
  finish_all, finish,
}
use s_zip.AsyncWriter.Directory.{IsReadable, seen, Runs-central_headers}

module _ (ext : AsyncExternal) where
  flatten_end : (n s o : ℕ) → flatten (end_records ext n s o) ≡ end_bytes 20 0 n s o
  unfolding end_records zip64_end_records end_record size_or_placeholder Central.end_records
      Central.zip64_end_records Central.end_record Central.size_or_placeholder Central.need_zip64
  flatten_end n s o = flatten-end_records n s o

  on_output_ok :
      {A : Type 0} (m : Exec AsyncSink A) (w : AsyncStreamingZipWriter ext) {a : A}
      {out : AsyncSink}
      → m w.output ≡ (ok a, out)
      → on_output ext m w ≡ (ok a, record w { output = out })
  unfolding on_output
  on_output_ok m w e = λ i. ((e i).0, record w { output = (e i).1 })

  finish_ok :
      (w w' : AsyncStreamingZipWriter ext)
      → finish_all ext w ≡ (ok tt, w')
      → finish ext w ≡ ok w'.output
  unfolding finish
  finish_ok w w' e = ap (λ (r : Result (Unit {0}) × AsyncStreamingZipWriter ext). given r.0 r.1) e
    where
      given : Result (Unit {0}) → AsyncStreamingZipWriter ext → Result AsyncSink
      given r v = elim r [ ok u ↦ ok v.output | err e ↦ err e | panic ↦ panic ]

  module _ (w : AsyncStreamingZipWriter ext) where
    abbrev o : ℕ
    o = length w.output.sink.written

    abbrev n : ℕ
    n = length w.entries

    abbrev pub dir : List ℕ
    dir = flatten (central_headers ext w.entries)

    abbrev s : ℕ
    s = length dir

    abbrev pub archive : List ℕ
    archive = file_of 20 0 w.output.sink.written dir n

    abbrev pub finished : AsyncSink
    finished = record {
      sink = record w.output.sink { written = archive };
      flushed = length archive;
      is_shut = true;
    }

    sizes : length archive ≡ o + (s + length (end_bytes 20 0 n s o))
    sizes = omega (
      arith,
      length-append w.output.sink.written (dir ++ end_bytes 20 0 n s o),
      length-append dir (end_bytes 20 0 n s o),
    )

    module _ (is_open : w.output.is_shut ≡ false)
        (room : length archive ≤ w.output.sink.capacity) where
      abbrev after_dir : AsyncStreamingZipWriter ext
      after_dir = record w { output = with_bytes w.output dir }

      abbrev end : List ℕ
      end = end_bytes 20 0 n s o

      size_same : length (w.output.sink.written ++ dir) - o ≡ s
      size_same = omega (arith, length-append w.output.sink.written dir)

      end_same : flatten (end_records ext n (length (w.output.sink.written ++ dir) - o) o) ≡ end
      end_same = (λ i. flatten (end_records ext n (size_same i) o)) ∙ flatten_end n s o

      end_written :
          write_chunks
            (end_records ext n (length (w.output.sink.written ++ dir) - o) o)
            after_dir.output
          ≡ (ok tt, with_bytes after_dir.output end)
      end_written =
          write_chunks_open (end_records ext n (length (w.output.sink.written ++ dir) - o) o)
            after_dir.output is_open
            (omega
              (arith, sizes, room, ap length end_same, length-append w.output.sink.written dir))
          ∙ (λ i. (ok tt, with_bytes after_dir.output (end_same i)))

      abbrev full : AsyncSink
      full = with_bytes after_dir.output end

      write_directory-written : write_directory ext w ≡ (ok tt, record w { output = finished })
      unfolding write_directory gets stream_position shutdown
      write_directory-written =
          bind_ok _ _ (on_output_ok stream_position w refl)
          ∙ bind_ok _ _ refl
          ∙ bind_ok _ _ (
              on_output_ok (write_chunks (central_headers ext w.entries)) w (
                write_chunks_open (central_headers ext w.entries) w.output is_open
                  (omega (arith, sizes, room))))
          ∙ bind_ok _ _ (on_output_ok stream_position after_dir refl)
          ∙ bind_ok _ _ (
              on_output_ok
                (write_chunks (end_records ext n (length (w.output.sink.written ++ dir) - o) o))
                after_dir end_written)
          ∙ bind_ok _ _ (on_output_ok flush (record w { output = full }) (flush_open full is_open))
          ∙ on_output_ok shutdown
              (record w { output = record full { flushed = length full.sink.written } }) refl
          ∙ (λ i. (
            ok tt,
            record w {
              output = record {
                sink = record w.output.sink {
                  written = append_assoc w.output.sink.written dir end i;
                };
                flushed = length (append_assoc w.output.sink.written dir end i);
                is_shut = true;
              };
            },
          ))

  -- The reader of an archive.
  abbrev pub reader : AsyncStreamingZipWriter ext → StreamingZipReader
  reader w = record {
    file = record { bytes = archive w; pos = length w.output.sink.written + length (dir w) };
    entries = map seen w.entries;
    password = none;
  }

  -- What the asynchronous `finish` leaves is complete and is opened: once the open entry is closed, where
  -- the sink has room and the directory can be opened, `finish` gives the sink back with all its
  -- bytes flushed and shut down, so that an upload behind it is completed, and the reader opens
  -- the bytes with the entries of the writer, in their order, encrypted entries of any size among
  -- them.
  pub open_reader-async_finish :
      (w w' : AsyncStreamingZipWriter ext)
      → finish_current_entry ext w ≡ (ok tt, w')
      → w'.output.is_shut ≡ false
      → length (archive w') ≤ w'.output.sink.capacity
      → All IsReadable w'.entries
      → Opens 20 0 w'.output.sink.written (dir w') (length w'.entries)
      → (sink : AsyncSink) × (finish ext w ≡ ok sink)
        × (sink.is_shut ≡ true)
        × (sink.flushed ≡ length sink.sink.written)
        × (open_reader sink.sink.written ≡ ok (reader w'))
  unfolding finish_all open_reader
  open_reader-async_finish w w' closed is_open room readable opens = (
    finished w',
    finish_ok w (record w' { output = finished w' })
        (bind_ok _ _ closed ∙ write_directory-written w' is_open room),
    refl,
    refl,
    rw (
      read_central_directory_lem 20 0 w'.output.sink.written (dir w') (length w'.entries) opens
          (Runs-central_headers ext w'.entries readable) 0,
      open_reader,
    ),
  )
