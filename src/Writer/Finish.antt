-- ===== src/Writer/Finish.antt =====
-- What `finish` of src/writer.rs leaves in the sink, where the sink has room.
use s_zip.Common.{
  ℕ, ◌+◌, ◌-◌, ◌≤◌, ◌≡◌, refl, ap, ◌∙◌, List, ◌++◌, none, arith, length, flatten, append_assoc,
  length-append,
}
use s_zip.Outcome.{ok}
use s_zip.External.{External}
use s_zip.Central.{ZipEntry, central_headers, end_records}
use s_zip.Sink.{Exec, Sink, pure, gets, write_chunks, stream_position}
use s_zip.Sink.Chunks.{write_chunks_room, bind_ok}
use s_zip.Writer.{
  StreamingZipWriter, on_output, take_current, finish_current_entry, write_directory, finish_all,
  finish,
}

-- The bytes of an archive, what stands before the central directory given.
abbrev pub archive_bytes : List ℕ → List ZipEntry → List ℕ
archive_bytes front es =
    front
    ++ (flatten (central_headers es)
        ++ flatten (end_records (length es) (length (flatten (central_headers es))) (length front)))

module _ (ext : External) where
  pub on_output_ok :
      {A : Type 0} (m : Exec Sink A) (w : StreamingZipWriter ext) {a : A} {out : Sink}
      → m w.output ≡ (ok a, out)
      → on_output ext m w ≡ (ok a, record w { output = out })
  unfolding on_output
  on_output_ok m w e = rw (e, on_output)

  -- With no entry open there is nothing to close.
  pub finish_current_entry-none :
      (w : StreamingZipWriter ext)
      → w.current_entry ≡ none
      → finish_current_entry ext w ≡ (ok tt, record w { current_entry = none })
  unfolding finish_current_entry take_current pure
  finish_current_entry-none w e =
      bind_ok _ _ (ap (λ o. (ok o, record w { current_entry = none })) e)

  module _ (w : StreamingZipWriter ext)
      (room : length (archive_bytes w.output.written w.entries) ≤ w.output.capacity) where
    abbrev dir : List ℕ
    dir = flatten (central_headers w.entries)

    abbrev end : List ℕ
    end = flatten (end_records (length w.entries) (length dir) (length w.output.written))

    abbrev then_dir : Sink
    then_dir = record w.output { written = w.output.written ++ dir }

    sizes :
        length (archive_bytes w.output.written w.entries)
        ≡ length w.output.written + (length dir + length end)
    sizes = omega (arith, length-append w.output.written (dir ++ end), length-append dir end)

    end_chunks : List (List ℕ)
    end_chunks =
        end_records (length w.entries) (length (w.output.written ++ dir) - length w.output.written)
          (length w.output.written)

    end_chunks_lem : flatten end_chunks ≡ end
    unfolding end_chunks
    end_chunks_lem =
        let size : length (w.output.written ++ dir) - length w.output.written ≡ length dir =
          omega (arith, length-append w.output.written dir) in
        rw size

    -- What is written once no entry is open.
    write_directory_written : write_directory ext w ≡ (
      ok tt,
      record w { output = record w.output { written = archive_bytes w.output.written w.entries } },
    )
    unfolding write_directory gets stream_position end_chunks
    write_directory_written =
        bind_ok _ _ (on_output_ok stream_position w refl)
        ∙ bind_ok _ _ refl
        ∙ bind_ok _ _ (
            on_output_ok (write_chunks (central_headers w.entries)) w
              (write_chunks_room (central_headers w.entries) w.output (omega (arith, sizes))))
        ∙ bind_ok _ _ (on_output_ok stream_position (record w { output = then_dir }) refl)
        ∙ on_output_ok (write_chunks end_chunks) (record w { output = then_dir })
            (write_chunks_room end_chunks then_dir
              (omega (arith, sizes, ap length end_chunks_lem, length-append w.output.written dir)))
        ∙ ap (λ (t : List ℕ). (ok tt, record w { output = record w.output { written = t } }))
            (append_assoc w.output.written dir (flatten end_chunks)
              ∙ ap (λ (t : List ℕ). w.output.written ++ (dir ++ t)) end_chunks_lem)

-- Once the entry that is open is closed and there is room for the rest, `finish` gives back the
-- sink with the bytes of the archive: what was written, the central directory of all entries and the
-- end records.
pub finish-archive :
    (ext : External) (w w' : StreamingZipWriter ext)
    → finish_current_entry ext w ≡ (ok tt, w')
    → length (archive_bytes w'.output.written w'.entries) ≤ w'.output.capacity
    → finish ext w ≡ ok (record w'.output { written = archive_bytes w'.output.written w'.entries })
unfolding finish finish_all
finish-archive ext w w' closed room =
    let all : finish_all ext w ≡ (
      ok tt,
      record w' {
        output = record w'.output { written = archive_bytes w'.output.written w'.entries };
      },
    ) =
      bind_ok _ _ closed ∙ write_directory_written ext w' room in
    rw (all, finish, all)
