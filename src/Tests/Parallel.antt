-- ===== src/Tests/Parallel.antt =====
-- The tasks and the checksum of src/parallel.rs on concrete entries.
use s_zip.Common.{ℕ, ◌+◌, ◌*◌, ◌≤◌, ◌<◌, ◌≡◌, ◌⊎◌, refl, List, [], ◌∷◌, ◌++◌, arith, length}
use s_zip.Outcome.{Result, ok}
use s_zip.Parallel.{
  ParallelEntry, CompressedEntry, Task, queued, sent, Pool, spawned, outcome, Step, acquire,
  compressed, send, receive, Steps, here, next, IsOver,
}
use s_zip.Parallel.Order.{compress_all, outcome-compress_all}
use s_zip.Parallel.Bounds.{total, at_work, has_sent, spawned-IsBounded}
use s_zip.Parallel.Progress.{measure, IsOver-or_step, spawned-steps}
use s_zip.Parallel.Crc.{fill, take_bytes, read, run_calls, new_crc_reader, finalize}
use s_zip.Parallel.Crc.Passed.{finalize-run_calls}
use s_zip.Tests.Toy.{toy_hasher, toy_hasher_laws}

abbrev first : ParallelEntry
first = record { name = 1 ∷ []; path = 1 ∷ [] }

abbrev second : ParallelEntry
second = record { name = 2 ∷ []; path = 2 ∷ [] }

abbrev made : ParallelEntry → CompressedEntry
made e = record { name = e.name; content = e.path; uncompressed_size = 1; crc32 = 0 }

abbrev compress : ParallelEntry → Result CompressedEntry
compress e = ok (made e)

abbrev entries : List ParallelEntry
entries = first ∷ second ∷ []

abbrev one : Task
one = record { entry = first; stage = queued }

abbrev over : Pool
over = record {
  tasks =
      record { entry = first; stage = sent (made first) }
      ∷ record { entry = second; stage = sent (made second) }
      ∷ [];
  channel = [];
  results = (1, made second) ∷ (0, made first) ∷ [];
}

-- The second task ends first.
second_first : Steps compress 1 (spawned entries) 8 over
second_first =
    next
      (next
        (next
          (next
            (next
              (next
                (next (next here (acquire (one ∷ []) second [] refl (omega arith)))
                  (compressed (one ∷ []) second [] (made second) refl refl))
                (send (one ∷ []) second [] (made second) refl (omega arith)))
              (receive (1, made second) [] refl))
            (acquire [] first (record { entry = second; stage = sent (made second) } ∷ []) refl
              (omega arith)))
          (compressed [] first (record { entry = second; stage = sent (made second) } ∷ [])
            (made first) refl refl))
        (send [] first (record { entry = second; stage = sent (made second) } ∷ []) (made first)
          refl (omega arith)))
      (receive (0, made first) [] refl)

outcome-compress_all_example : outcome over ≡ compress_all compress entries
outcome-compress_all_example =
    outcome-compress_all compress 1 entries 8 over second_first ((tt, (tt, tt)), refl)

spawned-IsBounded_example :
    (total at_work over.tasks ≤ 1)
    × (total at_work over.tasks + length over.channel ≤ 2 * 1)
    × (total has_sent over.tasks ≡ length over.channel + length over.results)
spawned-IsBounded_example = spawned-IsBounded compress 1 entries 8 over second_first

spawned-steps_example : 8 ≤ 4 * length entries
spawned-steps_example = spawned-steps compress 1 entries 8 over second_first

IsOver-or_step_example :
    IsOver (spawned entries)
    ⊎ ((q : Pool) × Step compress 1 (spawned entries) q × (measure q < measure (spawned entries)))
IsOver-or_step_example = IsOver-or_step compress 1 (spawned entries) (omega arith)

finalize-run_calls_example :
    let r =
      run_calls toy_hasher
        (fill 2 ∷ take_bytes 9 1 ∷ read 4 5 ∷ [])
        (new_crc_reader toy_hasher (5 ∷ 6 ∷ 7 ∷ [])) in
    (passed : List ℕ) × (passed ++ (r.buffered ++ r.unread) ≡ 5 ∷ 6 ∷ 7 ∷ [])
    × (finalize toy_hasher r ≡ toy_hasher.hash passed)
finalize-run_calls_example =
    finalize-run_calls toy_hasher toy_hasher_laws (5 ∷ 6 ∷ 7 ∷ [])
      (fill 2 ∷ take_bytes 9 1 ∷ read 4 5 ∷ [])
