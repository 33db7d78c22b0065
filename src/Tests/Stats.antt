-- ===== src/Tests/Stats.antt =====
-- `finish_with_stats` of src/writer.rs on a writer with an open entry.
use s_zip.Common.{ℕ, ◌≡◌, List, [], ◌∷◌, Option, none}
use s_zip.Writer.{StreamingZipWriter, from_writer, add_entry, finish, finish_with_stats}
use s_zip.Writer.Stats.{sink_of, finish_with_stats-finish}
use s_zip.Tests.Toy.{toy}

abbrev no_rng : ℕ → Option (List ℕ)
no_rng n = none

abbrev writing : StreamingZipWriter toy
writing =
    (add_entry toy no_rng (b'a' ∷ []) (1 ∷ 2 ∷ [])
      (from_writer toy (record { written = []; capacity = 500 }))).1

finish_with_stats-finish_example : sink_of (finish_with_stats toy writing) ≡ finish toy writing
finish_with_stats-finish_example = finish_with_stats-finish toy writing
