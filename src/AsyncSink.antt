-- ===== src/AsyncSink.antt =====
-- The asynchronous sink that src/seekless.rs and src/async_writer.rs write to, over the `Sink` of
-- the standard library: it knows how much of what was written is flushed, and whether it is shut down.
-- A call stands for the `await` of it until it is ready.
pub mod Room
pub mod Plain
use s_zip.Common.{ℕ, Bool, true, false, List, [], ◌∷◌, ◌++◌, if◌then◌else◌, length, flatten}
use s_zip.Outcome.{Result, ok, err, panic, io, broken_pipe}
use s_zip.Sink.{Exec, ◌>>=◌, ◌>>◌, pure, Sink}
use s_zip.Sink

pub record AsyncSink : Type 0 where
  pub sink : Sink
  pub flushed : ℕ
  pub is_shut : Bool

abbrev pub fresh : ℕ → AsyncSink
fresh capacity = record {
  sink = record { written = []; capacity = capacity };
  flushed = 0;
  is_shut = false;
}

-- `write_all`, which a sink that is shut down refuses.
unfoldable pub write_all : List ℕ → Exec AsyncSink (Unit {0})
write_all bytes s =
    if s.is_shut
    then (err (io broken_pipe), s)
    else (let (r, sink) = Sink.write_all bytes s.sink in (r, record s { sink = sink }))

-- A run of `write_all` calls, each with `?`.
unfoldable pub write_chunks : List (List ℕ) → Exec AsyncSink (Unit {0})
write_chunks [] = pure tt
write_chunks (chunk ∷ chunks) = do write_all chunk; write_chunks chunks

unfoldable pub stream_position : Exec AsyncSink ℕ
stream_position s = (ok (length s.sink.written), s)

unfoldable pub flush : Exec AsyncSink (Unit {0})
flush s =
    if s.is_shut
    then (err (io broken_pipe), s)
    else (ok tt, record s { flushed = length s.sink.written })

unfoldable pub shutdown : Exec AsyncSink (Unit {0})
shutdown s = (ok tt, record s { flushed = length s.sink.written; is_shut = true })
