-- ===== src/AsyncSink/Room.antt =====
-- Writes into an asynchronous sink that is not shut down and has room for all of them.
use s_zip.Common.{
  ℕ, ◌+◌, ◌≤◌, ◌≡◌, ◌∙◌, false, List, [], ◌∷◌, ◌++◌, arith, length, flatten, append-nil,
  append_assoc, length-append,
}
use s_zip.Outcome.{ok}
use s_zip.Sink.{◌>>=◌, pure}
use s_zip.Sink.Chunks.{write_all_room}
use s_zip.AsyncSink.{AsyncSink, write_all, write_chunks, flush}

-- The sink with more bytes behind what it has.
abbrev pub with_bytes : AsyncSink → List ℕ → AsyncSink
with_bytes s bytes = record s { sink = record s.sink { written = s.sink.written ++ bytes } }

pub write_all_open :
    (bytes : List ℕ) (s : AsyncSink)
    → s.is_shut ≡ false
    → length s.sink.written + length bytes ≤ s.sink.capacity
    → write_all bytes s ≡ (ok tt, with_bytes s bytes)
unfolding write_all
write_all_open bytes s is_open room = rw (is_open, write_all_room bytes s.sink room)

-- The sink gets the bytes of all chunks.
pub write_chunks_open :
    (chunks : List (List ℕ)) (s : AsyncSink)
    → s.is_shut ≡ false
    → length s.sink.written + length (flatten chunks) ≤ s.sink.capacity
    → write_chunks chunks s ≡ (ok tt, with_bytes s (flatten chunks))
unfolding write_chunks pure ◌>>=◌
write_chunks_open [] s is_open room = rw append-nil
write_chunks_open (x ∷ xs) s is_open room =
    let sizes = length-append x (flatten xs) in
    rw (write_all_open x s is_open (omega arith), ◌>>=◌)
      (write_chunks_open xs (with_bytes s x) is_open (omega (arith, length-append s.sink.written x))
        ∙ rw append_assoc)

pub flush_open :
    (s : AsyncSink)
    → s.is_shut ≡ false
    → flush s ≡ (ok tt, record s { flushed = length s.sink.written })
unfolding flush
flush_open s is_open = rw is_open
