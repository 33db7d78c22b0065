-- ===== src/AsyncSink/Plain.antt =====
-- An asynchronous sink that is not shut down takes what the sink below it takes.
use s_zip.Common.{ℕ, ◌≡◌, refl, ◌∙◌, false, List, [], ◌∷◌}
use s_zip.Outcome.{Result, ok, err, panic}
use s_zip.Sink.{Exec, Sink, ◌>>=◌, continue, pure}
use s_zip.Sink
use s_zip.AsyncSink.{AsyncSink, write_all, write_chunks}

abbrev pub around : AsyncSink → Result (Unit {0}) × Sink → Result (Unit {0}) × AsyncSink
around s (r, sink) = (r, record s { sink = sink })

write_all-plain :
    (bytes : List ℕ) (s : AsyncSink)
    → s.is_shut ≡ false
    → write_all bytes s ≡ around s (Sink.write_all bytes s.sink)
unfolding write_all
write_all-plain bytes s is_open = rw is_open

pub write_chunks-plain :
    (chunks : List (List ℕ)) (s : AsyncSink)
    → s.is_shut ≡ false
    → write_chunks chunks s ≡ around s (Sink.write_chunks chunks s.sink)
unfolding write_chunks pure ◌>>=◌ Sink.write_chunks
write_chunks-plain [] s is_open = refl
write_chunks-plain (x ∷ xs) s is_open =
    (λ i.
      continue (write_all-plain x s is_open i).0 (λ u. write_chunks xs)
        (write_all-plain x s is_open i).1)
    ∙ go (λ sink. write_chunks-plain xs (record s { sink = sink }) is_open)
        (Sink.write_all x s.sink).0 (Sink.write_all x s.sink).1
  where
    go :
        ((sink : Sink)
          → write_chunks xs (record s { sink = sink }) ≡ around s (Sink.write_chunks xs sink))
        → (r : Result (Unit {0})) (sink : Sink)
        → continue r (λ u. write_chunks xs) (record s { sink = sink })
          ≡ around s (continue r (λ u. Sink.write_chunks xs) sink)
    go rest (ok u) sink = rest sink
    go rest (err e) sink = refl
    go rest panic sink = refl
