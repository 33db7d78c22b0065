-- ===== src/Sink/Chunks.antt =====
-- A run of writes into a sink with room for all of them.
use s_zip.Common.{
  ℕ, ◌+◌, ◌≤◌, ◌≡◌, ◌∙◌, List, [], ◌∷◌, ◌++◌, arith, length, flatten, append-nil, append_assoc,
  length-append, leb-true,
}
use s_zip.Outcome.{ok}
use s_zip.Sink.{Exec, Sink, write_all, write_chunks, pure, ◌>>=◌}

pub write_all_room :
    (bytes : List ℕ) (s : Sink)
    → length s.written + length bytes ≤ s.capacity
    → write_all bytes s ≡ (ok tt, record s { written = s.written ++ bytes })
unfolding write_all
write_all_room bytes s h = rw (
    leb-true (length (s.written ++ bytes)) s.capacity
      (omega (arith, length-append s.written bytes)))

-- The sink gets the bytes of all chunks.
pub write_chunks_room :
    (chunks : List (List ℕ)) (s : Sink)
    → length s.written + length (flatten chunks) ≤ s.capacity
    → write_chunks chunks s ≡ (ok tt, record s { written = s.written ++ flatten chunks })
unfolding write_chunks pure ◌>>=◌
write_chunks_room [] s h = rw append-nil
write_chunks_room (x ∷ xs) s h =
    let sizes = length-append x (flatten xs) in
    rw (write_all_room x s (omega arith), ◌>>=◌)
      (write_chunks_room xs (record s { written = s.written ++ x })
          (omega (arith, length-append s.written x))
        ∙ rw append_assoc)

module _ {S A B : Type 0} where
  -- A chain goes on where its first action succeeds.
  pub bind_ok :
      (m : Exec S A) (f : A → Exec S B) {s s' : S} {a : A} → m s ≡ (ok a, s') → (m >>= f) s ≡ f a s'
  unfolding ◌>>=◌
  bind_ok m f e = rw (e, ◌>>=◌)
