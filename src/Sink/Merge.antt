-- ===== src/Sink/Merge.antt =====
-- Runs of `write_all` that differ in how the bytes are cut, on a sink that holds no more than it has
-- room for: they do the same, also where the room runs out.
use s_zip.Common.{
  ℕ, ◌≤◌, ◌<◌, ◌≡◌, refl, sym, ap, ◌∙◌, inl, inr, false, List, [], ◌∷◌, ◌++◌, arith, length, leb,
  take, take-append_le, if◌then◌else◌, Bool-cases, append-nil, append_assoc, length-append,
  leb-true, leb-false,
}
use s_zip.Outcome.{Result, ok, err, io, storage_full}
use s_zip.Sink.{Sink, continue, write_all, write_chunks, ◌>>=◌}

abbrev pub IsWithin : Sink → Type 0
IsWithin s = (length s.written ≤ s.capacity)

-- What one write does, by the bytes that the sink is to hold.
abbrev write_to : List ℕ → Sink → Result (Unit {0}) × Sink
write_to all s =
    if leb (length all) s.capacity
    then (ok tt, record s { written = all })
    else (err (io storage_full), record s { written = take s.capacity all })

abbrev then_chunks : List (List ℕ) → Result (Unit {0}) × Sink → Result (Unit {0}) × Sink
then_chunks cs r = continue r.0 (λ u. write_chunks cs) r.1

write_chunks-cons :
    (a : List ℕ) (cs : List (List ℕ)) (s : Sink)
    → write_chunks (a ∷ cs) s ≡ then_chunks cs (write_to (s.written ++ a) s)
unfolding write_chunks ◌>>=◌ write_all
write_chunks-cons a cs s = refl

-- Two writes are one.
pub merge :
    (a b : List ℕ) (cs : List (List ℕ)) (s : Sink)
    → write_chunks (a ∷ b ∷ cs) s ≡ write_chunks ((a ++ b) ∷ cs) s
merge a b cs s = write_chunks-cons a (b ∷ cs) s ∙ both ∙ sym (write_chunks-cons (a ++ b) cs s)
  where
    both :
        then_chunks (b ∷ cs) (write_to (s.written ++ a) s)
        ≡ then_chunks cs (write_to (s.written ++ (a ++ b)) s)
    both = elim (Bool-cases (leb (length (s.written ++ a)) s.capacity)) [
      | inl e ↦ rw e (
          write_chunks-cons b cs (record s { written = s.written ++ a })
          ∙ ap (λ (t : List ℕ). then_chunks cs (write_to t s)) (append_assoc s.written a b))
      | inr e ↦
          let long : leb (length (s.written ++ (a ++ b))) s.capacity ≡ false = leb-false _ _ (
            omega (
              arith,
              over e,
              length-append (s.written ++ a) b,
              ap length (append_assoc s.written a b),
            )) in
          rw (e, long)
            (ap (λ (t : List ℕ). (err (io storage_full), record s { written = t }))
              (sym (take-append_le s.capacity (s.written ++ a) b (omega (arith, over e)))
                ∙ ap (take s.capacity) (append_assoc s.written a b)))
    ]
      where
        over :
            leb (length (s.written ++ a)) s.capacity ≡ false → s.capacity < length (s.written ++ a)
        over e = ground arith

-- A write of nothing does nothing.
pub write_nothing :
    (s : Sink) (cs : List (List ℕ)) → IsWithin s → write_chunks ([] ∷ cs) s ≡ write_chunks cs s
write_nothing s cs h =
    write_chunks-cons [] cs s ∙ rw (append-nil s.written, leb-true (length s.written) s.capacity h)

-- The same where a write stands before both.
pub under :
    (a : List ℕ) (cs ds : List (List ℕ))
    → ((s : Sink) → write_chunks cs s ≡ write_chunks ds s)
    → (s : Sink) → write_chunks (a ∷ cs) s ≡ write_chunks (a ∷ ds) s
under a cs ds h s =
    write_chunks-cons a cs s
    ∙ (λ i. continue (write_to (s.written ++ a) s).0 (λ u t. h t i) (write_to (s.written ++ a) s).1)
    ∙ sym (write_chunks-cons a ds s)
