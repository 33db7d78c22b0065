-- ===== src/Parallel/Crc/Passed.antt =====
-- src/parallel.rs: the checksum of a `CrcReader` is over the bytes that have left it.
use s_zip.Common.{
  ℕ, ◌≡◌, refl, sym, ap, ◌∙◌, List, [], ◌∷◌, ◌++◌, take, drop, flatten, flatten-append,
  append_assoc, append-nil, take-append-drop, take-min,
}
use s_zip.External.{Hasher, HasherLaws, hash_chunks}
use s_zip.Parallel.Crc.{
  CrcReader, new_crc_reader, poll_fill_buf, consume, poll_read, hash_new, finalize, ReaderCall,
  fill, take_bytes, read, run_call, run_calls,
}

module _ (h : Hasher) where
  -- The chunks that the reader has hashed, which with what it holds make up the file.
  record Passed (bytes : List ℕ) (chunks : List (List ℕ)) (r : CrcReader h) : Type 0 where
    whole : flatten chunks ++ (r.buffered ++ r.unread) ≡ bytes
    hashed : r.hasher ≡ hash_chunks h h.new chunks

  fill_buffered :
      (n : ℕ) (bytes : List ℕ) (chunks : List (List ℕ)) (buffered unread : List ℕ)
      (hasher : h.State)
      → Passed bytes chunks (record { buffered = buffered; unread = unread; hasher = hasher })
      → Passed bytes chunks
          (poll_fill_buf h n (record { buffered = buffered; unread = unread; hasher = hasher }))
  unfolding poll_fill_buf
  fill_buffered n bytes chunks [] unread hasher p = record {
    whole = ap (λ (t : List ℕ). flatten chunks ++ t) (take-append-drop n unread) ∙ p.whole;
    hashed = p.hashed;
  }
  fill_buffered n bytes chunks (b ∷ bs) unread hasher p = p

  fill-Passed :
      (n : ℕ) (bytes : List ℕ) (chunks : List (List ℕ)) (r : CrcReader h)
      → Passed bytes chunks r
      → Passed bytes chunks (poll_fill_buf h n r)
  fill-Passed n bytes chunks r p = fill_buffered n bytes chunks r.buffered r.unread r.hasher p

  hash_chunks-append :
      (s : h.State) (chunks : List (List ℕ)) (x : List ℕ)
      → hash_chunks h s (chunks ++ x ∷ []) ≡ h.update (hash_chunks h s chunks) x
  unfolding hash_chunks
  hash_chunks-append s [] x = refl
  hash_chunks-append s (y ∷ ys) x = hash_chunks-append (h.update s y) ys x

  -- Some bytes leave the buffer and are hashed.
  leave-Passed :
      (k : ℕ) (bytes : List ℕ) (chunks : List (List ℕ)) (r : CrcReader h)
      → Passed bytes chunks r
      → Passed bytes (chunks ++ take k r.buffered ∷ []) (record r {
        buffered = drop k r.buffered;
        hasher = h.update r.hasher (take k r.buffered);
      })
  leave-Passed k bytes chunks r p = record {
    whole =
        ap (λ (t : List ℕ). t ++ (drop k r.buffered ++ r.unread))
          (flatten-append chunks (take k r.buffered ∷ [])
            ∙ ap (λ (t : List ℕ). flatten chunks ++ t) (append-nil (take k r.buffered)))
        ∙ append_assoc (flatten chunks) (take k r.buffered) (drop k r.buffered ++ r.unread)
        ∙ ap (λ (t : List ℕ). flatten chunks ++ t)
            (sym (append_assoc (take k r.buffered) (drop k r.buffered) r.unread)
              ∙ ap (λ (t : List ℕ). t ++ r.unread) (take-append-drop k r.buffered))
        ∙ p.whole;
    hashed =
        ap (λ (s : h.State). h.update s (take k r.buffered)) p.hashed
        ∙ sym (hash_chunks-append h.new chunks (take k r.buffered));
  }

  -- A read that gives nothing hashes nothing.
  hash_taken :
      (bytes : List ℕ) (chunks : List (List ℕ)) (s : h.State) (taken rest : List ℕ)
      → flatten (chunks ++ taken ∷ []) ++ rest ≡ bytes
      → s ≡ hash_chunks h h.new chunks
      → (more : List (List ℕ)) × (flatten more ++ rest ≡ bytes)
        × (hash_new h s taken ≡ hash_chunks h h.new more)
  unfolding hash_new
  hash_taken bytes chunks s [] rest whole hashed = (
    chunks,
    ap (λ (t : List ℕ). t ++ rest)
          (sym (append-nil (flatten chunks)) ∙ sym (flatten-append chunks ([] ∷ [])))
        ∙ whole,
    hashed,
  )
  hash_taken bytes chunks s (b ∷ bs) rest whole hashed = (
    chunks ++ (b ∷ bs) ∷ [],
    whole,
    ap (λ (s : h.State). h.update s (b ∷ bs)) hashed
        ∙ sym (hash_chunks-append h.new chunks (b ∷ bs)),
  )

  call-Passed :
      (bytes : List ℕ) (chunks : List (List ℕ)) (r : CrcReader h) (c : ReaderCall)
      → Passed bytes chunks r
      → (more : List (List ℕ)) × Passed bytes more (run_call h c r)
  unfolding run_call consume poll_read
  call-Passed bytes chunks r (fill n) p = (chunks, fill-Passed n bytes chunks r p)
  call-Passed bytes chunks r (take_bytes n amt) p =
      let r1 = poll_fill_buf h n r in
      (
        chunks ++ take amt r1.buffered ∷ [],
        rw (take-min amt r1.buffered)
            (leave-Passed amt bytes chunks r1 (fill-Passed n bytes chunks r p)),
      )
  call-Passed bytes chunks r (read n room) p =
      let r1 = poll_fill_buf h n r in
      let p1 = fill-Passed n bytes chunks r p in
      let (more, whole, hashed) =
        hash_taken bytes chunks r1.hasher (take room r1.buffered)
          (drop room r1.buffered ++ r1.unread) ((leave-Passed room bytes chunks r1 p1).whole)
          p1.hashed in
      (more, record { whole = whole; hashed = hashed })

  calls-Passed :
      (bytes : List ℕ) (chunks : List (List ℕ)) (r : CrcReader h) (cs : List ReaderCall)
      → Passed bytes chunks r
      → (more : List (List ℕ)) × Passed bytes more (run_calls h cs r)
  unfolding run_calls
  calls-Passed bytes chunks r [] p = (chunks, p)
  calls-Passed bytes chunks r (c ∷ cs) p =
      let (more, q) = call-Passed bytes chunks r c p in
      calls-Passed bytes more (run_call h c r) cs q

-- By whatever calls an encoder takes the bytes of a file, the checksum is that of the bytes that have
-- left the reader: those of the file before what it holds and has not read yet.
pub finalize-run_calls :
    (h : Hasher) (laws : HasherLaws h) (bytes : List ℕ) (cs : List ReaderCall)
    → let r = run_calls h cs (new_crc_reader h bytes) in
      (passed : List ℕ) × (passed ++ (r.buffered ++ r.unread) ≡ bytes)
      × (finalize h r ≡ h.hash passed)
unfolding new_crc_reader finalize hash_chunks
finalize-run_calls h laws bytes cs =
    let (chunks, p) =
      calls-Passed h bytes [] (new_crc_reader h bytes) cs
        (record { whole = refl; hashed = refl }) in
    (flatten chunks, p.whole, ap h.finalize p.hashed ∙ laws.finalize-updates chunks)
