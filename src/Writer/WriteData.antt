-- ===== src/Writer/WriteData.antt =====
-- `write_data` of src/writer.rs on an open entry, where the sink has room.
use mathlib.Core.Path.{subst}
use s_zip.Common.{
  ℕ, ◌+◌, ◌≤◌, ◌≡◌, refl, sym, ap, ◌∙◌, inl, inr, List, [], ◌∷◌, ◌++◌, Option, none, some, arith,
  length, Bool-cases, append_assoc, append-nil, length-append,
}
use s_zip.Outcome.{ok}
use s_zip.External.{External}
use s_zip.Encryption.{CounterMode, AesEncryptor}
use s_zip.Compress.{get_buffer, should_flush}
use s_zip.Compress.Remaining.{remaining}
use s_zip.Sink.{◌>>◌, pure, gets, write_chunks}
use s_zip.Sink.Chunks.{write_chunks_room, bind_ok}
use s_zip.Writer.{
  CurrentEntry, StreamingZipWriter, Writing, on_output, encrypt_if, set_current, absorb,
  flush_entry, write_data,
}
use s_zip.Writer.Finish.{on_output_ok}
use s_zip.Writer.Cipher.{cipher, InStream, length-cipher, encrypt_if-cipher, length-encrypt_if}
use s_zip.Writer.Progress.{Progress, absorb-Progress, flushed, piece_of, flushed-Progress}

module _ (ext : External) where
  -- A run of writes to one entry.
  unfoldable pub write_all_data : List (List ℕ) → Writing ext (Unit {0})
  write_all_data [] = pure tt
  write_all_data (bytes ∷ chunks) = do write_data ext bytes; write_all_data chunks

module _ (ext : External) (laws : CounterMode ext.crypto) (c0 : CurrentEntry ext)
    (w : StreamingZipWriter ext) (base : List ℕ) where
  -- The writer while the entry is handled, whose data is out as far as `raw`.
  abbrev pub holding : List ℕ → Option (CurrentEntry ext) → StreamingZipWriter ext
  holding raw current = record w {
    current_entry = current;
    output = record w.output { written = base ++ cipher ext laws c0.encryptor raw };
  }

  -- There is room for so many bytes of data, and the stream of an encrypted entry is long enough.
  pub record HasRoom (count : ℕ) : Type 0 where
    pub fits : length base + count ≤ w.output.capacity
    pub in_stream : InStream ext laws c0.encryptor count

  InStream-le :
      (e : Option (AesEncryptor ext.crypto)) (m n : ℕ)
      → m ≤ n
      → InStream ext laws e n
      → InStream ext laws e m
  unfolding InStream
  InStream-le none m n le h = tt
  InStream-le (some e) m n le h = omega arith

  pub HasRoom-le : (m n : ℕ) → HasRoom n → m ≤ n → HasRoom m
  HasRoom-le m n room le = record {
    fits = omega (arith, room.fits);
    in_stream = InStream-le c0.encryptor m n le room.in_stream;
  }

  -- What is out is no more than all the compressed data.
  pub out_le :
      (chunks : List (List ℕ)) (raw : List ℕ) (c : CurrentEntry ext) (later : List (List ℕ))
      → Progress ext laws c0 chunks raw c
      → length raw ≤ length (remaining ext c0.encoder (chunks ++ later))
  out_le chunks raw c later p =
      omega
        (arith, ap length (p.compressed later), length-append raw (remaining ext c.encoder later))

  -- The bytes that go out continue those that are out.
  continues :
      (chunks : List (List ℕ)) (raw : List ℕ) (c : CurrentEntry ext) (piece : List ℕ)
      → Progress ext laws c0 chunks raw c
      → HasRoom (length (raw ++ piece))
      → (base ++ cipher ext laws c0.encryptor raw) ++ ((encrypt_if ext c.encryptor piece).0 ++ [])
        ≡ base ++ cipher ext laws c0.encryptor (raw ++ piece)
  continues chunks raw c piece p room =
      append_assoc base (cipher ext laws c0.encryptor raw) _
      ∙ ap (λ (t : List ℕ). base ++ (cipher ext laws c0.encryptor raw ++ t)) (append-nil _)
      ∙ ap (λ e. base ++ (cipher ext laws c0.encryptor raw ++ (encrypt_if ext e piece).0))
          p.encryptor
      ∙ ap (λ (t : List ℕ). base ++ t)
          (encrypt_if-cipher ext laws c0.encryptor chunks raw piece (
            InStream-le c0.encryptor (length raw) (length (raw ++ piece))
              (omega (arith, length-append raw piece)) room.in_stream))

  pub write_piece :
      (chunks : List (List ℕ)) (raw : List ℕ) (previous : Option (CurrentEntry ext))
      (c : CurrentEntry ext) (piece : List ℕ)
      → Progress ext laws c0 chunks raw c
      → HasRoom (length (raw ++ piece))
      → on_output ext
          (write_chunks ((encrypt_if ext c.encryptor piece).0 ∷ []))
          (holding raw previous)
        ≡ (ok tt, holding (raw ++ piece) previous)
  write_piece chunks raw previous c piece p room =
      on_output_ok ext (write_chunks ((encrypt_if ext c.encryptor piece).0 ∷ []))
        (holding raw previous)
        (write_chunks_room ((encrypt_if ext c.encryptor piece).0 ∷ []) (holding raw previous).output
            (omega (
              arith,
              room.fits,
              length-append base (cipher ext laws c0.encryptor raw),
              length-cipher ext laws c0.encryptor raw,
              length-append raw piece,
              length-encrypt_if ext laws c.encryptor piece,
              length-append (encrypt_if ext c.encryptor piece).0 [],
            ))
          ∙ ap (λ (t : List ℕ). (ok tt, record w.output { written = t }))
              (continues chunks raw c piece p room))

  flush_entry-written :
      (chunks : List (List ℕ)) (raw : List ℕ) (previous : Option (CurrentEntry ext))
      (c : CurrentEntry ext)
      → Progress ext laws c0 chunks raw c
      → HasRoom (length (raw ++ piece_of ext laws c0 c))
      → flush_entry ext c (holding raw previous)
        ≡ (ok tt, holding (raw ++ piece_of ext laws c0 c) (some (flushed ext laws c0 c)))
  unfolding flush_entry set_current
  flush_entry-written chunks raw previous c p room =
      bind_ok _ _ refl ∙ bind_ok _ _ (write_piece chunks raw _ c (piece_of ext laws c0 c) p room)

  -- A write succeeds, and keeps the entry and the data that is out in step.
  write_data-Progress :
      (chunks : List (List ℕ)) (raw bytes : List ℕ) (c : CurrentEntry ext) (later : List (List ℕ))
      → Progress ext laws c0 chunks raw c
      → HasRoom (length (remaining ext c0.encoder (chunks ++ bytes ∷ later)))
      → (raw' : List ℕ) × (c' : CurrentEntry ext) × (write_data ext bytes (holding raw (some c))
          ≡ (ok tt, holding raw' (some c')))
        × Progress ext laws c0 (chunks ++ bytes ∷ []) raw' c'
  unfolding write_data set_current gets
  write_data-Progress chunks raw bytes c later p room =
      let c1 = absorb ext c bytes in
      let p1 = absorb-Progress ext laws c0 chunks raw bytes c p in
      elim (Bool-cases (should_flush (get_buffer ext c1.encoder))) [
        | inl e ↦ (
          raw ++ piece_of ext laws c0 c1,
          flushed ext laws c0 c1,
          bind_ok _ _ refl
              ∙ rw e (
                  flush_entry-written (chunks ++ bytes ∷ []) raw (some c) c1 p1 (
                    HasRoom-le _ _ room (
                      subst
                        (λ (t : List (List ℕ)).
                          length (raw ++ piece_of ext laws c0 c1)
                          ≤ length (remaining ext c0.encoder t))
                        (append_assoc chunks (bytes ∷ []) later)
                        (out_le (chunks ++ bytes ∷ []) (raw ++ piece_of ext laws c0 c1)
                          (flushed ext laws c0 c1) later
                          (flushed-Progress ext laws c0 (chunks ++ bytes ∷ []) raw c1 p1))))),
          flushed-Progress ext laws c0 (chunks ++ bytes ∷ []) raw c1 p1,
        )
        | inr e ↦ (raw, c1, bind_ok _ _ refl ∙ rw e, p1)
      ]

  -- So does a run of writes.
  pub write_all_data-Progress :
      (chunks : List (List ℕ)) (raw : List ℕ) (c : CurrentEntry ext) (more : List (List ℕ))
      → Progress ext laws c0 chunks raw c
      → HasRoom (length (remaining ext c0.encoder (chunks ++ more)))
      → (raw' : List ℕ) × (c' : CurrentEntry ext) × (write_all_data ext more (holding raw (some c))
          ≡ (ok tt, holding raw' (some c')))
        × Progress ext laws c0 (chunks ++ more) raw' c'
  unfolding write_all_data pure
  write_all_data-Progress chunks raw c [] p room = (
    raw,
    c,
    refl,
    subst (λ (t : List (List ℕ)). Progress ext laws c0 t raw c) (sym (append-nil chunks)) p,
  )
  write_all_data-Progress chunks raw c (bytes ∷ later) p room =
      let (raw1, c1, e1, p1) = write_data-Progress chunks raw bytes c later p room in
      let same = append_assoc chunks (bytes ∷ []) later in
      let (raw2, c2, e2, p2) = write_all_data-Progress (chunks ++ bytes ∷ []) raw1 c1 later p1 (
        subst (λ (t : List (List ℕ)). HasRoom (length (remaining ext c0.encoder t))) (sym same)
          room) in
      (
        raw2,
        c2,
        bind_ok _ _ e1 ∙ e2,
        subst (λ (t : List (List ℕ)). Progress ext laws c0 t raw2 c2) same p2,
      )
