-- ===== src/AsyncWriter/SameClose.antt =====
-- src/async_writer.rs against src/writer.rs: the closing of an entry.
use s_zip.Common.{ℕ, ◌+◌, ◌≡◌, refl, sym, List, [], ◌∷◌, Option, none, some, arith, length}
use s_zip.Encryption.{AesEncryptor, encrypt, apply_ctr_keystream}
use s_zip.Compress.{CompressionMethod, add_u64}
use s_zip.Compress
use s_zip.Writer
use s_zip.Sink.{Exec, Sink, ◌>>=◌, ◌>>◌, pure, gets, lift, fail}
use s_zip.Sink
use s_zip.Sink.Merge.{write_nothing}
use s_zip.Sink.Simulates.{unit, bind-Simulates, pure-Simulates}
use s_zip.AsyncSink.{write_chunks}
use s_zip.AsyncWriter.Compress.{AsyncExternal, finish_compression, take_buffer, add_compressed}
use s_zip.AsyncWriter.{
  CurrentEntry, AsyncStreamingZipWriter, on_output, take_current, set_current, encrypt_if,
  seal_entry, close_entry, finish_current_entry,
}
use s_zip.AsyncWriter.Sync.{
  SyncEncoders, as_external, sync_counter, sync_current, sync_option, sync, finish_compression-sync,
}
use s_zip.AsyncWriter.Simulated.{Good, Same, written-Same, seal_entry-Same}

module _ (ext : AsyncExternal) (enc : SyncEncoders ext) (m : CompressionMethod) where
  pub set_current-Same :
      (c : CurrentEntry ext)
      → Same ext enc m unit
          (set_current ext c)
          (Writer.set_current (as_external ext enc) (sync_current ext enc c))
  unfolding set_current Writer.set_current
  set_current-Same c w good = (
    refl,
    record { is_open = good.is_open; within = good.within; method = good.method; made = good.made },
  )

  take_current-Same :
      Same ext enc m
        (sync_option ext enc)
        (take_current ext)
        (Writer.take_current (as_external ext enc))
  unfolding take_current Writer.take_current
  take_current-Same w good = (
    refl,
    record { is_open = good.is_open; within = good.within; method = good.method; made = good.made },
  )

  pub encrypt_if-sync :
      (e : Option (AesEncryptor ext.crypto)) (bytes : List ℕ)
      → Writer.encrypt_if (as_external ext enc) e bytes ≡ encrypt_if ext e bytes
  unfolding encrypt_if Writer.encrypt_if
  encrypt_if-sync none bytes = refl
  encrypt_if-sync (some e) bytes = refl

  -- Encrypting nothing gives nothing and moves nothing on.
  encrypt_if-nil : (e : Option (AesEncryptor ext.crypto)) → encrypt_if ext e [] ≡ ([], e)
  unfolding encrypt_if encrypt apply_ctr_keystream
  encrypt_if-nil none = refl
  encrypt_if-nil (some e) =
      let z : e.byte_offset + 0 ≡ e.byte_offset = omega arith in
      λ i. ([], some (record e { byte_offset = z i }))

  -- The rest of the data and the sealing, in the synchronous writer.
  abbrev closing :
      CurrentEntry ext → List ℕ → Exec (Writer.StreamingZipWriter (as_external ext enc)) (Unit {0})
  closing c remaining_data = do
    let (data_to_write, encryptor) =
        Writer.encrypt_if (as_external ext enc) c.encryptor remaining_data
    Writer.on_output (as_external ext enc) (Sink.write_chunks (data_to_write ∷ []))
    Writer.seal_entry (as_external ext enc) (sync_current ext enc c)
        (Compress.add_compressed ext.hasher (sync_counter ext enc c.counter) (length data_to_write))
        encryptor

  closing_lem :
      (c : CurrentEntry ext)
      → Writer.close_entry (as_external ext enc) (sync_current ext enc c)
        ≡ closing c (finish_compression ext c.encoder).buffer
  unfolding Writer.close_entry Compress.take_buffer
  closing_lem c = λ i. closing c (finish_compression-sync ext enc c.encoder i).buffer

  abbrev async_closing : CurrentEntry ext → List ℕ → Exec (AsyncStreamingZipWriter ext) (Unit {0})
  async_closing c [] = seal_entry ext c c.counter c.encryptor
  async_closing c (b ∷ bs) = do
    let (data_to_write, encryptor) = encrypt_if ext c.encryptor (b ∷ bs)
    on_output ext (write_chunks (data_to_write ∷ []))
    seal_entry ext c (add_compressed ext.hasher c.counter (length data_to_write)) encryptor

  async_closing_lem :
      (c : CurrentEntry ext)
      → close_entry ext c ≡ async_closing c (finish_compression ext c.encoder).buffer
  unfolding close_entry take_buffer
  async_closing_lem c = refl

  nothing_added : (n l : ℕ) → add_u64 (add_u64 n 0) l ≡ add_u64 n l
  nothing_added n l = omega arith

  -- No write is nothing done.
  nothing_first :
      (a : Exec (AsyncStreamingZipWriter ext) (Unit {0}))
      → (on_output ext (write_chunks []) >> a) ≡ a
  unfolding on_output write_chunks ◌>>=◌ pure
  nothing_first a = refl

  closing-Same :
      (c : CurrentEntry ext) (r : List ℕ) → Same ext enc m unit (async_closing c r) (closing c r)
  unfolding add_compressed Compress.add_compressed
  closing-Same c [] =
      rw
        (
          encrypt_if-sync c.encryptor [],
          encrypt_if-nil c.encryptor,
          sym (nothing_first (seal_entry ext c c.counter c.encryptor)),
        )
        (bind-Simulates (sync ext enc) (Good ext enc m) unit unit _ _ _ _
          (written-Same ext enc m [] ([] ∷ []) (λ s h. write_nothing s [] h))
          (λ u.
            seal_entry-Same ext enc m c c.counter (add_u64 c.counter.compressed_count 0)
              (nothing_added c.counter.compressed_count) c.encryptor))
  closing-Same c (b ∷ bs) = rw (encrypt_if-sync c.encryptor (b ∷ bs)) (
      bind-Simulates (sync ext enc) (Good ext enc m) unit unit _ _ _ _
        (written-Same ext enc m ((encrypt_if ext c.encryptor (b ∷ bs)).0 ∷ []) _ (λ s h. refl))
        (λ u.
          seal_entry-Same ext enc m c
            (add_compressed ext.hasher c.counter (length (encrypt_if ext c.encryptor (b ∷ bs)).0)) _
            (λ l. refl) (encrypt_if ext c.encryptor (b ∷ bs)).1))

  close_entry-Same :
      (c : CurrentEntry ext)
      → Same ext enc m unit
          (close_entry ext c)
          (Writer.close_entry (as_external ext enc) (sync_current ext enc c))
  close_entry-Same c =
      rw (closing_lem c, async_closing_lem c)
        (closing-Same c (finish_compression ext c.encoder).buffer)

  close_if :
      (current : Option (CurrentEntry ext))
      → Same ext enc m unit
          (elim current [ none ↦ pure tt | some entry ↦ close_entry ext entry ])
          (elim (sync_option ext enc current) [
            | none ↦ pure tt
            | some entry ↦ Writer.close_entry (as_external ext enc) entry
          ])
  close_if none = pure-Simulates (sync ext enc) (Good ext enc m) unit tt
  close_if (some c) = close_entry-Same c

  pub finish_current_entry-Same :
      Same ext enc m unit
        (finish_current_entry ext)
        (Writer.finish_current_entry (as_external ext enc))
  unfolding finish_current_entry Writer.finish_current_entry
  finish_current_entry-Same =
      bind-Simulates (sync ext enc) (Good ext enc m) (sync_option ext enc) unit _ _ _ _
        take_current-Same close_if
