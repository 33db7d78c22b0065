-- ===== src/AsyncWriter/SameWrite.antt =====
-- src/async_writer.rs against src/writer.rs: the writing of data.
use s_zip.Common.{
  ℕ, ◌≡◌, refl, ap, ◌∙◌, Bool, true, false, if◌then◌else◌, List, [], ◌∷◌, Option, none, some,
  length,
}
use s_zip.Outcome.{invalid_format, no_entry_started}
use s_zip.Encryption.{AesEncryptor}
use s_zip.Compress.{CompressionMethod, add_u64}
use s_zip.Compress
use s_zip.Writer
use s_zip.Sink.{Exec, Sink, ◌>>=◌, ◌>>◌, pure, gets, lift, fail}
use s_zip.Sink
use s_zip.Sink.Simulates.{unit, bind-Simulates, fail-Simulates}
use s_zip.AsyncWriter.Compress.{
  AsyncExternal, take_buffer, get_buffer, set_buffer, should_flush, add_compressed,
  update_uncompressed,
}
use s_zip.AsyncWriter.{
  CurrentEntry, set_current, encrypt_if, absorb, update_hmac_if, flush_entry, write_data,
}
use s_zip.AsyncWriter.Sync.{
  SyncEncoders, as_external, sync_compressor, sync_counter, sync_current, sync_option, sync,
  write_flush-sync, get_buffer-sync, set_buffer-sync,
}
use s_zip.AsyncWriter.Simulated.{Good, Same, written-Same}
use s_zip.AsyncWriter.SameClose.{set_current-Same, encrypt_if-sync}

module _ (ext : AsyncExternal) (enc : SyncEncoders ext) (m : CompressionMethod) where
  update_hmac_if-sync :
      (e : Option (AesEncryptor ext.crypto)) (bytes : List ℕ)
      → Writer.update_hmac_if (as_external ext enc) e bytes ≡ update_hmac_if ext e bytes
  unfolding update_hmac_if Writer.update_hmac_if
  update_hmac_if-sync none bytes = refl
  update_hmac_if-sync (some e) bytes = refl

  absorb-sync :
      (c : CurrentEntry ext) (bytes : List ℕ)
      → Writer.absorb (as_external ext enc) (sync_current ext enc c) bytes
        ≡ sync_current ext enc (absorb ext c bytes)
  unfolding absorb Writer.absorb update_uncompressed Compress.update_uncompressed
  absorb-sync c bytes = λ i. record (sync_current ext enc (absorb ext c bytes)) {
    encoder = write_flush-sync ext enc c.encoder bytes i;
    encryptor = update_hmac_if-sync c.encryptor bytes i;
  }

  -- The flush of the synchronous writer, its buffer and its compressor given.
  abbrev flushing :
      CurrentEntry ext
      → List ℕ
      → Compress.Compressor (as_external ext enc)
      → List ℕ × Option (AesEncryptor ext.crypto)
      → Exec (Writer.StreamingZipWriter (as_external ext enc)) (Unit {0})
  flushing c compressed_data encoder (data_to_write, encryptor) = do
    let written = record (sync_current ext enc c) { encoder = encoder; encryptor = encryptor }
    Writer.set_current (as_external ext enc) written
    Writer.on_output (as_external ext enc) (Sink.write_chunks (data_to_write ∷ []))
    Writer.set_current (as_external ext enc) (record written {
      counter =
          Compress.add_compressed ext.hasher (sync_counter ext enc c.counter)
            (length data_to_write);
    })

  flush_entry-sync :
      (c : CurrentEntry ext)
      → Writer.flush_entry (as_external ext enc) (sync_current ext enc c)
        ≡ flushing c
            (get_buffer ext c.encoder).buffer
            (sync_compressor ext enc
              (set_buffer ext c.encoder (take_buffer (get_buffer ext c.encoder)).1))
            (encrypt_if ext c.encryptor (get_buffer ext c.encoder).buffer)
  unfolding Writer.flush_entry Compress.take_buffer take_buffer
  flush_entry-sync c =
      let b = get_buffer-sync ext enc c.encoder in
      (λ i.
        flushing c (b i).buffer
          (Compress.set_buffer (as_external ext enc) (sync_compressor ext enc c.encoder)
            (record (b i) { buffer = [] }))
          (Writer.encrypt_if (as_external ext enc) c.encryptor (b i).buffer))
      ∙ (λ i.
          flushing c (get_buffer ext c.encoder).buffer
            (set_buffer-sync ext enc c.encoder (record (get_buffer ext c.encoder) { buffer = [] })
              i)
            (encrypt_if-sync ext enc m c.encryptor (get_buffer ext c.encoder).buffer i))

  flush_entry-Same :
      (c : CurrentEntry ext)
      → Same ext enc m unit
          (flush_entry ext c)
          (Writer.flush_entry (as_external ext enc) (sync_current ext enc c))
  unfolding flush_entry take_buffer add_compressed Compress.add_compressed
  flush_entry-Same c = rw (flush_entry-sync c) (
      bind-Simulates (sync ext enc) (Good ext enc m) unit unit _ _ _ _
        (set_current-Same ext enc m _)
        (λ u.
          bind-Simulates (sync ext enc) (Good ext enc m) unit unit _ _ _ _
            (written-Same ext enc m _ _ (λ s h. refl)) (λ u. set_current-Same ext enc m _)))

  flush_if :
      (b : Bool) (c : CurrentEntry ext)
      → Same ext enc m unit (if b then flush_entry ext c else set_current ext c) (
          if b
          then Writer.flush_entry (as_external ext enc) (sync_current ext enc c)
          else Writer.set_current (as_external ext enc) (sync_current ext enc c))
  flush_if true c = flush_entry-Same c
  flush_if false c = set_current-Same ext enc m c

  -- What the synchronous writer does with an entry that has taken data.
  abbrev then_flush :
      Writer.CurrentEntry (as_external ext enc)
      → Exec (Writer.StreamingZipWriter (as_external ext enc)) (Unit {0})
  then_flush c =
      if Compress.should_flush (Compress.get_buffer (as_external ext enc) c.encoder)
      then Writer.flush_entry (as_external ext enc) c
      else Writer.set_current (as_external ext enc) c

  should_flush-sync :
      (c : CurrentEntry ext)
      → Compress.should_flush
          (Compress.get_buffer (as_external ext enc) (sync_compressor ext enc c.encoder))
        ≡ should_flush (get_buffer ext c.encoder)
  unfolding should_flush Compress.should_flush
  should_flush-sync c = ap Compress.should_flush (get_buffer-sync ext enc c.encoder)

  take_data :
      (bytes : List ℕ) (current : Option (CurrentEntry ext))
      → Same ext enc m unit
          (elim current [
            | none ↦ fail (invalid_format no_entry_started)
            | some c ↦
                if should_flush (get_buffer ext (absorb ext c bytes).encoder)
                then flush_entry ext (absorb ext c bytes)
                else set_current ext (absorb ext c bytes)
          ])
          (elim (sync_option ext enc current) [
            | none ↦ fail (invalid_format no_entry_started)
            | some c ↦ then_flush (Writer.absorb (as_external ext enc) c bytes)
          ])
  take_data bytes none =
      fail-Simulates (sync ext enc) (Good ext enc m) unit (invalid_format no_entry_started)
  take_data bytes (some c) =
      rw (absorb-sync c bytes, should_flush-sync (absorb ext c bytes))
        (flush_if (should_flush (get_buffer ext (absorb ext c bytes).encoder)) (absorb ext c bytes))

  current-Same :
      Same ext enc m
        (sync_option ext enc)
        (gets (λ w. w.current_entry))
        (gets (λ w. w.current_entry))
  unfolding gets
  current-Same w good = (refl, good)

  pub write_data-Same :
      (bytes : List ℕ)
      → Same ext enc m unit (write_data ext bytes) (Writer.write_data (as_external ext enc) bytes)
  unfolding write_data Writer.write_data
  write_data-Same bytes =
      bind-Simulates (sync ext enc) (Good ext enc m) (sync_option ext enc) unit _ _ _ _ current-Same
        (take_data bytes)
