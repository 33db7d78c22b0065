-- ===== src/AsyncWriter/Simulated.antt =====
-- Each method of the asynchronous writer of src/async_writer.rs does what the synchronous one of
-- src/writer.rs does, whether it succeeds or fails.
use mathlib.Core.Path.{subst}
use s_zip.Common.{
  ℕ, ◌≡◌, refl, sym, ap, ◌∙◌, false, List, [], ◌∷◌, ◌++◌, Option, none, some, length, map,
}
use s_zip.Outcome.{Result, ok}
use s_zip.Encryption.{AesEncryptor, finalize_encryptor}
use s_zip.Compress.{CompressionMethod, add_u64}
use s_zip.Compress
use s_zip.Writer
use s_zip.Sink.{Exec, Sink, ◌>>=◌, ◌>>◌, pure}
use s_zip.Sink
use s_zip.Sink.Appends.{write_chunks-Appends}
use s_zip.Sink.Merge.{IsWithin, write_nothing}
use s_zip.Sink.Simulates.{unit, map_result, map_result-same, Simulates, bind-Simulates}
use s_zip.AsyncSink.{AsyncSink, write_chunks}
use s_zip.AsyncSink.Plain.{write_chunks-plain}
use s_zip.AsyncWriter.Compress.{AsyncExternal, CrcCounter, finalize_crc}
use s_zip.AsyncWriter.{
  ZipEntry, CurrentEntry, AsyncStreamingZipWriter, on_output, push_entry, seal_entry,
  data_descriptor,
}
use s_zip.AsyncWriter.Sync.{
  SyncEncoders, MakesEncoder, as_external, sync_entry, sync_current, sync_counter, sync,
}

module _ (ext : AsyncExternal) (enc : SyncEncoders ext) (m : CompressionMethod) where
  -- A writer with the method, for whose level there is an encoder, and whose sink is not shut down and
  -- holds no more than it has room for.
  pub record Good (w : AsyncStreamingZipWriter ext) : Type 0 where
    pub is_open : w.output.is_shut ≡ false
    pub within : IsWithin w.output.sink
    pub method : w.compression_method ≡ m
    pub made : MakesEncoder ext enc m w.compression_level

module _ (ext : AsyncExternal) (enc : SyncEncoders ext) (m : CompressionMethod) where
  abbrev pub Same :
      {A B : Type 0}
      → (A → B)
      → Exec (AsyncStreamingZipWriter ext) A
      → Exec (Writer.StreamingZipWriter (as_external ext enc)) B
      → Type 0
  Same g a b = Simulates (sync ext enc) (Good ext enc m) g a b

  -- Runs of writes that do the same on a sink.
  pub written-Same :
      (cs ds : List (List ℕ))
      → ((s : Sink) → IsWithin s → Sink.write_chunks ds s ≡ Sink.write_chunks cs s)
      → Same unit
          (on_output ext (write_chunks cs))
          (Writer.on_output (as_external ext enc) (Sink.write_chunks ds))
  unfolding on_output Writer.on_output
  written-Same cs ds same w good =
      let p = write_chunks-plain cs w.output good.is_open in
      let (more, e, cap, within) = write_chunks-Appends cs w.output.sink good.within in
      (
        (λ i. (
          (same w.output.sink good.within i).0,
          record (sync ext enc w) { output = (same w.output.sink good.within i).1 },
        ))
            ∙ (λ i. (
              sym (map_result-same (Sink.write_chunks cs w.output.sink).0) i,
              record (sync ext enc w) { output = (Sink.write_chunks cs w.output.sink).1 },
            ))
            ∙ (λ i.
                (map_result unit (sym p i).0, sync ext enc (record w { output = (sym p i).1 }))),
        record {
          is_open = ap (λ (r : Result (Unit {0}) × AsyncSink). r.1.is_shut) p ∙ good.is_open;
          within = subst (λ (r : Result (Unit {0}) × AsyncSink). IsWithin r.1.sink) (sym p) within;
          method = good.method;
          made = good.made;
        },
      )

  map-append_one :
      (es : List ZipEntry) (e : ZipEntry)
      → map sync_entry (es ++ e ∷ []) ≡ map sync_entry es ++ sync_entry e ∷ []
  map-append_one [] e = refl
  map-append_one (x ∷ xs) e = ap (λ t. sync_entry x ∷ t) (map-append_one xs e)

  push_entry-Same :
      (e : ZipEntry)
      → Same unit (push_entry ext e) (Writer.push_entry (as_external ext enc) (sync_entry e))
  unfolding push_entry Writer.push_entry
  push_entry-Same e w good = (
    (λ i. (ok tt, record (sync ext enc w) { entries = sym (map-append_one w.entries e) i })),
    record { is_open = good.is_open; within = good.within; method = good.method; made = good.made },
  )

  module _ (c : CurrentEntry ext) (k : CrcCounter ext.hasher) (n : ℕ)
      (alike : (l : ℕ) → add_u64 n l ≡ add_u64 k.compressed_count l) where
    -- The rest of the synchronous closing, its compressed size given.
    abbrev sealed :
        List ℕ × Option ℕ → ℕ → Exec (Writer.StreamingZipWriter (as_external ext enc)) (Unit {0})
    sealed (auth_code, strength_code) compressed_size = do
      Writer.on_output (as_external ext enc) (Sink.write_chunks (auth_code ∷ []))
      let crc = ext.hasher.finalize k.crc
      Writer.on_output (as_external ext enc) (
          Sink.write_chunks
            (Writer.data_descriptor (as_external ext enc) crc compressed_size k.uncompressed_count))
      Writer.push_entry (as_external ext enc) (record {
        name = c.name;
        local_header_offset = c.local_header_offset;
        crc32 = crc;
        compressed_size = compressed_size;
        uncompressed_size = k.uncompressed_count;
        compression_method = c.compression_method;
        encryption_strength = strength_code;
      })

    sealed_lem :
        (encryptor : Option (AesEncryptor ext.crypto))
        → Writer.seal_entry
            (as_external ext enc)
            (sync_current ext enc c)
            (record (sync_counter ext enc k) { compressed_count = n })
            encryptor
          ≡ sealed (Writer.finish_encryption (as_external ext enc) encryptor) (
              add_u64 k.compressed_count
                (length (Writer.finish_encryption (as_external ext enc) encryptor).0))
    unfolding Writer.seal_entry Compress.finalize_crc
    sealed_lem encryptor = λ i.
        sealed (Writer.finish_encryption (as_external ext enc) encryptor)
          (alike (length (Writer.finish_encryption (as_external ext enc) encryptor).0) i)

    descriptor-Same :
        (crc size : ℕ)
        → Same unit
            (on_output ext (write_chunks (data_descriptor ext crc size k.uncompressed_count)))
            (Writer.on_output (as_external ext enc) (
              Sink.write_chunks
                (Writer.data_descriptor (as_external ext enc) crc size k.uncompressed_count)))
    unfolding data_descriptor Writer.data_descriptor
    descriptor-Same crc size = written-Same _ _ (λ s h. refl)

    pub seal_entry-Same :
        (encryptor : Option (AesEncryptor ext.crypto))
        → Same unit (seal_entry ext c k encryptor) (
            Writer.seal_entry
              (as_external ext enc)
              (sync_current ext enc c)
              (record (sync_counter ext enc k) { compressed_count = n })
              encryptor)
    unfolding seal_entry finalize_crc Writer.finish_encryption
    seal_entry-Same none = rw (sealed_lem none) (
        bind-Simulates (sync ext enc) (Good ext enc m) unit unit _ _ _ _
          (written-Same [] ([] ∷ []) (λ s h. write_nothing s [] h))
          (λ u.
            bind-Simulates (sync ext enc) (Good ext enc m) unit unit _ _ _ _
              (descriptor-Same (ext.hasher.finalize k.crc) (add_u64 k.compressed_count 0))
              (λ u. push_entry-Same _)))
    seal_entry-Same (some e) = rw (sealed_lem (some e)) (
        bind-Simulates (sync ext enc) (Good ext enc m) unit unit _ _ _ _
          (written-Same (finalize_encryptor ext.crypto e ∷ []) _ (λ s h. refl))
          (λ u.
            bind-Simulates (sync ext enc) (Good ext enc m) unit unit _ _ _ _
              (descriptor-Same (ext.hasher.finalize k.crc) _) (λ u. push_entry-Same _)))
