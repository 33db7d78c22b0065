-- ===== src/AsyncWriter/SameStart.antt =====
-- src/async_writer.rs against src/writer.rs: the start of an entry.
use mathlib.Core.Path.{subst}
use s_zip.Common.{ℕ, ◌≡◌, refl, sym, ◌∙◌, List, [], ◌∷◌, Option, none, some}
use s_zip.Outcome.{ok}
use s_zip.Encryption.{AesEncryptor}
use s_zip.Options.{default_options, unix_extra_field, msdos_datetime}
use s_zip.Compress.{CompressionMethod, add_u64}
use s_zip.Compress
use s_zip.Writer
use s_zip.Sink.{Exec, Sink, ◌>>=◌, ◌>>◌, pure, gets, lift, fail}
use s_zip.Sink
use s_zip.Sink.Merge.{merge, under}
use s_zip.Sink.Simulates.{unit, lift_ok, gets-Simulates, bind-Simulates, lift-Simulates}
use s_zip.AsyncSink.{stream_position}
use s_zip.AsyncWriter.Compress.{AsyncExternal, add_compressed, new_counter, new_compressor}
use s_zip.AsyncWriter.{
  CurrentEntry, AsyncStreamingZipWriter, on_output, set_current, make_encryptor, initial_counter,
  local_header, start_entry_with_hint,
}
use s_zip.AsyncWriter.Sync.{
  SyncEncoders, SameEncoders, MakesEncoder, sync_level, as_external, sync_compressor, sync_counter,
  sync, TakesHint, new_compressor-sync,
}
use s_zip.AsyncWriter.Simulated.{Good, Same, written-Same}
use s_zip.AsyncWriter.SameClose.{set_current-Same, finish_current_entry-Same}

module _ (ext : AsyncExternal) (enc : SyncEncoders ext) (m : CompressionMethod) where
  -- The headers differ in how their bytes are cut.
  local_header-same :
      (name : List ℕ) (method : ℕ) (e : Option (AesEncryptor ext.crypto)) (s : Sink)
      → Sink.write_chunks
          (Writer.local_header (as_external ext enc) name default_options method e)
          s
        ≡ Sink.write_chunks (local_header ext name method e) s
  unfolding local_header Writer.local_header unix_extra_field msdos_datetime
  local_header-same name method none s =
      under _ _ _
        (under _ _ _ (under _ _ _ (under _ _ _ (λ s. merge (0 ∷ 0 ∷ []) (0 ∷ 0 ∷ []) _ s)))) s
  local_header-same name method (some e) s =
      under _ _ _
        (under _ _ _ (under _ _ _ (under _ _ _ (λ s. merge (0 ∷ 0 ∷ []) (0 ∷ 0 ∷ []) _ s)))) s

  make_encryptor-same :
      (rng : ℕ → Option (List ℕ)) (password : Option (List ℕ)) (strength : _)
      → Writer.make_encryptor (as_external ext enc) rng password strength
        ≡ make_encryptor ext rng password strength
  make_encryptor-same rng none strength = refl
  make_encryptor-same rng (some p) strength = refl

  initial_counter-sync :
      (e : Option (AesEncryptor ext.crypto))
      → sync_counter ext enc (initial_counter ext e)
        ≡ Writer.initial_counter (as_external ext enc) e
  unfolding new_counter Compress.new_counter add_compressed Compress.add_compressed
  initial_counter-sync none = refl
  initial_counter-sync (some e) = refl

  position-Same :
      Same ext enc m
        (λ n. n)
        (on_output ext stream_position)
        (Writer.on_output (as_external ext enc) Sink.stream_position)
  unfolding on_output Writer.on_output stream_position Sink.stream_position
  position-Same w good = (
    refl,
    record { is_open = good.is_open; within = good.within; method = good.method; made = good.made },
  )

  -- The entry that is opened.
  abbrev opened :
      List ℕ
      → ℕ
      → Option ℕ
      → AsyncStreamingZipWriter ext
      → Option (AesEncryptor ext.crypto)
      → CurrentEntry ext
  opened name offset hint w e = record {
    name = name;
    local_header_offset = offset;
    encoder = new_compressor ext w.compression_method w.compression_level hint;
    counter = initial_counter ext e;
    compression_method = Compress.to_zip_method w.compression_method;
    encryptor = e;
  }

  -- The synchronous writer makes its compressor and sets the entry.
  set_opened :
      SameEncoders ext enc
      → (name : List ℕ) (offset : ℕ) (hint : Option ℕ) (w : AsyncStreamingZipWriter ext)
        (e : Option (AesEncryptor ext.crypto))
      → TakesHint ext enc m hint
      → Good ext enc m w
      → Same ext enc m unit (set_current ext (opened name offset hint w e)) (do
        encoder ← lift (
            Compress.new_compressor
              (as_external ext enc)
              w.compression_method
              (sync_level w.compression_method w.compression_level)
              hint)
        Writer.set_current (as_external ext enc) (record {
          name = name;
          local_header_offset = offset;
          encoder = encoder;
          counter = Writer.initial_counter (as_external ext enc) e;
          compression_method = Compress.to_zip_method w.compression_method;
          encryptor = e;
        }))
  set_opened alike name offset hint w e takes good =
      rw (sym (initial_counter-sync e), made)
        (λ s ready.
          let (same, kept) = set_current-Same ext enc m (opened name offset hint w e) s ready in
          (lift_ok _ _ _ ∙ same, kept))
    where
      made :
          Compress.new_compressor
            (as_external ext enc)
            w.compression_method
            (sync_level w.compression_method w.compression_level)
            hint
          ≡ ok (
              sync_compressor ext enc
                (new_compressor ext w.compression_method w.compression_level hint))
      made =
          new_compressor-sync ext enc alike w.compression_method w.compression_level hint
            (subst (λ (t : CompressionMethod). MakesEncoder ext enc t w.compression_level)
              (sym good.method) good.made)
            (subst (λ (t : CompressionMethod). TakesHint ext enc t hint) (sym good.method) takes)

  pub start_entry-Same :
      SameEncoders ext enc
      → (rng : ℕ → Option (List ℕ)) (name : List ℕ) (hint : Option ℕ) → TakesHint ext enc m hint
      → Same ext enc m unit (start_entry_with_hint ext rng name hint) (
          Writer.start_entry_with_options_and_hint
            (as_external ext enc)
            rng
            name
            default_options
            hint)
  unfolding start_entry_with_hint Writer.start_entry_with_options_and_hint
  start_entry-Same alike rng name hint takes =
      bind-Simulates (sync ext enc) (Good ext enc m) unit unit _ _ _ _
        (finish_current_entry-Same ext enc m)
        (λ u.
          bind-Simulates (sync ext enc) (Good ext enc m) (λ n. n) unit _ _ _ _ position-Same
            (λ offset. gets-Simulates (sync ext enc) (Good ext enc m) unit _ _ (λ w good.
              rw (make_encryptor-same rng w.password w.encryption_strength) (
                bind-Simulates (sync ext enc) (Good ext enc m) (λ e. e) unit _ _ _ _
                  (lift-Simulates (sync ext enc) (Good ext enc m)
                    (make_encryptor ext rng w.password w.encryption_strength))
                  (λ e.
                    bind-Simulates (sync ext enc) (Good ext enc m) unit unit _ _ _ _
                      (written-Same ext enc m
                        (local_header ext name (Compress.to_zip_method w.compression_method) e) _
                        (λ s h.
                          local_header-same name (Compress.to_zip_method w.compression_method) e s))
                      (λ u. set_opened alike name offset hint w e takes good))))))
