-- ===== src/AsyncWriter/Sync.antt =====
-- The asynchronous writer of src/async_writer.rs as a synchronous writer of src/writer.rs: its values
-- translated, and its compressors.
use s_zip.Common.{
  ℕ, zero, suc, ◌≡◌, ◌∙◌, sym, ap, [], ◌∷◌, get_or, eq_false, leb-false, arith, ◌≢◌, ◌⊎◌, refl, inl,
  inr, List, Option, none, some, map, ltb, Bool-cases,
}
use s_zip.External.{External}
use s_zip.Compress.{CompressionMethod, stored, deflate, zstd, adaptive_sizes}
use s_zip.Compress
use s_zip.Central
use s_zip.Writer
use s_zip.Outcome.{ok}
use s_zip.AsyncWriter.Compress.{
  AsyncExternal, Level, fastest, best, default_level, precise, deflate_level, CompressedBuffer,
  flush_threshold_for, with_size_hint, Compressor, deflate_compressor, zstd_compressor,
  stored_compressor, new_compressor, write_flush, get_buffer, set_buffer, finish_compression,
  CrcCounter,
}
use s_zip.AsyncWriter.{ZipEntry, CurrentEntry, AsyncStreamingZipWriter}

-- How `flate2` and `zstd` make an encoder for the synchronous writer, which gives its level to them;
-- `zstd` may refuse.
pub record SyncEncoders (ext : AsyncExternal) : Type 0 where
  pub deflate_new : ℕ → ext.deflate.State
  pub zstd_new : ℕ → Option ext.zstd.State

-- The quality that `async_compression` documents for a level of deflate.
abbrev pub quality : Level → ℕ
quality fastest = 1
quality best = 9
quality default_level = 6
quality (precise n) = n

-- The encoders of `async_compression` are those of the packages that it wraps: for deflate at the
-- quality of the level, for zstd at the precise level.
pub record SameEncoders (ext : AsyncExternal) (enc : SyncEncoders ext) : Type 0 where
  pub deflate_same : (level : Level) → ext.deflate_with level ≡ enc.deflate_new (quality level)
  pub zstd_same :
      (level : ℕ) (s : ext.zstd.State)
      → enc.zstd_new level ≡ some s
      → ext.zstd_with (precise level) ≡ s

-- The quality that the asynchronous writer uses for deflate at a level, as a table.
abbrev pub used_level : ℕ → ℕ
used_level level = get_or (1 ∷ 1 ∷ 2 ∷ 3 ∷ 6 ∷ 6 ∷ 6 ∷ 9 ∷ 9 ∷ 9 ∷ []) level 6

-- The level at which the synchronous writer does the same.
abbrev pub sync_level : CompressionMethod → ℕ → ℕ
sync_level deflate level = used_level level
sync_level zstd level = level
sync_level stored level = level

-- The packages as the synchronous writer takes them.
abbrev pub as_external : (ext : AsyncExternal) → SyncEncoders ext → External
as_external ext enc = record {
  crypto = ext.crypto;
  hasher = ext.hasher;
  deflate = ext.deflate;
  deflate_new = enc.deflate_new;
  inflate = ext.inflate;
  zstd = ext.zstd;
  zstd_new = enc.zstd_new;
  unzstd = ext.unzstd;
}

abbrev pub sync_buffer : CompressedBuffer → Compress.CompressedBuffer
sync_buffer b = record { buffer = b.buffer; flush_threshold = b.flush_threshold }

abbrev pub sync_entry : ZipEntry → Central.ZipEntry
sync_entry e = record {
  name = e.name;
  local_header_offset = e.local_header_offset;
  crc32 = e.crc32;
  compressed_size = e.compressed_size;
  uncompressed_size = e.uncompressed_size;
  compression_method = e.compression_method;
  encryption_strength = e.encryption_strength;
}

-- The level names the quality of the table.
quality-deflate_level : (level : ℕ) → quality (deflate_level level) ≡ used_level level
unfolding deflate_level
quality-deflate_level zero = refl
quality-deflate_level (suc zero) = refl
quality-deflate_level (suc (suc zero)) = refl
quality-deflate_level (suc (suc (suc zero))) = refl
quality-deflate_level (suc (suc (suc (suc zero)))) = refl
quality-deflate_level (suc (suc (suc (suc (suc zero))))) = refl
quality-deflate_level (suc (suc (suc (suc (suc (suc zero)))))) = refl
quality-deflate_level (suc (suc (suc (suc (suc (suc (suc zero))))))) = refl
quality-deflate_level (suc (suc (suc (suc (suc (suc (suc (suc zero)))))))) = refl
quality-deflate_level (suc (suc (suc (suc (suc (suc (suc (suc (suc zero))))))))) = refl
quality-deflate_level (suc (suc (suc (suc (suc (suc (suc (suc (suc (suc n)))))))))) =
    let level = suc (suc (suc (suc (suc (suc (suc (suc (suc (suc n))))))))) in
    rw (
      eq_false level 0 (λ e. omega arith),
      leb-false level 3 (omega arith),
      leb-false level 6 (omega arith),
      leb-false level 9 (omega arith),
    )

module _ (ext : AsyncExternal) (enc : SyncEncoders ext) where
  abbrev pub sync_compressor : Compressor ext → Compress.Compressor (as_external ext enc)
  sync_compressor (deflate_compressor s b) = Compress.deflate_compressor s (sync_buffer b)
  sync_compressor (zstd_compressor s b) = Compress.zstd_compressor s (sync_buffer b)
  sync_compressor (stored_compressor b) = Compress.stored_compressor (sync_buffer b)

  abbrev pub sync_counter : CrcCounter ext.hasher → Compress.CrcCounter ext.hasher
  sync_counter k = record {
    crc = k.crc;
    uncompressed_count = k.uncompressed_count;
    compressed_count = k.compressed_count;
  }

  abbrev pub sync_current : CurrentEntry ext → Writer.CurrentEntry (as_external ext enc)
  sync_current c = record {
    name = c.name;
    local_header_offset = c.local_header_offset;
    encoder = sync_compressor c.encoder;
    counter = sync_counter c.counter;
    compression_method = c.compression_method;
    encryptor = c.encryptor;
  }

  abbrev pub sync_option :
      Option (CurrentEntry ext) → Option (Writer.CurrentEntry (as_external ext enc))
  sync_option none = none
  sync_option (some c) = some (sync_current c)

  -- The sink is the one below.
  abbrev pub sync : AsyncStreamingZipWriter ext → Writer.StreamingZipWriter (as_external ext enc)
  sync w = record {
    output = w.output.sink;
    entries = map sync_entry w.entries;
    current_entry = sync_option w.current_entry;
    compression_level = sync_level w.compression_method w.compression_level;
    compression_method = w.compression_method;
    password = w.password;
    encryption_strength = w.encryption_strength;
  }

  pub write_flush-sync :
      (k : Compressor ext) (bytes : List ℕ)
      → Compress.write_flush (as_external ext enc) (sync_compressor k) bytes
        ≡ sync_compressor (write_flush ext k bytes)
  unfolding Compress.write_flush write_flush
  write_flush-sync (deflate_compressor s b) bytes = refl
  write_flush-sync (zstd_compressor s b) bytes = refl
  write_flush-sync (stored_compressor b) bytes = refl

  pub get_buffer-sync :
      (k : Compressor ext)
      → Compress.get_buffer (as_external ext enc) (sync_compressor k)
        ≡ sync_buffer (get_buffer ext k)
  unfolding Compress.get_buffer get_buffer
  get_buffer-sync (deflate_compressor s b) = refl
  get_buffer-sync (zstd_compressor s b) = refl
  get_buffer-sync (stored_compressor b) = refl

  pub set_buffer-sync :
      (k : Compressor ext) (b : CompressedBuffer)
      → Compress.set_buffer (as_external ext enc) (sync_compressor k) (sync_buffer b)
        ≡ sync_compressor (set_buffer ext k b)
  unfolding Compress.set_buffer set_buffer
  set_buffer-sync (deflate_compressor s b) b' = refl
  set_buffer-sync (zstd_compressor s b) b' = refl
  set_buffer-sync (stored_compressor b) b' = refl

  pub finish_compression-sync :
      (k : Compressor ext)
      → Compress.finish_compression (as_external ext enc) (sync_compressor k)
        ≡ sync_buffer (finish_compression ext k)
  unfolding Compress.finish_compression finish_compression
  finish_compression-sync (deflate_compressor s b) = refl
  finish_compression-sync (zstd_compressor s b) = refl
  finish_compression-sync (stored_compressor b) = refl

  with_size_hint-sync :
      (hint : Option ℕ) → Compress.with_size_hint hint ≡ sync_buffer (with_size_hint hint)
  unfolding Compress.with_size_hint with_size_hint flush_threshold_for adaptive_sizes
  with_size_hint-sync none = refl
  with_size_hint-sync (some size) = elim (Bool-cases (ltb size 10_000)) [
    | inl e ↦ rw e
    | inr e ↦ elim (Bool-cases (ltb size 100_000)) [
      | inl f ↦ rw (e, f)
      | inr f ↦ elim (Bool-cases (ltb size 1_000_000)) [
        | inl g ↦ rw (e, f, g)
        | inr g ↦ elim (Bool-cases (ltb size 10_000_000)) [
          | inl h ↦ rw (e, f, g, h)
          | inr h ↦ rw (e, f, g, h)
        ]
      ]
    ]
  ]

  -- Where the two writers take the hint alike: the synchronous one ignores it for a stored entry.
  abbrev pub TakesHint : CompressionMethod → Option ℕ → Type 0
  TakesHint m hint = (hint ≡ none) ⊎ (m ≢ stored)

  -- Where the synchronous writer gets an encoder at all: `zstd` does not refuse the level.
  abbrev pub MakesEncoder : CompressionMethod → ℕ → Type 0
  MakesEncoder deflate level = Unit {0}
  MakesEncoder zstd level = (s : ext.zstd.State) × (enc.zstd_new level ≡ some s)
  MakesEncoder stored level = Unit {0}

  pub new_compressor-sync :
      SameEncoders ext enc
      → (m : CompressionMethod) (level : ℕ) (hint : Option ℕ) → MakesEncoder m level
      → TakesHint m hint
      → Compress.new_compressor (as_external ext enc) m (sync_level m level) hint
        ≡ ok (sync_compressor (new_compressor ext m level hint))
  unfolding Compress.new_compressor new_compressor
  new_compressor-sync alike deflate level hint made h = λ i. ok (
      Compress.deflate_compressor
        (sym
          (alike.deflate_same (deflate_level level)
            ∙ ap enc.deflate_new (quality-deflate_level level))
          i)
        (with_size_hint-sync hint i))
  new_compressor-sync alike zstd level hint (s, made) h =
      rw (made, Compress.new_compressor)
        (λ i. ok (
          Compress.zstd_compressor (sym (alike.zstd_same level s made) i)
            (with_size_hint-sync hint i)))
  new_compressor-sync alike stored level hint made (inl e) =
      rw e (λ i. ok (Compress.stored_compressor (with_size_hint-sync none i)))
  new_compressor-sync alike stored level hint made (inr p) = absurd (p refl)
