-- ===== src/Writer/Start.antt =====
-- One entry of src/writer.rs from `start_entry_with_options_and_hint` on to the closing, where the sink has
-- room.
use s_zip.Common.{
  ℕ, ◌+◌, ◌%◌, ◌≤◌, ◌≡◌, refl, sym, ap, ◌∙◌, List, [], ◌++◌, Option, none, some, arith, length,
  flatten, append-nil, length-append, u64_mod,
}
use s_zip.Outcome.{ok}
use s_zip.External.{External, hash_chunks}
use s_zip.Encryption.{CounterMode, AesEncryptor}
use s_zip.Options.{EntryOptions}
use s_zip.Compress.{Compressor, to_zip_method, new_compressor, new_counter, add_compressed}
use s_zip.Compress.Counted.{counted}
use s_zip.Sink.{◌>>◌, gets, lift, stream_position, write_chunks}
use s_zip.Sink.Chunks.{write_chunks_room, bind_ok}
use s_zip.Writer.{
  CurrentEntry, StreamingZipWriter, Writing, make_encryptor, initial_counter, local_header,
  set_current, finish_current_entry, start_entry_with_options_and_hint,
}
use s_zip.Writer.Finish.{on_output_ok, finish_current_entry-none}
use s_zip.Writer.Cipher.{cipher, InStream, length-cipher, cipher_nil, moved_nil}
use s_zip.Writer.Progress.{Progress}
use s_zip.Writer.WriteData.{holding, HasRoom, write_all_data, write_all_data-Progress}
use s_zip.Writer.Close.{all_compressed, closed_bytes, closed_writer, finish_current_entry-written}

module _ (ext : External) where
  -- The calls that write one entry.
  unfoldable pub write_entry :
      (ℕ → Option (List ℕ))
      → List ℕ
      → EntryOptions
      → Option ℕ
      → List (List ℕ)
      → Writing ext (Unit {0})
  write_entry rng name options hint chunks = do
    start_entry_with_options_and_hint ext rng name options hint
    write_all_data ext chunks
    finish_current_entry ext

module _ (ext : External) (rng : ℕ → Option (List ℕ)) (name : List ℕ) (options : EntryOptions)
    (hint : Option ℕ) (w : StreamingZipWriter ext) (encryptor : Option (AesEncryptor ext.crypto))
    (encoder : Compressor ext) where
  abbrev pub method : ℕ
  method = to_zip_method w.compression_method

  abbrev pub header : List (List ℕ)
  header = local_header ext name options method encryptor

  -- What is in the file before the entry's data.
  abbrev pub before_data : List ℕ
  before_data = w.output.written ++ flatten header

  -- The entry as it is opened.
  abbrev pub opened : CurrentEntry ext
  opened = record {
    name = name;
    local_header_offset = length w.output.written;
    encoder = encoder;
    counter = initial_counter ext encryptor;
    compression_method = method;
    encryptor = encryptor;
  }

  -- The conditions that an entry can be opened under: no other entry is open, and the random
  -- generator and the encoder do not refuse.
  pub record CanOpen : Type 0 where
    pub none_open : w.current_entry ≡ none
    pub makes_encryptor : make_encryptor ext rng w.password w.encryption_strength ≡ ok encryptor
    pub makes_encoder :
        new_compressor ext w.compression_method w.compression_level hint ≡ ok encoder

  module _ (laws : CounterMode ext.crypto) (h : CanOpen) where
    start_entry-written :
        length before_data ≤ w.output.capacity
        → start_entry_with_options_and_hint ext rng name options hint w
          ≡ (ok tt, holding ext laws opened w before_data [] (some opened))
    unfolding start_entry_with_options_and_hint gets lift set_current stream_position
    start_entry-written room =
        bind_ok _ _ (finish_current_entry-none ext w h.none_open)
        ∙ bind_ok _ _ (on_output_ok ext stream_position _ refl)
        ∙ bind_ok _ _ refl
        ∙ bind_ok _ _ (ap (λ r. (r, record w { current_entry = none })) h.makes_encryptor)
        ∙ bind_ok _ _ (
            on_output_ok ext (write_chunks header) (record w { current_entry = none })
              (write_chunks_room header w.output
                (omega (arith, length-append w.output.written (flatten header)))))
        ∙ bind_ok _ _ (
            ap
              (λ r. (
                r,
                record w {
                  current_entry = none;
                  output = record w.output { written = before_data };
                },
              ))
              h.makes_encoder)
        ∙ ap
            (λ (t : List ℕ). (
              ok tt,
              record w { current_entry = some opened; output = record w.output { written = t } },
            ))
            (sym (append-nil before_data)
              ∙ ap (λ (t : List ℕ). before_data ++ t) (sym (cipher_nil ext laws encryptor)))

    pub opened-Progress : Progress ext laws opened [] [] opened
    unfolding counted hash_chunks new_counter add_compressed
    opened-Progress = record {
      same_name = refl;
      same_offset = refl;
      same_method = refl;
      compressed = λ ys. refl;
      counter = counter_same encryptor;
      encryptor = sym (moved_nil ext laws encryptor);
    }
      where
        counter_same :
            (e : Option (AesEncryptor ext.crypto))
            → initial_counter ext e ≡ counted ext.hasher (initial_counter ext e) [] 0
        counter_same none = refl
        counter_same (some e) =
            let z : (0 + (length e.salt + 2)) % u64_mod
                ≡ ((0 + (length e.salt + 2)) % u64_mod + 0) % u64_mod =
              omega arith in
            rw (sym z)

    -- One entry, from its opening to its closing: the writer writes the header, the data of the
    -- chunks compressed and encrypted as one, the code and the descriptor, and adds the entry to
    -- its list with the checksum and the sizes of what was written.
    pub write_entry-written :
        (chunks : List (List ℕ))
        → InStream ext laws encryptor (length (all_compressed ext laws opened chunks))
        → length (before_data ++ closed_bytes ext laws opened chunks) ≤ w.output.capacity
        → write_entry ext rng name options hint chunks w
          ≡ (ok tt, closed_writer ext laws opened w before_data chunks)
    unfolding write_entry
    write_entry-written chunks stream room =
        let start : length before_data + length (all_compressed ext laws opened chunks)
            ≤ w.output.capacity =
          omega (
            arith,
            length-append before_data (closed_bytes ext laws opened chunks),
            length-append (cipher ext laws encryptor (all_compressed ext laws opened chunks)) _,
            length-cipher ext laws encryptor (all_compressed ext laws opened chunks),
          ) in
        let has_room : HasRoom ext laws opened w before_data
            (length (all_compressed ext laws opened chunks)) =
          record { fits = start; in_stream = stream } in
        let (raw, c, e, p) =
          write_all_data-Progress ext laws opened w before_data [] [] opened chunks opened-Progress
            has_room in
        bind_ok _ _ (start_entry-written (omega arith))
        ∙ bind_ok _ _ e
        ∙ finish_current_entry-written ext laws opened w before_data chunks room raw c p has_room
