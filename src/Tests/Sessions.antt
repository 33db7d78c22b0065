-- ===== src/Tests/Sessions.antt =====
-- Sessions with the writer of src/writer.rs and the reader of src/reader.rs on concrete inputs.
use s_zip.Common.{
  ℕ, ◌+◌, ◌*◌, ◌<◌, ◌≤◌, ◌≡◌, refl, sym, ap, ◌∙◌, List, [], ◌∷◌, Option, none, some, arith,
  bytes_eq, length, map, replicate, length-replicate, All, inl, inr,
}
use s_zip.Outcome.{ok}
use s_zip.Utf8.{empty, one}
use s_zip.Reader.{read_central_directory}
use s_zip.Entry.{open_reader}
use s_zip.Writer.{CurrentEntry, finish}
use s_zip.Writer.Finish.{finish_current_entry-none}
use s_zip.Writer.Cipher.{InStream}
use s_zip.Writer.Progress.{Progress}
use s_zip.Writer.WriteData.{holding, HasRoom, write_all_data, write_all_data-Progress}
use s_zip.Writer.Start.{before_data, write_entry, write_entry-written, opened-Progress}
use s_zip.RoundTrip.Directory.{archive, size_of}
use s_zip.RoundTrip.Archive.{read_central_directory-archive}
use s_zip.RoundTrip.Entry.{seen}
use s_zip.RoundTrip.Whole.{started, opened_reader, open_reader-finish}
use s_zip.Tests.Absent.{absent, absent-not}
use s_zip.Options.{default_options}
use s_zip.Encryption.{
  AesEncryptor, aes256, salt_size, key_size, derived_key_size, to_winzip_code, apply_keystream,
  new_encryptor, generate_salt, init_hmac, finalize_encryptor,
}
use s_zip.Central.{ZipEntry, central_headers, end_records}
use s_zip.Sink.{Sink}
use s_zip.Writer.{StreamingZipWriter, from_writer, set_password}
use s_zip.RoundTrip.Entry.{IsReadable}
use s_zip.RoundTrip.Directory.{IsOpenable}
use s_zip.External.{hash_chunks, encode_chunks}
use s_zip.Options.{msdos_datetime, unix_extra_field}
use s_zip.Compress.{
  Compressor, deflate_compressor, to_zip_method, new_counter, add_compressed, new_compressor,
  with_size_hint,
}
use s_zip.Compress.Remaining.{remaining}
use s_zip.Writer.{local_header, finish_encryption, data_descriptor}
use s_zip.Writer.Cipher.{cipher, moved, hash_macs}
use s_zip.RoundTrip.Whole.{
  with_entry, new_entry, new_data, Session, Succeeds, plain_session, sealed_session,
}
use s_zip.Tests.Toy.{toy, toy_counter_mode, toy_mac, toy_codec, toy_hasher_laws}

abbrev hello : List ℕ
hello = 104 ∷ 101 ∷ 108 ∷ 108 ∷ 111 ∷ []

abbrev pub hello_chunks : List (List ℕ)
hello_chunks = (104 ∷ 101 ∷ []) ∷ (108 ∷ 108 ∷ 111 ∷ []) ∷ []

abbrev pub file_name : List ℕ
file_name = b'a' ∷ b'.' ∷ b't' ∷ []

-- What the sink has before the entry.
abbrev earlier : List ℕ
earlier = 1 ∷ 2 ∷ 3 ∷ []

abbrev sink : Sink
sink = record { written = earlier; capacity = 1000 }

abbrev pub toy_writer : StreamingZipWriter toy
toy_writer = from_writer toy sink

abbrev pub toy_encoder_state : Compressor toy
toy_encoder_state =
    deflate_compressor tt (record { buffer = []; flush_threshold = 8 * 1024 * 1024 })

abbrev pub no_rng : ℕ → Option (List ℕ)
no_rng n = none

abbrev ended : StreamingZipWriter toy
ended =
    with_entry toy toy_counter_mode no_rng file_name none none toy_writer none toy_encoder_state
      hello_chunks

written_size : length ended.output.written ≡ 3 + 30 + 3 + 5 + 16
unfolding from_writer cipher moved remaining finish_encryption data_descriptor hash_chunks
    encode_chunks new_counter local_header msdos_datetime unix_extra_field to_zip_method
written_size = refl

abbrev hello_entry : ZipEntry
hello_entry =
    new_entry toy toy_counter_mode no_rng file_name none none toy_writer none toy_encoder_state
      hello_chunks

hello_entry-IsReadable : IsReadable hello_entry
unfolding from_writer cipher moved remaining finish_encryption data_descriptor hash_chunks
    encode_chunks new_counter local_header msdos_datetime unix_extra_field to_zip_method
hello_entry-IsReadable = record {
  utf8 = one (omega arith) (one (omega arith) (one (omega arith) empty));
  name_fits = omega arith;
  method_fits = omega arith;
  crc_fits = omega arith;
  compressed_fits = omega arith;
  uncompressed_fits = omega arith;
  offset_fits = omega arith;
  compressed_plain = λ e. omega arith;
  uncompressed_plain = λ e. omega arith;
  offset_plain = λ e. omega arith;
  encrypted_narrow = inl refl;
}

ended-IsOpenable : IsOpenable ended.output.written ended.entries
unfolding from_writer cipher moved remaining finish_encryption data_descriptor hash_chunks
    encode_chunks new_counter local_header msdos_datetime unix_extra_field to_zip_method
    central_headers end_records absent bytes_eq
ended-IsOpenable = record {
  readable = (hello_entry-IsReadable, tt);
  count_plain = λ e. omega arith;
  size_plain = λ e. omega arith;
  offset_plain = λ e. omega arith;
  allocates = omega arith;
  small = omega arith;
  record_alone = λ j lo hi. absent-not _ 5 6 19 refl j lo (omega arith);
  locator_alone = λ j lo hi. absent-not _ 6 7 39 refl j lo (omega arith);
}

pub hello_session :
    Session toy toy_counter_mode no_rng file_name none none toy_writer none toy_encoder_state
      hello_chunks
unfolding from_writer cipher moved remaining finish_encryption data_descriptor hash_chunks
    encode_chunks new_counter local_header msdos_datetime unix_extra_field to_zip_method
    central_headers end_records new_compressor with_size_hint
hello_session = record {
  can_open = record { none_open = refl; makes_encryptor = refl; makes_encoder = refl };
  name_fits = omega arith;
  not_large = omega arith;
  room = omega arith;
  openable = ended-IsOpenable;
}

plain_session_example :
    Succeeds toy toy_counter_mode no_rng file_name none none toy_writer none toy_encoder_state
      hello_chunks none
plain_session_example =
    plain_session toy toy_counter_mode toy_codec toy_hasher_laws no_rng file_name none none
      toy_writer toy_encoder_state hello_chunks none hello_session

-- The same under a password.
abbrev pub toy_password : List ℕ
toy_password = b'p' ∷ b'w' ∷ []

abbrev pub toy_rng : ℕ → Option (List ℕ)
toy_rng n = some (replicate n 9)

abbrev pub keyed_writer : StreamingZipWriter toy
keyed_writer = record toy_writer { password = some toy_password }

abbrev pub toy_encryptor : AesEncryptor toy.crypto
toy_encryptor = record {
  strength = aes256;
  salt = replicate 16 9;
  password_verify = 7 ∷ 7 ∷ [];
  encryption_key = replicate 32 7;
  auth_key = replicate 32 7;
  hmac = replicate 32 7;
  byte_offset = 0;
}

some_inj : {a b : List ℕ} → some a ≡ some b → a ≡ b
some_inj {a} h = ap (λ o. elim o [ some x ↦ x | none ↦ a ]) h

pub fills : (n : ℕ) (salt : List ℕ) → toy_rng n ≡ some salt → length salt ≡ n
fills n salt h = sym (ap length (some_inj h)) ∙ length-replicate n 9

keyed : keyed_writer.password ≡ some toy_password
keyed = refl

abbrev pub sealed : StreamingZipWriter toy
sealed =
    with_entry toy toy_counter_mode toy_rng file_name none none keyed_writer (some toy_encryptor)
      toy_encoder_state hello_chunks

pub sealed_size : length sealed.output.written ≡ 3 + 30 + 3 + 11 + 16 + 2 + 5 + 10 + 16
unfolding from_writer set_password apply_keystream finalize_encryptor hash_macs to_winzip_code
    add_compressed cipher moved remaining finish_encryption data_descriptor hash_chunks
    encode_chunks new_counter local_header msdos_datetime unix_extra_field to_zip_method
sealed_size = refl

abbrev pub sealed_entry : ZipEntry
sealed_entry =
    new_entry toy toy_counter_mode toy_rng file_name none none keyed_writer (some toy_encryptor)
      toy_encoder_state hello_chunks

sealed_entry-IsReadable : IsReadable sealed_entry
unfolding from_writer set_password apply_keystream finalize_encryptor hash_macs to_winzip_code
    add_compressed cipher moved remaining finish_encryption data_descriptor hash_chunks
    encode_chunks new_counter local_header msdos_datetime unix_extra_field to_zip_method
sealed_entry-IsReadable = record {
  utf8 = one (omega arith) (one (omega arith) (one (omega arith) empty));
  name_fits = omega arith;
  method_fits = omega arith;
  crc_fits = omega arith;
  compressed_fits = omega arith;
  uncompressed_fits = omega arith;
  offset_fits = omega arith;
  compressed_plain = λ e. omega arith;
  uncompressed_plain = λ e. omega arith;
  offset_plain = λ e. omega arith;
  encrypted_narrow = inr (omega arith, omega arith, omega arith);
}

sealed-IsOpenable : IsOpenable sealed.output.written sealed.entries
unfolding from_writer set_password apply_keystream finalize_encryptor hash_macs to_winzip_code
    add_compressed cipher moved remaining finish_encryption data_descriptor hash_chunks
    encode_chunks new_counter local_header msdos_datetime unix_extra_field to_zip_method
    central_headers end_records absent bytes_eq
sealed-IsOpenable = record {
  readable = (sealed_entry-IsReadable, tt);
  count_plain = λ e. omega arith;
  size_plain = λ e. omega arith;
  offset_plain = λ e. omega arith;
  allocates = omega arith;
  small = omega arith;
  record_alone = λ j lo hi. absent-not _ 5 6 19 refl j lo (omega arith);
  locator_alone = λ j lo hi. absent-not _ 6 7 39 refl j lo (omega arith);
}

hello_bytes :
    All
      (λ b. b < 256)
      (new_data toy toy_counter_mode toy_rng file_name none none keyed_writer
        (some toy_encryptor)
        toy_encoder_state
        hello_chunks)
unfolding remaining encode_chunks
hello_bytes = (omega arith, (omega arith, (omega arith, (omega arith, (omega arith, tt)))))

sealed_hello :
    Session toy toy_counter_mode toy_rng file_name none none keyed_writer
      (some toy_encryptor)
      toy_encoder_state
      hello_chunks
unfolding from_writer set_password apply_keystream finalize_encryptor hash_macs to_winzip_code
    add_compressed cipher moved remaining finish_encryption data_descriptor hash_chunks
    encode_chunks new_counter local_header msdos_datetime unix_extra_field to_zip_method
    central_headers end_records new_compressor with_size_hint new_encryptor generate_salt init_hmac
    salt_size key_size derived_key_size
sealed_hello = record {
  can_open = record { none_open = refl; makes_encryptor = refl; makes_encoder = refl };
  name_fits = omega arith;
  not_large = omega arith;
  room = omega arith;
  openable = sealed-IsOpenable;
}

sealed_session_example :
    Succeeds toy toy_counter_mode toy_rng file_name none none keyed_writer
      (some toy_encryptor)
      toy_encoder_state
      hello_chunks
      (some toy_password)
sealed_session_example =
    sealed_session toy toy_counter_mode toy_mac toy_codec toy_rng file_name none none keyed_writer
      toy_encryptor toy_encoder_state hello_chunks toy_password fills keyed hello_bytes sealed_hello

read_central_directory-archive_example :
    read_central_directory (record { bytes = archive ended.output.written ended.entries; pos = 0 })
    ≡ ok (
      map seen ended.entries,
      record {
        bytes = archive ended.output.written ended.entries;
        pos = length ended.output.written + size_of ended.entries;
      },
    )
read_central_directory-archive_example =
    read_central_directory-archive ended.output.written ended.entries 0 ended-IsOpenable

open_reader-finish_example :
    (sink : Sink) × (finish toy ended ≡ ok sink)
    × (open_reader sink.written ≡ ok (opened_reader ended.output.written ended.entries))
open_reader-finish_example =
    open_reader-finish toy ended ended (finish_current_entry-none toy ended refl) hello_session.room
      ended-IsOpenable

hello_stream : InStream toy toy_counter_mode none (
    length (
      new_data toy toy_counter_mode no_rng file_name none none toy_writer none toy_encoder_state
        hello_chunks))
unfolding InStream
hello_stream = tt

written_room : length ended.output.written ≤ toy_writer.output.capacity
unfolding from_writer
written_room = omega (arith, written_size)

write_entry-written_example :
    write_entry toy no_rng file_name default_options none hello_chunks toy_writer ≡ (ok tt, ended)
write_entry-written_example =
    write_entry-written toy no_rng file_name default_options none toy_writer none toy_encoder_state
      toy_counter_mode hello_session.can_open hello_chunks hello_stream written_room

abbrev hello_start : CurrentEntry toy
hello_start =
    started toy toy_counter_mode no_rng file_name none none toy_writer none toy_encoder_state
      hello_chunks

abbrev hello_base : List ℕ
hello_base = before_data toy no_rng file_name default_options none toy_writer none toy_encoder_state

hello_room :
    HasRoom toy toy_counter_mode hello_start toy_writer hello_base
      (length (remaining toy toy_encoder_state hello_chunks))
unfolding from_writer remaining encode_chunks local_header msdos_datetime unix_extra_field
    to_zip_method InStream
hello_room = record { fits = omega arith; in_stream = tt }

write_all_data-Progress_example :
    (raw : List ℕ) × (c : CurrentEntry toy) × (write_all_data toy hello_chunks
        (holding toy toy_counter_mode hello_start toy_writer hello_base [] (some hello_start))
      ≡ (ok tt, holding toy toy_counter_mode hello_start toy_writer hello_base raw (some c)))
    × Progress toy toy_counter_mode hello_start hello_chunks raw c
write_all_data-Progress_example =
    write_all_data-Progress toy toy_counter_mode hello_start toy_writer hello_base [] [] hello_start
      hello_chunks
      (opened-Progress toy no_rng file_name default_options none toy_writer none toy_encoder_state
        toy_counter_mode hello_session.can_open)
      hello_room
