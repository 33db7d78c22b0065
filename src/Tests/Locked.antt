-- ===== src/Tests/Locked.antt =====
-- An entry of src/writer.rs that src/reader.rs reads with its password, and not without it.
use s_zip.Common.{
  ◌^◌, ◌<◌, ◌≤◌, ◌≡◌, ◌≢◌, refl, ap, [], ◌∷◌, ◌++◌, some, none, arith, append-nil, get_or, length,
  flatten, replicate,
}
use s_zip.Outcome.{ok, err, incorrect_password, invalid_format, no_password}
use s_zip.Format.{max_entry_alloc}
use s_zip.Encryption.{
  AesEncryptor, aes256, salt_size, key_size, derived_key_size, new_encryptor, generate_salt,
  init_hmac,
}
use s_zip.External.{encode_chunks}
use s_zip.Compress.{new_compressor, with_size_hint}
use s_zip.Compress.Remaining.{remaining}
use s_zip.Entry.{StreamingZipReader, read_entry_data}
use s_zip.Entry.Sound.{IsSound, read_entry-IsSound}
use s_zip.Writer.{from_writer, set_password}
use s_zip.RoundTrip.Entry.{seen}
use s_zip.RoundTrip.Sealed.{read_entry_data-locked}
use s_zip.RoundTrip.Whole.{Succeeds, new_data, new_entry, with_entry, opened_reader, plain_session}
use s_zip.Tests.Sessions.{
  hello_chunks, file_name, toy_password, toy_rng, keyed_writer, toy_encryptor, sealed, sealed_entry,
  toy_encoder_state, toy_writer, no_rng, fills, sealed_size, hello_session,
}
use s_zip.Tests.Toy.{toy, toy_crypto, toy_counter_mode, toy_mac, toy_codec, toy_hasher_laws}

-- What another password would have made with the same salt.
abbrev other_encryptor : AesEncryptor toy_crypto
other_encryptor = record {
  strength = aes256;
  salt = replicate 16 9;
  password_verify = 8 ∷ 8 ∷ [];
  encryption_key = replicate 32 8;
  auth_key = replicate 32 8;
  hmac = replicate 32 8;
  byte_offset = 0;
}

verify_differs : other_encryptor.password_verify ≢ toy_encryptor.password_verify
verify_differs q = absurd (omega (arith, ap (λ bytes. get_or bytes 0 0) q))

makes_toy :
    new_encryptor toy_crypto toy_rng toy_password keyed_writer.encryption_strength
    ≡ ok toy_encryptor
unfolding from_writer set_password new_encryptor generate_salt init_hmac salt_size key_size
    derived_key_size
makes_toy = refl

makes_other :
    new_encryptor toy_crypto toy_rng (0 ∷ []) keyed_writer.encryption_strength ≡ ok other_encryptor
unfolding from_writer set_password new_encryptor generate_salt init_hmac salt_size key_size
    derived_key_size
makes_other = refl

made_toy :
    new_compressor toy keyed_writer.compression_method keyed_writer.compression_level none
    ≡ ok toy_encoder_state
unfolding from_writer set_password new_compressor with_size_hint
made_toy = refl

data_small :
    length (
      new_data toy toy_counter_mode toy_rng file_name none none keyed_writer
        (some toy_encryptor)
        toy_encoder_state
        hello_chunks)
    ≤ max_entry_alloc
unfolding remaining encode_chunks
data_small = omega arith

file_small : length (sealed.output.written ++ []) < 2 ^ 63
file_small = omega (arith, sealed_size, ap length (append-nil sealed.output.written))

read_entry_data-locked_example :
    (read_entry_data toy
        (some (0 ∷ []))
        (seen sealed_entry)
        (record { bytes = sealed.output.written ++ []; pos = 0 })
      ≡ err incorrect_password)
    × (read_entry_data toy none
          (seen sealed_entry)
          (record { bytes = sealed.output.written ++ []; pos = 0 })
        ≡ err (invalid_format no_password))
read_entry_data-locked_example =
    read_entry_data-locked toy toy_counter_mode toy_mac toy_codec toy_rng fills file_name none none
      keyed_writer toy_password toy_encryptor makes_toy toy_encoder_state made_toy (omega arith)
      hello_chunks (0 ∷ []) other_encryptor [] 0 makes_other verify_differs data_small file_small

-- The session without a password.
hello_read :
    Succeeds toy toy_counter_mode no_rng file_name none none toy_writer none toy_encoder_state
      hello_chunks none
hello_read =
    plain_session toy toy_counter_mode toy_codec toy_hasher_laws no_rng file_name none none
      toy_writer toy_encoder_state hello_chunks none hello_session

abbrev ended : StreamingZipReader
ended =
    let w =
      with_entry toy toy_counter_mode no_rng file_name none none toy_writer none toy_encoder_state
        hello_chunks in
    opened_reader w.output.written w.entries

read_entry-IsSound_example :
    IsSound toy
      (seen (
        new_entry toy toy_counter_mode no_rng file_name none none toy_writer none toy_encoder_state
          hello_chunks))
      (record ended { password = none })
      (flatten hello_chunks)
      (record { file = hello_read.position; entries = ended.entries; password = none })
read_entry-IsSound_example =
    read_entry-IsSound toy
      (seen (
        new_entry toy toy_counter_mode no_rng file_name none none toy_writer none toy_encoder_state
          hello_chunks))
      (record ended { password = none }) (flatten hello_chunks)
      (record { file = hello_read.position; entries = ended.entries; password = none })
      hello_read.reads
