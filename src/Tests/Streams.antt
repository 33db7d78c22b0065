-- ===== src/Tests/Streams.antt =====
-- The decrypting reader of src/decrypt_reader.rs on a concrete input.
use s_zip.Common.{◌≡◌, ◌↔◌, refl, [], ◌∷◌, arith, flatten, replicate}
use s_zip.Outcome.{ok}
use s_zip.Encryption.{
  encrypt, decrypt, apply_keystream, apply_ctr_keystream, update_decryptor_hmac, finalize_encryptor,
}
use s_zip.Encryption.Session.{encrypt_chunks, hash_encryptor}
use s_zip.DecryptReader.{DecryptingReader, finish, read, read_all}
use s_zip.DecryptReader.Whole.{read_all-encrypt_chunks, finish-read_all}
use s_zip.Tests.Toy.{toy_crypto, toy_counter_mode, toy_mac}
use s_zip.Tests.Ciphers.{e, d, plain, matching, plain_bytes}

abbrev reader : DecryptingReader toy_crypto
reader = record { inner = 1 ∷ 3 ∷ 1 ∷ 249 ∷ []; decryptor = d; auth_code = replicate 10 7 }

reader_encrypted : reader.inner ≡ encrypt_chunks toy_crypto e plain
unfolding encrypt_chunks encrypt apply_ctr_keystream apply_keystream
reader_encrypted = refl

-- Three bytes, none, and what is left.
read_all-encrypt_chunks_example : (read_all toy_crypto (3 ∷ 0 ∷ 8 ∷ []) reader).0 ≡ flatten plain
read_all-encrypt_chunks_example =
    read_all-encrypt_chunks toy_crypto toy_counter_mode toy_mac e plain reader (3 ∷ 0 ∷ 8 ∷ [])
      matching plain_bytes (omega arith) reader_encrypted refl

first_read : flatten ((1 ∷ 2 ∷ []) ∷ (3 ∷ []) ∷ []) ≡ (read_all toy_crypto (3 ∷ []) reader).0
unfolding read_all read decrypt apply_ctr_keystream apply_keystream update_decryptor_hmac
first_read = refl

finish-read_all_example : (finish toy_crypto (read_all toy_crypto (3 ∷ []) reader).1 ≡ ok tt) ↔ (
    finalize_encryptor toy_crypto (hash_encryptor toy_crypto e ((1 ∷ 2 ∷ []) ∷ (3 ∷ []) ∷ []))
    ≡ replicate 10 7)
finish-read_all_example =
    finish-read_all toy_crypto toy_mac e reader (3 ∷ []) ((1 ∷ 2 ∷ []) ∷ (3 ∷ []) ∷ []) refl
      first_read
