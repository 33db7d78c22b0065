-- ===== src/Tests/Ciphers.antt =====
-- The encryption of src/encryption.rs on concrete inputs.
use s_zip.Common.{
  ℕ, ◌<◌, ◌≡◌, ◌↔◌, refl, sym, ap, ◌∙◌, List, [], ◌∷◌, Option, none, some, arith, length, flatten,
  replicate, length-replicate, All,
}
use s_zip.Outcome.{ok}
use s_zip.Encryption.{
  aes128, AesEncryptor, AesDecryptor, apply_keystream, apply_ctr_keystream, encrypt, new_encryptor,
  new_decryptor, generate_salt, init_hmac, salt_size, key_size, derived_key_size,
  finalize_encryptor, verify_auth_code,
}
use s_zip.Encryption.Keystream.{entry_stream, apply_ctr_keystream-entry}
use s_zip.Encryption.Session.{
  Matches, encrypt_chunks, decrypt_chunks, hash_encryptor, hash_decryptor,
  decrypt_chunks-encrypt_chunks, new_decryptor-new_encryptor,
}
use s_zip.Encryption.Auth.{verify_auth_code-finalize}
use s_zip.Tests.Toy.{toy_crypto, toy_counter_mode, toy_mac}

abbrev pub e : AesEncryptor toy_crypto
e = record {
  strength = aes128;
  salt = replicate 8 9;
  password_verify = 7 ∷ 7 ∷ [];
  encryption_key = replicate 16 7;
  auth_key = replicate 16 7;
  hmac = replicate 16 7;
  byte_offset = 0;
}

abbrev pub d : AesDecryptor toy_crypto
d = record {
  strength = aes128;
  encryption_key = replicate 16 7;
  auth_key = replicate 16 7;
  password_verify = 7 ∷ 7 ∷ [];
  hmac = replicate 16 7;
  byte_offset = 0;
}

pub matching : Matches e d
matching = record { same_strength = refl; same_key = refl; same_offset = refl; same_hmac = refl }

abbrev pub plain : List (List ℕ)
plain = (1 ∷ 2 ∷ 3 ∷ []) ∷ (250 ∷ []) ∷ []

-- Cut in another way.
abbrev sealed : List (List ℕ)
sealed = (1 ∷ 3 ∷ []) ∷ (1 ∷ 249 ∷ []) ∷ []

pub plain_bytes : All (λ b. b < 256) (flatten plain)
plain_bytes = (omega arith, (omega arith, (omega arith, (omega arith, tt))))

sealed_lem : flatten sealed ≡ encrypt_chunks toy_crypto e plain
unfolding encrypt_chunks encrypt apply_ctr_keystream apply_keystream
sealed_lem = refl

decrypt_chunks-encrypt_chunks_example : decrypt_chunks toy_crypto d sealed ≡ flatten plain
decrypt_chunks-encrypt_chunks_example =
    decrypt_chunks-encrypt_chunks toy_crypto toy_counter_mode e d plain sealed matching plain_bytes
      (omega arith) sealed_lem

apply_ctr_keystream-entry_example :
    apply_ctr_keystream toy_crypto aes128 (replicate 16 7) 37 (5 ∷ 6 ∷ [])
    ≡ apply_keystream
        (entry_stream toy_crypto toy_counter_mode aes128 (replicate 16 7))
        37
        (5 ∷ 6 ∷ [])
apply_ctr_keystream-entry_example =
    apply_ctr_keystream-entry toy_crypto toy_counter_mode aes128 (replicate 16 7) 37 (5 ∷ 6 ∷ [])
      (omega arith)

verify_auth_code-finalize_example :
    (verify_auth_code toy_crypto
        (hash_decryptor toy_crypto d ((1 ∷ 2 ∷ 3 ∷ 250 ∷ []) ∷ []))
        (replicate 10 7)
      ≡ ok tt)
    ↔ (finalize_encryptor toy_crypto (hash_encryptor toy_crypto e plain) ≡ replicate 10 7)
verify_auth_code-finalize_example =
    verify_auth_code-finalize toy_crypto toy_mac e d plain ((1 ∷ 2 ∷ 3 ∷ 250 ∷ []) ∷ [])
      (replicate 10 7) matching refl

abbrev rng : ℕ → Option (List ℕ)
rng n = some (replicate n 9)

some_inj : {a b : List ℕ} → some a ≡ some b → a ≡ b
some_inj {a} h = ap (λ o. elim o [ some x ↦ x | none ↦ a ]) h

fills : (n : ℕ) (salt : List ℕ) → rng n ≡ some salt → length salt ≡ n
fills n salt h = ap length (sym (some_inj h)) ∙ length-replicate n 9

made : new_encryptor toy_crypto rng (1 ∷ []) aes128 ≡ ok e
unfolding new_encryptor generate_salt init_hmac salt_size key_size derived_key_size
made = refl

new_decryptor-new_encryptor_example :
    (d' : AesDecryptor toy_crypto) × (new_decryptor toy_crypto
        (1 ∷ [])
        aes128
        (replicate 8 9)
        (7 ∷ 7 ∷ [])
      ≡ ok d')
    × Matches e d'
new_decryptor-new_encryptor_example =
    new_decryptor-new_encryptor toy_crypto rng (1 ∷ []) aes128 e fills made
