-- ===== src/Encryption.antt =====
-- src/encryption.rs: AES in counter mode, the key derivation and the authentication code of a
-- ZIP entry. The ciphers, PBKDF2, HMAC-SHA1 and the random generator are other packages' code, and
-- come in as `Crypto`. The proofs are in the children.
pub mod Keystream
pub mod Session
pub mod Auth
use Prim.Native.Nat.{bit_xor}
use s_zip.Common.{
  ℕ, zero, suc, ◌+◌, ◌*◌, ◌/◌, ◌%◌, ◌^◌, ◌<◌, ◌≡◌, Bool, true, false, List, [], ◌∷◌, ◌++◌, Option,
  none, some, ◌==◌, leb, not, if◌then◌else◌, length, take, drop, slice, replicate, get_or, bytes_eq,
}
use s_zip.Outcome.{
  Result, ok, err, invalid_format, bad_salt_size, hmac_init, authentication_failed,
  encryption_error, incorrect_password, ◌>>=◌,
}

pub data AesStrength : Type 0 where
  aes128 aes192 aes256 : AesStrength

unfoldable pub salt_size : AesStrength → ℕ
salt_size aes128 = 8
salt_size aes192 = 12
salt_size aes256 = 16

unfoldable pub key_size : AesStrength → ℕ
key_size aes128 = 16
key_size aes192 = 24
key_size aes256 = 32

unfoldable pub derived_key_size : AesStrength → ℕ
unfolding key_size
derived_key_size strength = key_size strength * 2 + 2

unfoldable pub to_winzip_code : AesStrength → ℕ
to_winzip_code aes128 = 0x01
to_winzip_code aes192 = 0x02
to_winzip_code aes256 = 0x03

-- `to_be_bytes`.
abbrev pub to_be_bytes : ℕ → ℕ → List ℕ
to_be_bytes zero v = []
to_be_bytes (suc w) v = (v / 256 ^ w % 256) ∷ to_be_bytes w v

-- What the crates `aes`, `ctr`, `pbkdf2`, `hmac` and `sha1` give.
pub record Crypto : Type 1 where
  -- PBKDF2-HMAC-SHA1 of a password and a salt, in so many iterations and bytes
  pub pbkdf2_hmac : List ℕ → List ℕ → ℕ → ℕ → List ℕ
  -- byte `j` of the stream of `Ctr128BE` over a cipher, with a key and an initial block
  pub keystream : AesStrength → List ℕ → List ℕ → ℕ → ℕ
  pub Mac : Type 0
  pub new_from_slice : List ℕ → Option Mac
  pub update : Mac → List ℕ → Mac
  pub finalize : Mac → List ℕ

-- Their documented behaviour: the counter block is a big-endian number, which moves on by one
-- every sixteen bytes; the stream is of bytes.
pub record CounterMode (c : Crypto) : Type 0 where
  pub next_block :
      (s : AesStrength) (key : List ℕ) (v j : ℕ)
      → v + 1 < 2 ^ 128
      → c.keystream s key (to_be_bytes 16 v) (16 + j) ≡ c.keystream s key (to_be_bytes 16 (v + 1)) j
  pub is_byte : (s : AesStrength) (key iv : List ℕ) (j : ℕ) → c.keystream s key iv j < 256

-- `StreamCipher::apply_keystream` from byte `pos` of a stream on.
unfoldable pub apply_keystream : (ℕ → ℕ) → ℕ → List ℕ → List ℕ
apply_keystream stream pos [] = []
apply_keystream stream pos (b ∷ bs) = bit_xor b (stream pos) ∷ apply_keystream stream (pos + 1) bs

module _ (c : Crypto) where
  -- A new cipher stands at byte 0; what `discard` takes moves it on.
  unfoldable pub apply_ctr_keystream : AesStrength → List ℕ → ℕ → List ℕ → List ℕ
  unfolding apply_keystream
  apply_ctr_keystream strength key byte_offset bytes =
      let block_number = byte_offset / 16 in
      let iv = replicate 8 0 ++ to_be_bytes 8 block_number in
      let partial = byte_offset % 16 in
      let stream = c.keystream strength key iv in
      let pos =
        if not (partial == 0) then length (apply_keystream stream 0 (replicate partial 0)) else 0 in
      apply_keystream stream pos bytes

  pub record AesEncryptor : Type 0 where
    pub strength : AesStrength
    pub salt : List ℕ
    pub password_verify : List ℕ
    pub encryption_key : List ℕ
    pub auth_key : List ℕ
    pub hmac : c.Mac
    pub byte_offset : ℕ

  pub record AesDecryptor : Type 0 where
    pub strength : AesStrength
    pub encryption_key : List ℕ
    pub auth_key : List ℕ
    pub password_verify : List ℕ
    pub hmac : c.Mac
    pub byte_offset : ℕ

  -- `rng` is the answer of the system's random generator to this call, for the size asked for.
  unfoldable pub generate_salt : (ℕ → Option (List ℕ)) → ℕ → Result (List ℕ)
  generate_salt rng size = elim (rng size) [ none ↦ err encryption_error | some salt ↦ ok salt ]

  unfoldable pub init_hmac : List ℕ → Result c.Mac
  init_hmac auth_key = elim (c.new_from_slice auth_key) [
    | none ↦ err (invalid_format hmac_init)
    | some mac ↦ ok mac
  ]

module _ (c : Crypto) where
  unfoldable pub new_encryptor :
      (ℕ → Option (List ℕ)) → List ℕ → AesStrength → Result (AesEncryptor c)
  unfolding generate_salt init_hmac derived_key_size salt_size
  new_encryptor rng password strength = do
    salt ← generate_salt c rng (salt_size strength)
    let derived_keys = c.pbkdf2_hmac password salt 1000 (derived_key_size strength)
    let n = key_size strength
    let auth_key = slice derived_keys n n
    hmac ← init_hmac c auth_key
    ok (record {
      strength = strength;
      salt = salt;
      password_verify = get_or derived_keys (n * 2) 0 ∷ get_or derived_keys (n * 2 + 1) 0 ∷ [];
      encryption_key = take n derived_keys;
      auth_key = auth_key;
      hmac = hmac;
      byte_offset = 0;
    })

  unfoldable pub new_decryptor : List ℕ → AesStrength → List ℕ → List ℕ → Result (AesDecryptor c)
  unfolding init_hmac derived_key_size
  new_decryptor password strength salt password_verify =
      let derived_keys = c.pbkdf2_hmac password salt 1000 (derived_key_size strength) in
      let n = key_size strength in
      let auth_key = slice derived_keys n n in
      let expected = get_or derived_keys (n * 2) 0 ∷ get_or derived_keys (n * 2 + 1) 0 ∷ [] in
      if not (length salt == salt_size strength)
      then err (invalid_format (bad_salt_size (salt_size strength) (length salt)))
      else if not (bytes_eq expected password_verify)
      then err incorrect_password
      else do
        hmac ← init_hmac c auth_key
        ok (record {
          strength = strength;
          encryption_key = take n derived_keys;
          auth_key = auth_key;
          password_verify = password_verify;
          hmac = hmac;
          byte_offset = 0;
        })

  unfoldable pub update_encryptor_hmac : AesEncryptor c → List ℕ → AesEncryptor c
  update_encryptor_hmac e bytes = record e { hmac = c.update e.hmac bytes }

  -- The bytes in their new form, and the encryptor with its offset moved on.
  unfoldable pub encrypt : AesEncryptor c → List ℕ → List ℕ × AesEncryptor c
  encrypt e bytes = (
    apply_ctr_keystream c e.strength e.encryption_key e.byte_offset bytes,
    record e { byte_offset = e.byte_offset + length bytes },
  )

  unfoldable pub finalize_encryptor : AesEncryptor c → List ℕ
  finalize_encryptor e = take 10 (c.finalize e.hmac)

  unfoldable pub decrypt : AesDecryptor c → List ℕ → List ℕ × AesDecryptor c
  decrypt d bytes = (
    apply_ctr_keystream c d.strength d.encryption_key d.byte_offset bytes,
    record d { byte_offset = d.byte_offset + length bytes },
  )

  unfoldable pub update_decryptor_hmac : AesDecryptor c → List ℕ → AesDecryptor c
  update_decryptor_hmac d bytes = record d { hmac = c.update d.hmac bytes }

  unfoldable pub verify_auth_code : AesDecryptor c → List ℕ → Result (Unit {0})
  verify_auth_code d auth_code =
      if not (bytes_eq (take 10 (c.finalize d.hmac)) auth_code)
      then err (invalid_format authentication_failed)
      else ok tt
