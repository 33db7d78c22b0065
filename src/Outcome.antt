-- ===== src/Outcome.antt =====
-- src/error.rs: the errors of the crate, and `Result` with the `?` operator as bind. `panic` is a
-- call that does not return.
use s_zip.Common.{ℕ, List, ◌≡◌, ap}

-- The kinds of `io::Error` that the modelled calls of the standard library, of the codecs
-- and of the cloud services return, and those that the crate makes itself.
pub data IoError : Type 0 where
  unexpected_eof : IoError
  invalid_seek : IoError
  storage_full : IoError
  corrupt_stream : IoError
  codec_failed : IoError
  not_found : IoError
  broken_pipe : IoError
  unsupported : IoError
  invalid_input : IoError
  upload_not_created : IoError
  no_upload_id : IoError
  part_not_uploaded : ℕ → IoError
  no_etag : ℕ → IoError
  upload_not_completed : IoError
  upload_failed : IoError
  object_not_read : IoError
  no_content_length : IoError

-- The texts that `InvalidFormat` carries, with the values that they print.
pub data Message : Type 0 where
  local_signature : Message
  eocd_signature : ℕ → Message
  eocd_not_found : Message
  zip64_locator_not_found : Message
  zip64_signature : ℕ → Message
  entry_too_large : List ℕ → ℕ → Message
  aes_strength : ℕ → Message
  no_password : Message
  bad_salt_size : ℕ → ℕ → Message
  hmac_init : Message
  authentication_failed : Message
  crc_mismatch : List ℕ → ℕ → ℕ → Message
  no_entry_started : Message
  max_concurrent_zero : Message
  max_concurrent_above : Message
  only_deflate : Message
  task_join : Message
  client_not_set : Message

pub data SZipError : Type 0 where
  io : IoError → SZipError
  invalid_format : Message → SZipError
  entry_not_found : List ℕ → SZipError
  unsupported_compression : ℕ → SZipError
  encryption_error : SZipError
  incorrect_password : SZipError

pub data Result {ℓ} (A : Type ℓ) : Type ℓ where
  ok : A → Result A
  err : SZipError → Result A
  panic : Result A

infixl 5 ◌>>=◌
abbrev pub ◌>>=◌ {ℓ κ} : {A : Type ℓ} {B : Type κ} → Result A → (A → Result B) → Result B
ok a >>= f = f a
err e >>= f = err e
panic >>= f = panic

pub ok_inj {ℓ} : {A : Type ℓ} {a b : A} → ok a ≡ ok b → a ≡ b
ok_inj {a} e = ap (λ r. elim r [ ok x ↦ x | err e ↦ a | panic ↦ a ]) e
