-- ===== src/DecryptReader.antt =====
-- src/decrypt_reader.rs: `DecryptingReader`, which decrypts while it is read. The proofs are in the child.
pub mod Whole
use s_zip.Common.{ℕ, ◌+◌, List, [], ◌∷◌, ◌++◌, ltb, if◌then◌else◌, length, take, drop}
use s_zip.Outcome.{Result, ok, err, panic}
use s_zip.Encryption.{
  Crypto, AesStrength, AesDecryptor, new_decryptor, decrypt, update_decryptor_hmac,
  verify_auth_code,
}

module _ (c : Crypto) where
  -- The inner reader is what it has still to give.
  pub record DecryptingReader : Type 0 where
    pub inner : List ℕ
    pub decryptor : AesDecryptor c
    pub auth_code : List ℕ

module _ (c : Crypto) where
  pub new_reader :
      List ℕ → List ℕ → AesStrength → List ℕ → List ℕ → List ℕ → Result (DecryptingReader c)
  new_reader inner password strength salt pw_verify auth_code =
      elim (new_decryptor c password strength salt pw_verify) [
        | ok decryptor ↦ ok (record { inner = inner; decryptor = decryptor; auth_code = auth_code })
        | err e ↦ err e
        | panic ↦ panic
      ]

  pub finish : DecryptingReader c → Result (Unit {0})
  finish r = verify_auth_code c r.decryptor r.auth_code

  -- One call of `read` in which the inner reader gives `n` bytes, or what it has left.
  unfoldable pub read : ℕ → DecryptingReader c → List ℕ × DecryptingReader c
  read n r =
      let piece = take n r.inner in
      let (plain, moved) = decrypt c r.decryptor piece in
      let inner = drop n r.inner in
      if ltb 0 (length piece)
      then (plain, record r { inner = inner; decryptor = update_decryptor_hmac c moved plain })
      else ([], record r { inner = inner })

  -- A run of calls.
  unfoldable pub read_all : List ℕ → DecryptingReader c → List ℕ × DecryptingReader c
  unfolding read
  read_all [] r = ([], r)
  read_all (n ∷ ns) r =
      let (out, r1) = read n r in let (more, r2) = read_all ns r1 in (out ++ more, r2)
