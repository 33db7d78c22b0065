-- ===== src/Encryption/Auth.antt =====
-- The authentication code of src/encryption.rs: what `verify_auth_code` accepts.
use s_zip.Common.{
  ℕ, arith, length, length-take, ◌≡◌, ◌↔◌, sym, ap, ◌∙◌, inl, inr, List, [], ◌∷◌, ◌++◌, take,
  flatten, bytes_eq, bytes_eq→eq, bytes_eq_refl, Bool-cases,
}
use s_zip.Outcome.{ok}
use s_zip.Encryption.{
  Crypto, AesEncryptor, AesDecryptor, update_encryptor_hmac, update_decryptor_hmac,
  finalize_encryptor, verify_auth_code,
}
use s_zip.Encryption.Session.{hash_encryptor, hash_decryptor, Matches}

-- HMAC-SHA1 over a stream: updates add up, and the code has twenty bytes.
pub record StreamingMac (c : Crypto) : Type 0 where
  pub update_nil : (m : c.Mac) → c.update m [] ≡ m
  pub update-update :
      (m : c.Mac) (xs ys : List ℕ) → c.update (c.update m xs) ys ≡ c.update m (xs ++ ys)
  pub finalize_size : (m : c.Mac) → length (c.finalize m) ≡ 20

-- The code of an entry has ten bytes.
pub length-finalize_encryptor :
    (c : Crypto) → StreamingMac c → (e : AesEncryptor c) → length (finalize_encryptor c e) ≡ 10
unfolding finalize_encryptor
length-finalize_encryptor c laws e =
    omega (arith, length-take 10 (c.finalize e.hmac), laws.finalize_size e.hmac)

module _ (c : Crypto) (laws : StreamingMac c) where
  pub hmac-hash_encryptor :
      (e : AesEncryptor c) (chunks : List (List ℕ))
      → (hash_encryptor c e chunks).hmac ≡ c.update e.hmac (flatten chunks)
  unfolding hash_encryptor update_encryptor_hmac
  hmac-hash_encryptor e [] = sym (laws.update_nil e.hmac)
  hmac-hash_encryptor e (x ∷ xs) =
      hmac-hash_encryptor (update_encryptor_hmac c e x) xs
      ∙ laws.update-update e.hmac x (flatten xs)

  hmac-hash_decryptor :
      (d : AesDecryptor c) (chunks : List (List ℕ))
      → (hash_decryptor c d chunks).hmac ≡ c.update d.hmac (flatten chunks)
  unfolding hash_decryptor update_decryptor_hmac
  hmac-hash_decryptor d [] = sym (laws.update_nil d.hmac)
  hmac-hash_decryptor d (x ∷ xs) =
      hmac-hash_decryptor (update_decryptor_hmac c d x) xs
      ∙ laws.update-update d.hmac x (flatten xs)

-- The code is accepted exactly where it is the first ten bytes of the decryptor's own code.
pub verify_auth_code_iff :
    (c : Crypto) (d : AesDecryptor c) (code : List ℕ)
    → (verify_auth_code c d code ≡ ok tt) ↔ (take 10 (c.finalize d.hmac) ≡ code)
unfolding verify_auth_code
verify_auth_code_iff c d code = elim (Bool-cases (bytes_eq (take 10 (c.finalize d.hmac)) code)) [
  | inl e ↦ ((λ h. bytes_eq→eq _ code e), (λ h. rw (verify_auth_code, e)))
  | inr e ↦ (
    (λ h. absurd (cc ((rw (verify_auth_code, e) at h)))),
    (λ h. absurd (cc (e, bytes_eq_refl code, ap (λ (t : List ℕ). bytes_eq t code) h))),
  )
]

-- A decryptor that matches the encryptor and has hashed the same bytes, in whatever chunks,
-- accepts a code exactly where it is the encryptor's.
pub verify_auth_code-finalize :
    (c : Crypto) (laws : StreamingMac c) (e : AesEncryptor c) (d : AesDecryptor c)
    (written read : List (List ℕ)) (code : List ℕ)
    → Matches e d
    → flatten written ≡ flatten read
    → (verify_auth_code c (hash_decryptor c d read) code ≡ ok tt)
      ↔ (finalize_encryptor c (hash_encryptor c e written) ≡ code)
unfolding finalize_encryptor
verify_auth_code-finalize c laws e d written read code m same =
    let one_code : finalize_encryptor c (hash_encryptor c e written)
        ≡ take 10 (c.finalize (hash_decryptor c d read).hmac) =
      ap (λ (t : c.Mac). take 10 (c.finalize t))
        (hmac-hash_encryptor c laws e written
          ∙ ap (c.update e.hmac) same
          ∙ ap (λ (t : c.Mac). c.update t (flatten read)) (sym m.same_hmac)
          ∙ sym (hmac-hash_decryptor c laws d read)) in
    let both = verify_auth_code_iff c (hash_decryptor c d read) code in
    ((λ h. one_code ∙ both.0 h), (λ h. both.1 (sym one_code ∙ h)))
