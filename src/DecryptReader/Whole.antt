-- ===== src/DecryptReader/Whole.antt =====
-- What a run of reads of src/decrypt_reader.rs gives, however the inner reader cuts its bytes.
use s_zip.Common.{
  ℕ, ◌+◌, ◌^◌, ◌<◌, ◌≡◌, ◌↔◌, refl, sym, ap, ◌∙◌, List, [], ◌∷◌, ◌++◌, arith, ltb, ltb-true,
  if◌then◌else◌, length, take, drop, flatten, take-append-drop, append_assoc, append-nil, All,
}
use s_zip.Outcome.{ok}
use s_zip.Encryption.{
  Crypto, CounterMode, AesEncryptor, AesDecryptor, apply_keystream, apply_ctr_keystream, decrypt,
  update_decryptor_hmac, finalize_encryptor,
}
use s_zip.Encryption.Session.{
  Matches, encrypt_chunks, decrypt_chunks, hash_encryptor, decrypt_chunks-encrypt_chunks,
}
use s_zip.Encryption.Auth.{StreamingMac, hmac-hash_encryptor, verify_auth_code_iff}
use s_zip.DecryptReader.{DecryptingReader, finish, read, read_all}

-- The pieces that calls of such sizes take, and what is left behind them.
abbrev pub pieces : List ℕ → List ℕ → List (List ℕ)
pieces [] bytes = []
pieces (n ∷ ns) bytes = take n bytes ∷ pieces ns (drop n bytes)

abbrev pub left_over : List ℕ → List ℕ → List ℕ
left_over [] bytes = bytes
left_over (n ∷ ns) bytes = left_over ns (drop n bytes)

flatten-pieces : (ns bytes : List ℕ) → flatten (pieces ns bytes) ++ left_over ns bytes ≡ bytes
flatten-pieces [] bytes = refl
flatten-pieces (n ∷ ns) bytes =
    append_assoc (take n bytes) (flatten (pieces ns (drop n bytes))) (left_over ns (drop n bytes))
    ∙ ap (λ (t : List ℕ). take n bytes ++ t) (flatten-pieces ns (drop n bytes))
    ∙ take-append-drop n bytes

module _ (c : Crypto) (mac : StreamingMac c) where
  -- The code does not count for the decryption.
  decrypt_chunks_hmac :
      (d : AesDecryptor c) (m : c.Mac) (ps : List (List ℕ))
      → decrypt_chunks c (record d { hmac = m }) ps ≡ decrypt_chunks c d ps
  unfolding decrypt_chunks decrypt
  decrypt_chunks_hmac d m [] = refl
  decrypt_chunks_hmac d m (p ∷ ps) =
      ap (λ (t : List ℕ). (decrypt c d p).0 ++ t)
        (decrypt_chunks_hmac (record d { byte_offset = d.byte_offset + length p }) m ps)

  abbrev decrypted : List ℕ → List ℕ → DecryptingReader c → List ℕ × DecryptingReader c
  decrypted piece rest r = (
    (decrypt c r.decryptor piece).0,
    record r {
      inner = rest;
      decryptor =
          update_decryptor_hmac c (decrypt c r.decryptor piece).1 (decrypt c r.decryptor piece).0;
    },
  )

  -- The guard on an empty piece skips only what would have changed nothing.
  skip_empty :
      (piece rest : List ℕ) (r : DecryptingReader c)
      → ◌≡◌ {A = List ℕ × DecryptingReader c}
          (if ltb 0 (length piece) then decrypted piece rest r else ([], record r { inner = rest }))
          (decrypted piece rest r)
  unfolding decrypt update_decryptor_hmac apply_ctr_keystream apply_keystream
  skip_empty [] rest r =
      let unmoved : r.decryptor.byte_offset ≡ r.decryptor.byte_offset + 0 = omega arith in
      sym (
        rw (mac.update_nil r.decryptor.hmac) (
          sym (
            ap {B = List ℕ × DecryptingReader c}
              (λ (k : ℕ).
                ([], record r { inner = rest; decryptor = record r.decryptor { byte_offset = k } }))
              unmoved)))
  skip_empty (x ∷ xs) rest r = rw (ltb-true 0 (length (x ∷ xs)) (omega arith)) refl

  read-decrypted :
      (n : ℕ) (r : DecryptingReader c) → read c n r ≡ decrypted (take n r.inner) (drop n r.inner) r
  unfolding read
  read-decrypted n r = skip_empty (take n r.inner) (drop n r.inner) r

  -- The bytes that come out are the decryption of the pieces, and the code is over them.
  read_all-decrypt_chunks :
      (ns : List ℕ) (r : DecryptingReader c)
      → ((read_all c ns r).0 ≡ decrypt_chunks c r.decryptor (pieces ns r.inner))
        × ((read_all c ns r).1.decryptor.hmac ≡ c.update r.decryptor.hmac (read_all c ns r).0)
        × ((read_all c ns r).1.auth_code ≡ r.auth_code)
  unfolding read_all read decrypt_chunks decrypt update_decryptor_hmac
  read_all-decrypt_chunks [] r = (refl, sym (mac.update_nil r.decryptor.hmac), refl)
  read_all-decrypt_chunks (n ∷ ns) r =
      let piece = take n r.inner in
      let plain = (decrypt c r.decryptor piece).0 in
      let r1 = (decrypted piece (drop n r.inner) r).1 in
      let (same, code, kept) = read_all-decrypt_chunks ns r1 in
      rw (read-decrypted n r) (
        ap (λ (t : List ℕ). plain ++ t)
            (same
              ∙ decrypt_chunks_hmac (decrypt c r.decryptor piece).1 r1.decryptor.hmac
                  (pieces ns (drop n r.inner))),
        code ∙ mac.update-update r.decryptor.hmac plain (read_all c ns r1).0,
        kept,
      )

-- A reader over the encrypted bytes, with a decryptor that matches the encryptor, gives the bytes
-- back whatever sizes its reads have, as long as they leave nothing over and the entry ends below
-- 2 ^ 64 bytes.
pub read_all-encrypt_chunks :
    (c : Crypto) (laws : CounterMode c) (mac : StreamingMac c) (e : AesEncryptor c)
    (plain : List (List ℕ)) (r : DecryptingReader c) (ns : List ℕ)
    → Matches e r.decryptor
    → All (λ b. b < 256) (flatten plain)
    → e.byte_offset + length (flatten plain) < 2 ^ 64
    → r.inner ≡ encrypt_chunks c e plain
    → left_over ns r.inner ≡ []
    → (read_all c ns r).0 ≡ flatten plain
read_all-encrypt_chunks c laws mac e plain r ns m bytes fits same over =
    let whole : flatten (pieces ns r.inner) ≡ r.inner =
      sym (append-nil (flatten (pieces ns r.inner)))
      ∙ ap (λ (t : List ℕ). flatten (pieces ns r.inner) ++ t) (sym over)
      ∙ flatten-pieces ns r.inner in
    (read_all-decrypt_chunks c mac ns r).0
    ∙ decrypt_chunks-encrypt_chunks c laws e r.decryptor plain (pieces ns r.inner) m bytes fits
        (whole ∙ same)

-- After any reads, `finish` accepts exactly where the stored code is the one that an encryptor whose
-- code starts like the decryptor's computes over the bytes that these reads gave.
pub finish-read_all :
    (c : Crypto) (mac : StreamingMac c) (e : AesEncryptor c) (r : DecryptingReader c) (ns : List ℕ)
    (written : List (List ℕ))
    → e.hmac ≡ r.decryptor.hmac
    → flatten written ≡ (read_all c ns r).0
    → (finish c (read_all c ns r).1 ≡ ok tt)
      ↔ (finalize_encryptor c (hash_encryptor c e written) ≡ r.auth_code)
unfolding finish finalize_encryptor
finish-read_all c mac e r ns written start same =
    let (_, code, kept) = read_all-decrypt_chunks c mac ns r in
    let r1 = (read_all c ns r).1 in
    let one_code : finalize_encryptor c (hash_encryptor c e written)
        ≡ take 10 (c.finalize r1.decryptor.hmac) =
      ap (λ (t : c.Mac). take 10 (c.finalize t))
        (hmac-hash_encryptor c mac e written
          ∙ ap (c.update e.hmac) same
          ∙ ap (λ (t : c.Mac). c.update t (read_all c ns r).0) start
          ∙ sym code) in
    let both = verify_auth_code_iff c r1.decryptor r1.auth_code in
    ((λ h. one_code ∙ both.0 h ∙ kept), (λ h. both.1 (sym one_code ∙ h ∙ sym kept)))
