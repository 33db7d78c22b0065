-- ===== src/Encryption/Keystream.antt =====
-- `apply_ctr_keystream` of src/encryption.rs against one stream for the whole entry.
use s_zip.Common.{
  ℕ, zero, suc, ◌+◌, ◌*◌, ◌/◌, ◌%◌, ◌^◌, ◌<◌, ◌≡◌, refl, sym, ap, ◌∙◌, inl, inr, List, [], ◌∷◌,
  ◌++◌, arith, ◌==◌, Bool-cases, length, replicate, All, length-replicate,
}
use s_zip.Common.Bits.{bit_xor_undo}
use s_zip.Encryption.{
  AesStrength, to_be_bytes, Crypto, CounterMode, apply_keystream, apply_ctr_keystream,
}

module _ (stream : ℕ → ℕ) where
  pub length-apply_keystream :
      (pos : ℕ) (bs : List ℕ) → length (apply_keystream stream pos bs) ≡ length bs
  unfolding apply_keystream
  length-apply_keystream pos [] = refl
  length-apply_keystream pos (b ∷ bs) = ap suc (length-apply_keystream (pos + 1) bs)

  pub apply_keystream_nil : (pos : ℕ) → apply_keystream stream pos [] ≡ []
  unfolding apply_keystream
  apply_keystream_nil pos = refl

  pub apply_keystream-append :
      (pos : ℕ) (xs ys : List ℕ)
      → apply_keystream stream pos (xs ++ ys)
        ≡ apply_keystream stream pos xs ++ apply_keystream stream (pos + length xs) ys
  unfolding apply_keystream
  apply_keystream-append pos [] ys =
      let e : pos ≡ pos + 0 = omega arith in ap (λ (p : ℕ). apply_keystream stream p ys) e
  apply_keystream-append pos (x ∷ xs) ys =
      let e : pos + 1 + length xs ≡ pos + suc (length xs) = omega arith in
      rw (apply_keystream-append (pos + 1) xs ys, e)

  -- The same stretch of the stream twice gives the bytes back.
  pub apply_keystream_undo :
      ((j : ℕ) → stream j < 256)
      → (pos : ℕ) (bs : List ℕ) → All (λ b. b < 256) bs
      → apply_keystream stream pos (apply_keystream stream pos bs) ≡ bs
  unfolding apply_keystream
  apply_keystream_undo is_byte pos [] h = refl
  apply_keystream_undo is_byte pos (b ∷ bs) (h, hs) =
      rw (bit_xor_undo b (stream pos) h (is_byte pos), apply_keystream_undo is_byte (pos + 1) bs hs)

apply_keystream_shift :
    (s t : ℕ → ℕ) (p q : ℕ) (bs : List ℕ)
    → ((j : ℕ) → s (p + j) ≡ t (q + j))
    → apply_keystream s p bs ≡ apply_keystream t q bs
unfolding apply_keystream
apply_keystream_shift s t p q [] h = refl
apply_keystream_shift s t p q (b ∷ bs) h =
    let p0 : p + 0 ≡ p = omega arith in
    let q0 : q + 0 ≡ q = omega arith in
    let first : s p ≡ t q = ap s (sym p0) ∙ h 0 ∙ ap t q0 in
    let rest = apply_keystream_shift s t (p + 1) (q + 1) bs (λ j.
      let pj : p + 1 + j ≡ p + suc j = omega arith in
      let qj : q + suc j ≡ q + 1 + j = omega arith in ap s pj ∙ h (suc j) ∙ ap t qj) in
    rw (first, rest)

-- The initial block that the code builds is the block number as a 128-bit big-endian number.
initial_block : (n : ℕ) → n < 2 ^ 64 → replicate 8 0 ++ to_be_bytes 8 n ≡ to_be_bytes 16 n
initial_block n h =
    let z8 : n / 256 ^ 8 % 256 ≡ 0 = omega arith in
    let z9 : n / 256 ^ 9 % 256 ≡ 0 = omega arith in
    let z10 : n / 256 ^ 10 % 256 ≡ 0 = omega arith in
    let z11 : n / 256 ^ 11 % 256 ≡ 0 = omega arith in
    let z12 : n / 256 ^ 12 % 256 ≡ 0 = omega arith in
    let z13 : n / 256 ^ 13 % 256 ≡ 0 = omega arith in
    let z14 : n / 256 ^ 14 % 256 ≡ 0 = omega arith in
    let z15 : n / 256 ^ 15 % 256 ≡ 0 = omega arith in rw (z8, z9, z10, z11, z12, z13, z14, z15)

module _ (c : Crypto) where
  pub length-apply_ctr_keystream :
      (strength : AesStrength) (key : List ℕ) (byte_offset : ℕ) (bytes : List ℕ)
      → length (apply_ctr_keystream c strength key byte_offset bytes) ≡ length bytes
  unfolding apply_ctr_keystream
  length-apply_ctr_keystream strength key off bytes = length-apply_keystream _ _ bytes

module _ (c : Crypto) (laws : CounterMode c) (strength : AesStrength) (key : List ℕ) where
  -- The stream of an entry, from its first byte on.
  abbrev pub entry_stream : ℕ → ℕ
  entry_stream = c.keystream strength key (to_be_bytes 16 0)

  block_stream :
      (n j : ℕ)
      → n < 2 ^ 64
      → c.keystream strength key (to_be_bytes 16 n) j ≡ entry_stream (16 * n + j)
  block_stream zero j h = let e : j ≡ 16 * 0 + j = omega arith in ap entry_stream e
  block_stream (suc n) j h =
      let next : suc n ≡ n + 1 = omega arith in
      let e : 16 * n + (16 + j) ≡ 16 * suc n + j = omega arith in
      ap (λ (v : ℕ). c.keystream strength key (to_be_bytes 16 v) j) next
      ∙ sym (laws.next_block strength key n j (omega arith))
      ∙ block_stream n (16 + j) (omega arith)
      ∙ ap entry_stream e

  -- At any offset the code takes the bytes of the entry's stream from that offset on.
  pub apply_ctr_keystream-entry :
      (byte_offset : ℕ) (bytes : List ℕ)
      → byte_offset < 2 ^ 64
      → apply_ctr_keystream c strength key byte_offset bytes
        ≡ apply_keystream entry_stream byte_offset bytes
  unfolding apply_ctr_keystream
  apply_ctr_keystream-entry off bytes h = elim (Bool-cases (off % 16 == 0)) [
    | inl e ↦ rw (e, initial_block (off / 16) (omega arith)) (aligned 0 (ground arith))
    | inr e ↦
        rw
          (
            e,
            initial_block (off / 16) (omega arith),
            length-apply_keystream (c.keystream strength key (to_be_bytes 16 (off / 16))) 0
                (replicate (off % 16) 0),
            length-replicate {A = ℕ} (off % 16) 0,
          )
          (aligned (off % 16) (omega arith))
  ]
    where
      aligned :
          (pos : ℕ)
          → 16 * (off / 16) + pos ≡ off
          → apply_keystream (c.keystream strength key (to_be_bytes 16 (off / 16))) pos bytes
            ≡ apply_keystream entry_stream off bytes
      aligned pos e = apply_keystream_shift _ entry_stream pos off bytes λ j.
          let k : 16 * (off / 16) + (pos + j) ≡ off + j = omega arith in
          block_stream (off / 16) (pos + j) (omega arith) ∙ ap entry_stream k
