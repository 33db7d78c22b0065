-- ===== src/Compress/Counted.antt =====
-- `CrcCounter` of src/writer.rs after a run of updates.
use s_zip.Common.{
  ℕ, ◌+◌, ◌%◌, ◌≡◌, refl, List, [], ◌∷◌, ◌++◌, arith, length, flatten, length-append, u64_mod,
}
use s_zip.External.{Hasher, hash_chunks}
use s_zip.Compress.{CrcCounter, update_uncompressed, add_compressed}

module _ (h : Hasher) where
  -- The counter after chunks were counted and so many bytes went out.
  unfoldable pub counted : CrcCounter h → List (List ℕ) → ℕ → CrcCounter h
  counted k chunks count = record {
    crc = hash_chunks h k.crc chunks;
    uncompressed_count = (k.uncompressed_count + length (flatten chunks)) % u64_mod;
    compressed_count = (k.compressed_count + count) % u64_mod;
  }

  hash_chunks_snoc :
      (s : h.State) (xs : List (List ℕ)) (x : List ℕ)
      → hash_chunks h s (xs ++ x ∷ []) ≡ h.update (hash_chunks h s xs) x
  unfolding hash_chunks
  hash_chunks_snoc s [] x = refl
  hash_chunks_snoc s (y ∷ ys) x = hash_chunks_snoc (h.update s y) ys x

  length-flatten_snoc :
      (xs : List (List ℕ)) (x : List ℕ)
      → length (flatten (xs ++ x ∷ [])) ≡ length (flatten xs) + length x
  length-flatten_snoc [] x = omega (arith, length-append x [])
  length-flatten_snoc (y ∷ ys) x = omega (
    arith,
    length-append y (flatten (ys ++ x ∷ [])),
    length-append y (flatten ys),
    length-flatten_snoc ys x,
  )

  pub update_uncompressed-counted :
      (k : CrcCounter h) (chunks : List (List ℕ)) (count : ℕ) (bytes : List ℕ)
      → update_uncompressed h (counted k chunks count) bytes
        ≡ counted k (chunks ++ bytes ∷ []) count
  unfolding update_uncompressed counted
  update_uncompressed-counted k chunks count bytes =
      let total : ((k.uncompressed_count + length (flatten chunks)) % u64_mod + length bytes)
            % u64_mod
          ≡ (k.uncompressed_count + length (flatten (chunks ++ bytes ∷ []))) % u64_mod =
        omega (arith, length-flatten_snoc chunks bytes) in
      rw (hash_chunks_snoc k.crc chunks bytes, total)

  pub add_compressed-counted :
      (k : CrcCounter h) (chunks : List (List ℕ)) (count more : ℕ)
      → add_compressed h (counted k chunks count) more ≡ counted k chunks (count + more)
  unfolding add_compressed counted
  add_compressed-counted k chunks count more =
      let total : ((k.compressed_count + count) % u64_mod + more) % u64_mod
          ≡ (k.compressed_count + (count + more)) % u64_mod =
        omega arith in
      rw total
