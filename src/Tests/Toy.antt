-- ===== src/Tests/Toy.antt =====
-- Concrete functions that have the documented behaviour of the packages the crate uses: a counter
-- stream of sixteen numbers, a code that collects what it hashes, a checksum that adds up, and encoders
-- that pass the bytes on.
use s_zip.Common.{
  ℕ, ◌+◌, ◌%◌, ◌^◌, ◌≡◌, refl, ap, ◌∙◌, List, [], ◌∷◌, ◌++◌, some, arith, take, get_or,
  if◌then◌else◌, ◌==◌, replicate, flatten, append-nil, append_assoc, length-append, length-take,
}
use s_zip.Outcome.{ok}
use s_zip.Encryption.{Crypto, CounterMode}
use s_zip.Encryption.Auth.{StreamingMac}
use s_zip.External.{Hasher, HasherLaws, Encoder, External, CodecLaws, hash_chunks, encode_chunks}

abbrev pub toy_crypto : Crypto
toy_crypto = record {
  pbkdf2_hmac =
      λ password salt iterations size. replicate size (if get_or password 0 1 == 0 then 8 else 7);
  keystream = λ strength key iv j. j % 16;
  Mac = List ℕ;
  new_from_slice = λ key. some key;
  update = λ m bytes. m ++ bytes;
  finalize = λ m.
      take 20
        (m ++ (0 ∷ 0 ∷ 0 ∷ 0 ∷ 0 ∷ 0 ∷ 0 ∷ 0 ∷ 0 ∷ 0 ∷ 0 ∷ 0 ∷ 0 ∷ 0 ∷ 0 ∷ 0 ∷ 0 ∷ 0 ∷ 0 ∷ 0 ∷ []));
}

pub toy_counter_mode : CounterMode toy_crypto
toy_counter_mode = record {
  next_block = λ s key v j h. omega arith;
  is_byte = λ s key iv j. omega arith;
}

pub toy_mac : StreamingMac toy_crypto
toy_mac = record {
  update_nil = λ m. append-nil m;
  update-update = λ m xs ys. append_assoc m xs ys;
  finalize_size = λ m. omega (
    arith,
    length-take 20
        (m ++ (0 ∷ 0 ∷ 0 ∷ 0 ∷ 0 ∷ 0 ∷ 0 ∷ 0 ∷ 0 ∷ 0 ∷ 0 ∷ 0 ∷ 0 ∷ 0 ∷ 0 ∷ 0 ∷ 0 ∷ 0 ∷ 0 ∷ 0 ∷ [])),
    length-append m
        (0 ∷ 0 ∷ 0 ∷ 0 ∷ 0 ∷ 0 ∷ 0 ∷ 0 ∷ 0 ∷ 0 ∷ 0 ∷ 0 ∷ 0 ∷ 0 ∷ 0 ∷ 0 ∷ 0 ∷ 0 ∷ 0 ∷ 0 ∷ []),
  );
}

abbrev pub sum : List ℕ → ℕ
sum [] = 0
sum (x ∷ xs) = x + sum xs

sum-append : (xs ys : List ℕ) → sum (xs ++ ys) ≡ sum xs + sum ys
sum-append [] ys = omega arith
sum-append (x ∷ xs) ys = omega (arith, sum-append xs ys)

abbrev pub toy_hasher : Hasher
toy_hasher = record {
  State = ℕ;
  new = 0;
  update = λ s bytes. s + sum bytes;
  finalize = λ s. s % 2 ^ 32;
  hash = λ bytes. sum bytes % 2 ^ 32;
}

sum_chunks :
    (s : ℕ) (chunks : List (List ℕ)) → hash_chunks toy_hasher s chunks ≡ s + sum (flatten chunks)
unfolding hash_chunks
sum_chunks s [] = omega arith
sum_chunks s (x ∷ xs) = sum_chunks (s + sum x) xs ∙ omega (arith, sum-append x (flatten xs))

pub toy_hasher_laws : HasherLaws toy_hasher
toy_hasher_laws = record {
  finalize-updates = λ chunks. ap (λ (s : ℕ). s % 2 ^ 32) (sum_chunks 0 chunks ∙ omega arith);
  hash_fits = λ bytes. omega arith;
}

abbrev pub toy_encoder : Encoder
toy_encoder = record {
  State = Unit;
  write_all = λ s bytes. (bytes, tt);
  flush = λ s. ([], tt);
  finish = λ s. [];
}

abbrev pub toy : External
toy = record {
  crypto = toy_crypto;
  hasher = toy_hasher;
  deflate = toy_encoder;
  deflate_new = λ level. tt;
  inflate = λ bytes. ok bytes;
  zstd = toy_encoder;
  zstd_new = λ level. some tt;
  unzstd = λ bytes. ok bytes;
}

passed_on : (chunks : List (List ℕ)) → encode_chunks toy_encoder tt chunks ≡ flatten chunks
unfolding encode_chunks
passed_on [] = refl
passed_on (x ∷ xs) = ap (λ (t : List ℕ). x ++ t) (passed_on xs)

pub toy_codec : CodecLaws toy
toy_codec = record {
  inflate-deflate = λ level chunks. ap ok (passed_on chunks);
  unzstd-zstd = λ level s chunks h. ap ok (passed_on chunks);
}
