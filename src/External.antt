-- ===== src/External.antt =====
-- Other packages' code that the crate calls: `crc32fast`, `flate2`, `zstd` and those of
-- `Encryption`, with their documented behaviour as laws.
use s_zip.Common.{ℕ, ◌^◌, ◌<◌, ◌≡◌, List, [], ◌∷◌, ◌++◌, Option, some, flatten}
use s_zip.Outcome.{Result, ok}
use s_zip.Encryption.{Crypto}

-- `crc32fast::Hasher`, and `crc32fast::hash`.
pub record Hasher : Type 1 where
  pub State : Type 0
  pub new : State
  pub update : State → List ℕ → State
  pub finalize : State → ℕ
  pub hash : List ℕ → ℕ

-- An encoder that writes into a buffer: what a call adds to the buffer, and its new state.
pub record Encoder : Type 1 where
  pub State : Type 0
  pub write_all : State → List ℕ → List ℕ × State
  pub flush : State → List ℕ × State
  pub finish : State → List ℕ

pub record External : Type 1 where
  pub crypto : Crypto
  pub hasher : Hasher
  pub deflate : Encoder
  pub deflate_new : ℕ → deflate.State
  pub inflate : List ℕ → Result (List ℕ)
  pub zstd : Encoder
  -- `zstd::Encoder::new` may refuse
  pub zstd_new : ℕ → Option zstd.State
  pub unzstd : List ℕ → Result (List ℕ)

unfoldable pub hash_chunks : (h : Hasher) → h.State → List (List ℕ) → h.State
hash_chunks h s [] = s
hash_chunks h s (x ∷ xs) = hash_chunks h (h.update s x) xs

-- The digest of the updates is the digest of their bytes together, and 32 bits wide.
pub record HasherLaws (h : Hasher) : Type 0 where
  pub finalize-updates :
      (chunks : List (List ℕ)) → h.finalize (hash_chunks h h.new chunks) ≡ h.hash (flatten chunks)
  pub hash_fits : (bytes : List ℕ) → h.hash bytes < 2 ^ 32

-- All that an encoder adds to the buffer when each chunk is written and flushed.
unfoldable pub encode_chunks : (enc : Encoder) → enc.State → List (List ℕ) → List ℕ
encode_chunks enc s [] = enc.finish s
encode_chunks enc s (x ∷ xs) =
    let (out, s1) = enc.write_all s x in
    let (more, s2) = enc.flush s1 in out ++ (more ++ encode_chunks enc s2 xs)

-- The decoders undo the encoders.
pub record CodecLaws (ext : External) : Type 0 where
  pub inflate-deflate :
      (level : ℕ) (chunks : List (List ℕ))
      → ext.inflate (encode_chunks ext.deflate (ext.deflate_new level) chunks) ≡ ok (flatten chunks)
  pub unzstd-zstd :
      (level : ℕ) (s : ext.zstd.State) (chunks : List (List ℕ))
      → ext.zstd_new level ≡ some s
      → ext.unzstd (encode_chunks ext.zstd s chunks) ≡ ok (flatten chunks)

-- An encoder over a buffer of its own that takes all the bytes at once.
unfoldable pub encode_whole : (enc : Encoder) → enc.State → List ℕ → List ℕ
encode_whole enc s bytes = let (out, s1) = enc.write_all s bytes in out ++ enc.finish s1

-- The decoders undo the encoders on bytes that are encoded at once, `zstd::encode_all` among them,
-- which may refuse.
pub record WholeLaws (ext : External) (zstd_encode_all : ℕ → List ℕ → Option (List ℕ))
    : Type 0 where
  pub inflate-whole :
      (level : ℕ) (bytes : List ℕ)
      → ext.inflate (encode_whole ext.deflate (ext.deflate_new level) bytes) ≡ ok bytes
  pub unzstd-all :
      (level : ℕ) (bytes out : List ℕ)
      → zstd_encode_all level bytes ≡ some out
      → ext.unzstd out ≡ ok bytes
