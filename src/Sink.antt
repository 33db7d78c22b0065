-- ===== src/Sink.antt =====
-- The writing side of the standard library that the writers use: a sink that appends, and has room
-- for so many bytes. Methods that mutate and fail are actions: what was done before a failure
-- stays done.
pub mod Chunks
pub mod Appends
pub mod Merge
pub mod Simulates
use s_zip.Common.{ℕ, ◌+◌, Bool, true, false, List, [], ◌∷◌, ◌++◌, leb, if◌then◌else◌, length, take}
use s_zip.Outcome.{Result, ok, err, panic, SZipError, io, storage_full}

abbrev pub Exec {ℓ} : Type ℓ → Type ℓ → Type ℓ
Exec S A = S → Result A × S

module _ {ℓ} {S A B : Type ℓ} where
  infixl 5 ◌>>=◌ ◌>>◌
  abbrev pub continue : Result A → (A → Exec S B) → Exec S B
  continue (ok a) f s = f a s
  continue (err e) f s = (err e, s)
  continue panic f s = (panic, s)

  unfoldable pub ◌>>=◌ : Exec S A → (A → Exec S B) → Exec S B
  ◌>>=◌ m f s = let (r, s') = m s in continue r f s'

  abbrev pub ◌>>◌ : Exec S A → Exec S B → Exec S B
  m >> n = m >>= λ _. n

module _ {ℓ} {S A : Type ℓ} where
  unfoldable pub pure : A → Exec S A
  pure a s = (ok a, s)

  unfoldable pub fail : SZipError → Exec S A
  fail e s = (err e, s)

  unfoldable pub lift : Result A → Exec S A
  lift r s = (r, s)

  unfoldable pub gets : (S → A) → Exec S A
  gets f s = (ok (f s), s)

pub record Sink : Type 0 where
  pub written : List ℕ
  pub capacity : ℕ

-- `write_all`: where the room runs out, what fits is written and the call fails.
unfoldable pub write_all : List ℕ → Exec Sink (Unit {0})
write_all bytes s =
    let all = s.written ++ bytes in
    if leb (length all) s.capacity
    then (ok tt, record s { written = all })
    else (err (io storage_full), record s { written = take s.capacity all })

-- A run of `write_all` calls, each with `?`.
unfoldable pub write_chunks : List (List ℕ) → Exec Sink (Unit {0})
write_chunks [] = pure tt
write_chunks (chunk ∷ chunks) = do write_all chunk; write_chunks chunks

unfoldable pub stream_position : Exec Sink ℕ
stream_position s = (ok (length s.written), s)
