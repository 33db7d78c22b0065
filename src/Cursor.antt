-- ===== src/Cursor.antt =====
-- The reading side of the standard library that the readers use: a file as its bytes and a
-- position, behind a `BufReader`. Reads fail only at the end of the file, and seeks only past
-- `i64::MAX`, which the system refuses.
pub mod Runs
pub mod Results
pub mod Fails
use s_zip.Common.{
  ℕ, zero, suc, ◌+◌, ◌-◌, ◌^◌, Bool, true, false, List, [], ◌∷◌, leb, ltb, if◌then◌else◌, length,
  take, drop, slice, from_le_bytes,
}
use s_zip.Outcome.{Result, ok, err, panic, SZipError, io, unexpected_eof, invalid_seek}

pub record Cursor : Type 0 where
  pub bytes : List ℕ
  pub pos : ℕ

abbrev pub Read {ℓ} : Type ℓ → Type ℓ
Read A = Cursor → Result (A × Cursor)

infixl 5 ◌>>=◌ ◌>>◌
unfoldable pub ◌>>=◌ {ℓ κ} : {A : Type ℓ} {B : Type κ} → Read A → (A → Read B) → Read B
◌>>=◌ m f c = elim (m c) [ ok (a, c') ↦ f a c' | err e ↦ err e | panic ↦ panic ]

abbrev pub ◌>>◌ {ℓ κ} : {A : Type ℓ} {B : Type κ} → Read A → Read B → Read B
m >> k = m >>= λ _. k

unfoldable pub pure {ℓ} : {A : Type ℓ} → A → Read A
pure a c = ok (a, c)

unfoldable pub fail {ℓ} : {A : Type ℓ} → SZipError → Read A
fail e c = err e

-- `?` on a result that reads nothing.
unfoldable pub lift {ℓ} : {A : Type ℓ} → Result A → Read A
lift r c = elim r [ ok a ↦ ok (a, c) | err e ↦ err e | panic ↦ panic ]

unfoldable pub seek_start : ℕ → Read (Unit {0})
seek_start n c = if ltb n (2 ^ 63) then ok (tt, record c { pos = n }) else err (io invalid_seek)

unfoldable pub seek_current : ℕ → Read (Unit {0})
unfolding seek_start
seek_current n c = seek_start (c.pos + n) c

-- `seek(SeekFrom::End(0))`, which gives the size.
unfoldable pub seek_end : Read ℕ
seek_end c = ok (length c.bytes, record c { pos = length c.bytes })

unfoldable pub stream_position : Read ℕ
stream_position c = ok (c.pos, c)

-- `read_exact` into a buffer of `n` bytes.
unfoldable pub read_exact : ℕ → Read (List ℕ)
read_exact n c =
    if leb n (length c.bytes - c.pos)
    then ok (slice c.bytes c.pos n, record c { pos = c.pos + n })
    else err (io unexpected_eof)

unfoldable pub read_to_end : Read (List ℕ)
read_to_end c = let rest = drop c.pos c.bytes in ok (rest, record c { pos = c.pos + length rest })
