-- ===== src/Cloud/S3/Reader.antt =====
-- src/cloud/s3.rs: `S3ZipReader`, which reads ranges of an object. The object is a parameter: a request
-- for a range gives its bytes or fails.
pub mod Slices
use s_zip.Common.{
  ℕ, ◌+◌, ◌-◌, ◌%◌, ◌^◌, List, [], Option, none, some, ltb, leb, min, if◌then◌else◌, length, take,
}
use s_zip.Outcome.{Result, ok, err, io, object_not_read, no_content_length, invalid_input}
use s_zip.Cloud.Task.{
  Poll, ready, SeekFrom, from_start, from_end, from_current, Offset, ahead, back,
}

-- `read_future` is the range of the request under way.
pub record S3ZipReader : Type 0 where
  pub position : ℕ
  pub size : ℕ
  pub read_future : Option (ℕ × ℕ)

-- `none` is a request for the metadata that failed, and the length may be absent.
pub build : Option (Option ℕ) → Result S3ZipReader
build none = err (io object_not_read)
build (some none) = err (io no_content_length)
build (some (some size)) = ok (record { position = 0; size = size; read_future = none })

abbrev pub sub_u64 : ℕ → ℕ → ℕ
sub_u64 a b = (a + 2 ^ 64 - b) % 2 ^ 64

-- What a poll of the request gives.
pub data Response : Type 0 where
  waits : Response
  fails : Response
  gives : List ℕ → Response

-- A poll of a request: the bytes go into a buffer with room for `room`.
pub poll_future : ℕ → Response → S3ZipReader → Poll (Result (List ℕ)) × S3ZipReader
poll_future room waits r = (Poll.pending, r)
poll_future room fails r = (ready (err (io object_not_read)), record r { read_future = none })
poll_future room (gives bytes) r =
    let n = min (length bytes) room in
    (
      ready (ok (take n bytes)),
      record r { position = (r.position + n) % 2 ^ 64; read_future = none },
    )

-- `poll` is how the request for a range stands.
pub poll_read : (ℕ → ℕ → Response) → ℕ → S3ZipReader → Poll (Result (List ℕ)) × S3ZipReader
unfolding poll_future
poll_read poll room r = elim r.read_future [
  | some (start, end) ↦ poll_future room (poll start end) r
  | none ↦
      let start = r.position in
      let end = min (sub_u64 ((start + room) % 2 ^ 64) 1) (sub_u64 r.size 1) in
      if leb r.size start
      then (ready (ok []), r)
      else poll_future room (poll start end) (record r { read_future = some (start, end) })
]

-- A sum of `i64` as the bits of the 64-bit number.
abbrev shift : ℕ → Offset → ℕ
shift base (ahead n) = (base + n) % 2 ^ 64
shift base (back n) = sub_u64 base n

-- The target is negative where its top bit is set.
pub start_seek : SeekFrom → S3ZipReader → Result S3ZipReader
start_seek from r =
    let new_pos : ℕ = elim from [
      | from_start pos ↦ pos
      | from_end o ↦ shift r.size o
      | from_current o ↦ shift r.position o
    ] in
    if leb (2 ^ 63) new_pos then err (io invalid_input) else ok (record r { position = new_pos })

pub poll_complete : S3ZipReader → ℕ
poll_complete r = r.position
