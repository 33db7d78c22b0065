-- ===== src/Cloud/Gcs.antt =====
-- src/cloud/gcs.rs: `GcsZipWriter` and its worker, which keeps all the data and uploads it at once.
pub mod Whole
use s_zip.Common.{
  ℕ, ◌+◌, ◌*◌, ◌%◌, ◌^◌, Bool, true, false, List, [], ◌∷◌, ◌++◌, Option, none, some, leb, ltb, not,
  ◌==◌, if◌then◌else◌, length,
}
use s_zip.Outcome.{
  Result, ok, err, panic, io, broken_pipe, unsupported, upload_failed, object_not_read,
}
use s_zip.Cloud.Task.{TaskPoll, Poll, ready, SeekFrom, from_start, from_end, from_current, is_zero}

abbrev pub default_chunk_size : ℕ
default_chunk_size = 8 * 1024 * 1024

abbrev pub chunk_alignment : ℕ
chunk_alignment = 256 * 1024

pub data UploadCommand : Type 0 where
  upload_chunk : List ℕ → UploadCommand
  finalize : Option (List ℕ) → UploadCommand

-- `chunk_size` of the builder, which panics where the size is not aligned; zero is aligned.
pub chunk_size : ℕ → Result ℕ
chunk_size n = if n % chunk_alignment == 0 then ok n else panic

pub record GcsZipWriter : Type 0 where
  pub sent : List UploadCommand
  pub buffer : List ℕ
  pub chunk_size : ℕ
  pub position : ℕ
  pub shutdown_initiated : Bool

-- The builder's client is there.
pub build : ℕ → GcsZipWriter
build size = record {
  sent = [];
  buffer = [];
  chunk_size = size;
  position = 0;
  shutdown_initiated = false;
}

pub send : Bool → UploadCommand → GcsZipWriter → Result (Unit {0}) × GcsZipWriter
send true c w = (ok tt, record w { sent = w.sent ++ c ∷ [] })
send false c w = (err (io broken_pipe), w)

pub poll_write : Bool → List ℕ → GcsZipWriter → Result ℕ × GcsZipWriter
unfolding send
poll_write alive buf w =
    let buffer = w.buffer ++ buf in
    let filled = record w { buffer = buffer; position = (w.position + length buf) % 2 ^ 64 } in
    if leb w.chunk_size (length buffer)
    then (let (r, sent) = send alive (upload_chunk buffer) (record filled { buffer = [] }) in
        (elim r [ ok u ↦ ok (length buf) | err e ↦ err e | panic ↦ panic ], sent))
    else (ok (length buf), filled)

pub poll_flush : GcsZipWriter → Result (Unit {0}) × GcsZipWriter
poll_flush w = (ok tt, w)

final_data : List ℕ → Option (List ℕ)
final_data [] = none
final_data (b ∷ bs) = some (b ∷ bs)

pub poll_shutdown : Bool → TaskPoll → GcsZipWriter → Poll (Result (Unit {0})) × GcsZipWriter
unfolding send final_data
poll_shutdown alive task w =
    let (sending, w1) =
      if not w.shutdown_initiated
      then send alive (finalize (final_data w.buffer))
          (record w { shutdown_initiated = true; buffer = [] })
      else (ok tt, w) in
    elim sending [
      | ok u ↦ (
        elim task [
          | TaskPoll.pending ↦ Poll.pending
          | TaskPoll.joined r ↦ ready (elim r [
            | ok u ↦ ok tt
            | err e ↦ err (io upload_failed)
            | panic ↦ err (io upload_failed)
          ])
        ],
        w1,
      )
      | err e ↦ (ready (err e), w1)
      | panic ↦ (ready panic, w1)
    ]

-- Only the position itself can be asked for.
pub start_seek : SeekFrom → GcsZipWriter → Result (Unit {0})
start_seek (from_start n) w = err (io unsupported)
start_seek (from_end o) w = err (io unsupported)
start_seek (from_current o) w = if is_zero o then ok tt else err (io unsupported)

pub poll_complete : GcsZipWriter → ℕ
poll_complete w = w.position

-- `upload_object` of the service: whether the object was stored, and the state behind.
pub record Storage : Type 1 where
  pub State : Type 0
  pub upload_object : List ℕ → State → Bool × State

module _ (svc : Storage) where
  -- The worker by the data that it has accumulated.
  pub upload_worker : List ℕ → List UploadCommand → svc.State → Result (Unit {0}) × svc.State
  upload_worker accumulated [] s = (ok tt, s)
  upload_worker accumulated (upload_chunk bytes ∷ cs) s = upload_worker (accumulated ++ bytes) cs s
  upload_worker accumulated (finalize final ∷ cs) s =
      let all : List ℕ = elim final [ none ↦ accumulated | some bytes ↦ accumulated ++ bytes ] in
      let (stored, s1) = svc.upload_object all s in
      if stored then (ok tt, s1) else (err (io upload_failed), s1)
