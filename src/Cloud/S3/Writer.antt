-- ===== src/Cloud/S3/Writer.antt =====
-- src/cloud/s3.rs: `S3ZipWriter` and the commands that it sends.
use s_zip.Common.{
  ℕ, ◌+◌, ◌*◌, ◌%◌, ◌^◌, Bool, true, false, List, [], ◌∷◌, ◌++◌, Option, none, some, leb, ltb, not,
  ◌&&◌, if◌then◌else◌, length,
}
use s_zip.Outcome.{Result, ok, err, panic, io, broken_pipe, unsupported, upload_failed}
use s_zip.Cloud.Task.{TaskPoll, Poll, ready, SeekFrom, from_start, from_end, from_current, is_zero}

abbrev pub default_part_size : ℕ
default_part_size = 5 * 1024 * 1024

abbrev pub max_part_size : ℕ
max_part_size = 5 * 1024 * 1024 * 1024

abbrev pub max_parts : ℕ
max_parts = 10_000

pub data UploadCommand : Type 0 where
  upload_part : ℕ → List ℕ → UploadCommand
  complete : Option (List ℕ) → UploadCommand

-- The fields of the builder that the crate's own code reads.
pub record S3ZipWriterBuilder : Type 0 where
  pub part_size : ℕ
  pub max_concurrent_uploads : ℕ

abbrev pub builder : S3ZipWriterBuilder
builder = record { part_size = default_part_size; max_concurrent_uploads = 4 }

-- The setters panic outside their limits.
pub part_size : ℕ → S3ZipWriterBuilder → Result S3ZipWriterBuilder
part_size n b =
    if leb default_part_size n && leb n max_part_size
    then ok (record b { part_size = n })
    else panic

pub max_concurrent_uploads : ℕ → S3ZipWriterBuilder → Result S3ZipWriterBuilder
max_concurrent_uploads n b =
    if ltb 0 n && leb n 20 then ok (record b { max_concurrent_uploads = n }) else panic

-- `sent` is what has gone through the channel, in order.
pub record S3ZipWriter : Type 0 where
  pub sent : List UploadCommand
  pub buffer : List ℕ
  pub part_size : ℕ
  pub position : ℕ
  pub current_part_number : ℕ
  pub shutdown_initiated : Bool

unfoldable pub build : S3ZipWriterBuilder → S3ZipWriter
build b = record {
  sent = [];
  buffer = [];
  part_size = b.part_size;
  position = 0;
  current_part_number = 0;
  shutdown_initiated = false;
}

-- `alive` says whether the task still receives; a failed send loses its command.
unfoldable pub send : Bool → UploadCommand → S3ZipWriter → Result (Unit {0}) × S3ZipWriter
send true c w = (ok tt, record w { sent = w.sent ++ c ∷ [] })
send false c w = (err (io broken_pipe), w)

unfoldable pub poll_write : Bool → List ℕ → S3ZipWriter → Result ℕ × S3ZipWriter
unfolding send
poll_write alive buf w =
    let buffer = w.buffer ++ buf in
    let filled = record w { buffer = buffer; position = (w.position + length buf) % 2 ^ 64 } in
    if leb w.part_size (length buffer)
    then (let number = w.current_part_number + 1 in
        let (r, sent) =
          send alive (upload_part number buffer)
            (record filled { buffer = []; current_part_number = number }) in
        (elim r [ ok u ↦ ok (length buf) | err e ↦ err e | panic ↦ panic ], sent))
    else (ok (length buf), filled)

pub poll_flush : S3ZipWriter → Result (Unit {0}) × S3ZipWriter
poll_flush w = (ok tt, w)

-- The data of the last part, where there is any.
unfoldable pub final_data : List ℕ → Option (List ℕ)
final_data [] = none
final_data (b ∷ bs) = some (b ∷ bs)

-- The command is sent by the first call; each call polls the task.
unfoldable pub poll_shutdown :
    Bool → TaskPoll → S3ZipWriter → Poll (Result (Unit {0})) × S3ZipWriter
unfolding send final_data
poll_shutdown alive task w =
    let (sending, w1) =
      if not w.shutdown_initiated
      then send alive (complete (final_data w.buffer))
          (record w { shutdown_initiated = true; buffer = [] })
      else (ok tt, w) in
    elim sending [
      | ok u ↦ (
        elim task [
          | TaskPoll.pending ↦ Poll.pending
          | TaskPoll.joined r ↦ ready (elim r [
            | ok u ↦ ok tt
            | err e ↦ err (io upload_failed)
            | panic ↦ err (io upload_failed)
          ])
        ],
        w1,
      )
      | err e ↦ (ready (err e), w1)
      | panic ↦ (ready panic, w1)
    ]

-- Only the position itself can be asked for.
pub start_seek : SeekFrom → S3ZipWriter → Result (Unit {0})
start_seek (from_start n) w = err (io unsupported)
start_seek (from_end o) w = err (io unsupported)
start_seek (from_current o) w = if is_zero o then ok tt else err (io unsupported)

pub poll_complete : S3ZipWriter → ℕ
poll_complete w = w.position
