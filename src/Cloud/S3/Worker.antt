-- ===== src/Cloud/S3/Worker.antt =====
-- src/cloud/s3.rs: the background task that uploads the parts, `upload_worker_concurrent`.
pub mod OneAtATime
pub mod Held
pub mod Delivered
pub mod Retries
use s_zip.Common.{
  ℕ, zero, suc, ◌+◌, ◌-◌, ◌*◌, ◌%◌, ◌^◌, ◌<◌, ◌≡◌, Bool, true, false, List, [], ◌∷◌, ◌++◌, Option,
  none, some, map, ltb, if◌then◌else◌, length,
}
use s_zip.Outcome.{
  Result, ok, err, panic, io, upload_not_created, no_upload_id, part_not_uploaded, no_etag,
  upload_not_completed,
}
use s_zip.Sink.{Exec, ◌>>=◌, pure}
use s_zip.Cloud.S3.Writer.{UploadCommand, upload_part, complete}

-- The service under one bucket and key: `none` is a call that failed, and an answer may lack its value.
-- `sleep` lets time pass. `pick` says which of the futures in a `FuturesUnordered` ends first.
pub record S3Service : Type 1 where
  pub State : Type 0
  pub create_multipart_upload : State → Option (Option (List ℕ)) × State
  pub put_part : List ℕ → ℕ → List ℕ → State → Option (Option (List ℕ)) × State
  pub complete_multipart_upload : List ℕ → List (ℕ × List ℕ) → State → Bool × State
  pub sleep : ℕ → State → State
  pub pick : State → List (ℕ × List ℕ) → ℕ

-- A cast of `usize` to `i32`, as the bits of the 32-bit number.
abbrev pub as_i32 : ℕ → ℕ
as_i32 n = n % 2 ^ 32

-- A part with its data, and a completed part: the number and the tag that the service gave.
abbrev pub PartUpload : Type 0
PartUpload = ℕ × List ℕ

abbrev pub CompletedPart : Type 0
CompletedPart = ℕ × List ℕ

pub record Uploads : Type 0 where
  pub upload_id : Option (List ℕ)
  pub completed_parts : List (ℕ × CompletedPart)
  pub upload_futures : List PartUpload
  pub pending_parts : List PartUpload

abbrev pub no_uploads : Uploads
no_uploads = record {
  upload_id = none;
  completed_parts = [];
  upload_futures = [];
  pending_parts = [];
}

abbrev pub max_retries : ℕ
max_retries = 3

abbrev pub base_delay_ms : ℕ
base_delay_ms = 100

-- `FuturesUnordered::next`: the future at this place, or the last, and those that stay.
pub take_future : ℕ → List PartUpload → Option (PartUpload × List PartUpload)
take_future i [] = none
take_future zero (f ∷ fs) = some (f, fs)
take_future (suc i) (f ∷ fs) = elim (take_future i fs) [
  | none ↦ some (f, fs)
  | some (g, rest) ↦ some (g, f ∷ rest)
]

-- `Vec::pop`
pub pop : List PartUpload → Option (PartUpload × List PartUpload)
pop [] = none
pop (p ∷ ps) = elim (pop ps) [ none ↦ some (p, []) | some (q, rest) ↦ some (q, p ∷ rest) ]

-- `sort_by_key`, stable.
pub insert_part : ℕ × CompletedPart → List (ℕ × CompletedPart) → List (ℕ × CompletedPart)
insert_part x [] = x ∷ []
insert_part x (y ∷ ys) = if ltb x.0 y.0 then x ∷ y ∷ ys else y ∷ insert_part x ys

pub sort_parts_from : List (ℕ × CompletedPart) → List (ℕ × CompletedPart) → List (ℕ × CompletedPart)
sort_parts_from sorted [] = sorted
sort_parts_from sorted (x ∷ xs) = sort_parts_from (insert_part x sorted) xs

module _ (svc : S3Service) where
  -- The loop of `upload_part_with_retry`, by the retries that are left.
  pub upload_attempt : ℕ → List ℕ → ℕ → List ℕ → Exec svc.State (ℕ × CompletedPart)
  upload_attempt zero id part_number bytes s =
      let (reply, s1) = svc.put_part id (as_i32 part_number) bytes s in
      elim reply [
        | none ↦ (err (io (part_not_uploaded part_number)), s1)
        | some none ↦ (err (io (no_etag part_number)), s1)
        | some (some etag) ↦ (ok (part_number, (as_i32 part_number, etag)), s1)
      ]
  upload_attempt (suc left) id part_number bytes s =
      let (reply, s1) = svc.put_part id (as_i32 part_number) bytes s in
      elim reply [
        | none ↦
            let retries = max_retries - left in
            upload_attempt left id part_number bytes
              (svc.sleep (base_delay_ms * 2 ^ (retries - 1)) s1)
        | some none ↦ (err (io (no_etag part_number)), s1)
        | some (some etag) ↦ (ok (part_number, (as_i32 part_number, etag)), s1)
      ]

  pub upload_part_with_retry : List ℕ → PartUpload → Exec svc.State (ℕ × CompletedPart)
  unfolding upload_attempt
  upload_part_with_retry id (part_number, bytes) = upload_attempt max_retries id part_number bytes

  pub ensure_upload : Option (List ℕ) → Exec svc.State (List ℕ)
  ensure_upload (some id) s = (ok id, s)
  ensure_upload none s =
      let (reply, s1) = svc.create_multipart_upload s in
      elim reply [
        | none ↦ (err (io upload_not_created), s1)
        | some none ↦ (err (io no_upload_id), s1)
        | some (some id) ↦ (ok id, s1)
      ]

  pub next_future : List PartUpload → Exec svc.State (Option (PartUpload × List PartUpload))
  unfolding take_future
  next_future fs s = (ok (take_future (svc.pick s fs) fs), s)

  -- A part whose upload has ended, with the next one that waits in its place.
  pub part_done : ℕ × CompletedPart → List PartUpload → Uploads → Uploads
  unfolding pop
  part_done part rest u =
      let done = record u {
        completed_parts = u.completed_parts ++ part ∷ [];
        upload_futures = rest;
      } in
      elim (pop u.pending_parts) [
        | none ↦ done
        | some (p, ps) ↦ record done { upload_futures = rest ++ p ∷ []; pending_parts = ps }
      ]

  abbrev out_of_fuel : {A : Type 0} → Exec svc.State A
  out_of_fuel s = (panic, s)

  -- The loop that waits for uploads while a part is taken, on fuel: `panic` is where it runs out.
  pub poll_completed : ℕ → ℕ → List ℕ → Uploads → Exec svc.State Uploads
  poll_completed zero max_concurrent id u = out_of_fuel
  poll_completed (suc fuel) max_concurrent id u = do
    next ← next_future u.upload_futures
    elim next [
      | none ↦ pure u
      | some (f, rest) ↦ do
        part ← upload_part_with_retry id f
        let u1 = part_done part rest u
        elim (ltb (length u1.upload_futures) max_concurrent) [
          | true ↦ pure u1
          | false ↦ poll_completed fuel max_concurrent id u1
        ]
    ]

  pub take_part : ℕ → ℕ → List ℕ → Uploads → Exec svc.State Uploads
  unfolding ensure_upload poll_completed
  take_part max_concurrent part_number bytes u = do
    id ← ensure_upload u.upload_id
    let started = record u { upload_id = some id }
    let queued =
        if ltb (length u.upload_futures) max_concurrent
        then record started { upload_futures = u.upload_futures ++ (part_number, bytes) ∷ [] }
        else record started { pending_parts = u.pending_parts ++ (part_number, bytes) ∷ [] }
    poll_completed (length queued.upload_futures + length queued.pending_parts + 1) max_concurrent
        id queued

  -- The loop that waits for all uploads, on fuel.
  pub finish_uploads : ℕ → List ℕ → Uploads → Exec svc.State Uploads
  finish_uploads zero id u = out_of_fuel
  finish_uploads (suc fuel) id u = do
    next ← next_future u.upload_futures
    elim next [
      | none ↦ pure u
      | some (f, rest) ↦ do
        part ← upload_part_with_retry id f
        finish_uploads fuel id
            (record u { completed_parts = u.completed_parts ++ part ∷ []; upload_futures = rest })
    ]

  pub take_final : Option (List ℕ) → Uploads → Exec svc.State Uploads
  unfolding ensure_upload
  take_final none u = pure u
  take_final (some []) u = pure u
  take_final (some (b ∷ bs)) u = do
    id ← ensure_upload u.upload_id
    let part_number =
        length u.completed_parts + length u.upload_futures + length u.pending_parts + 1
    pure (record u {
      upload_id = some id;
      upload_futures = u.upload_futures ++ (part_number, b ∷ bs) ∷ [];
    })

  pub complete_upload : Uploads → Exec svc.State (Unit {0})
  unfolding sort_parts_from insert_part
  complete_upload u s = elim u.upload_id [
    | none ↦ (ok tt, s)
    | some id ↦
        let parts = map (λ p. p.1) (sort_parts_from [] u.completed_parts) in
        let (done, s1) = svc.complete_multipart_upload id parts s in
        if done then (ok tt, s1) else (err (io upload_not_completed), s1)
  ]

  id_or_empty : Option (List ℕ) → List ℕ
  id_or_empty none = []
  id_or_empty (some id) = id

  -- Without an upload nothing is under way, and the id of the loop is not read.
  pub take_complete : Option (List ℕ) → Uploads → Exec svc.State (Unit {0})
  unfolding take_final finish_uploads complete_upload id_or_empty
  take_complete final u = do
    u1 ← take_final final u
    let id = id_or_empty u1.upload_id
    u2 ← finish_uploads (length u1.upload_futures + 1) id u1
    complete_upload u2

  -- The commands come in the order in which they were sent; a channel that is closed ends the task.
  pub upload_worker_concurrent : ℕ → Uploads → List UploadCommand → Exec svc.State (Unit {0})
  unfolding take_part take_complete
  upload_worker_concurrent max_concurrent u [] = pure tt
  upload_worker_concurrent max_concurrent u (upload_part n bytes ∷ cs) = do
    u1 ← take_part max_concurrent n bytes u
    upload_worker_concurrent max_concurrent u1 cs
  upload_worker_concurrent max_concurrent u (complete final ∷ cs) = take_complete final u
