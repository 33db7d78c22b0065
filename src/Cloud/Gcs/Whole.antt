-- ===== src/Cloud/Gcs/Whole.antt =====
-- src/cloud/gcs.rs: everything that is written is uploaded in one request.
use mathlib.Core.Path.{subst}
use s_zip.Common.{
  ℕ, ◌≡◌, refl, sym, ap, ◌∙◌, Bool, true, false, List, [], ◌∷◌, ◌++◌, inl, inr, leb, length,
  flatten, flatten-append, if◌then◌else◌, append-nil, append_assoc, Bool-cases,
}
use s_zip.Outcome.{Result, ok, err, io, upload_failed}
use s_zip.Cloud.Task.{TaskPoll}
use s_zip.Cloud.Gcs.{
  UploadCommand, upload_chunk, finalize, GcsZipWriter, build, send, poll_write, final_data,
  poll_shutdown, Storage, upload_worker,
}

abbrev chunks : List (List ℕ) → List UploadCommand
chunks [] = []
chunks (d ∷ ds) = upload_chunk d ∷ chunks ds

chunks-append :
    (ds : List (List ℕ)) (d : List ℕ) → chunks (ds ++ d ∷ []) ≡ chunks ds ++ upload_chunk d ∷ []
chunks-append [] d = refl
chunks-append (e ∷ ds) d = ap (λ (l : List UploadCommand). upload_chunk e ∷ l) (chunks-append ds d)

-- The chunks that were sent and the buffer are the bytes written.
record Cut (bytes : List ℕ) (ds : List (List ℕ)) (w : GcsZipWriter) : Type 0 where
  in_order : w.sent ≡ chunks ds
  whole : flatten ds ++ w.buffer ≡ bytes
  open_still : w.shutdown_initiated ≡ false

abbrev IsCut : List ℕ → GcsZipWriter → Type 0
IsCut bytes w = (ds : List (List ℕ)) × Cut bytes ds w

poll_write-IsCut :
    (bytes buf : List ℕ) (w : GcsZipWriter)
    → IsCut bytes w
    → IsCut (bytes ++ buf) (poll_write true buf w).1
unfolding poll_write send
poll_write-IsCut bytes buf w (ds, c) =
    elim (Bool-cases (leb w.chunk_size (length (w.buffer ++ buf)))) [
      | inl e ↦ rw e (
        ds ++ (w.buffer ++ buf) ∷ [],
        record {
          in_order =
              ap (λ (l : List UploadCommand). l ++ upload_chunk (w.buffer ++ buf) ∷ []) c.in_order
              ∙ sym (chunks-append ds (w.buffer ++ buf));
          whole =
              append-nil (flatten (ds ++ (w.buffer ++ buf) ∷ []))
              ∙ flatten-append ds ((w.buffer ++ buf) ∷ [])
              ∙ ap (λ (t : List ℕ). flatten ds ++ t) (append-nil (w.buffer ++ buf))
              ∙ sym (append_assoc (flatten ds) w.buffer buf)
              ∙ ap (λ (t : List ℕ). t ++ buf) c.whole;
          open_still = c.open_still;
        },
      )
      | inr e ↦ rw e (
        ds,
        record {
          in_order = c.in_order;
          whole =
              sym (append_assoc (flatten ds) w.buffer buf) ∙ ap (λ (t : List ℕ). t ++ buf) c.whole;
          open_still = c.open_still;
        },
      )
    ]

pub write_all : List (List ℕ) → GcsZipWriter → GcsZipWriter
write_all [] w = w
write_all (buf ∷ bufs) w = write_all bufs (poll_write true buf w).1

write_all-IsCut :
    (bytes : List ℕ) (bufs : List (List ℕ)) (w : GcsZipWriter)
    → IsCut bytes w
    → IsCut (bytes ++ flatten bufs) (write_all bufs w)
unfolding write_all
write_all-IsCut bytes [] w h = subst (λ (t : List ℕ). IsCut t w) (sym (append-nil bytes)) h
write_all-IsCut bytes (buf ∷ bufs) w h =
    subst (λ (t : List ℕ). IsCut t (write_all bufs (poll_write true buf w).1))
      (append_assoc bytes buf (flatten bufs))
      (write_all-IsCut (bytes ++ buf) bufs (poll_write true buf w).1
        (poll_write-IsCut bytes buf w h))

-- What the worker makes of the result of its one request.
abbrev pub result_of : {S : Type 0} → Bool × S → Result (Unit {0}) × S
result_of (true, s) = (ok tt, s)
result_of (false, s) = (err (io upload_failed), s)

stored_as :
    {S : Type 0} (stored : Bool × S)
    → ◌≡◌ {A = Result (Unit {0}) × S}
        (if stored.0 then (ok tt, stored.1) else (err (io upload_failed), stored.1))
        (result_of stored)
stored_as (true, s) = refl
stored_as (false, s) = refl

module _ (svc : Storage) where
  worker_final :
      (accumulated buffer : List ℕ) (s : svc.State)
      → upload_worker svc accumulated (finalize (final_data buffer) ∷ []) s
        ≡ result_of (svc.upload_object (accumulated ++ buffer) s)
  unfolding upload_worker final_data
  worker_final accumulated [] s =
      rw (append-nil accumulated) (stored_as (svc.upload_object accumulated s))
  worker_final accumulated (b ∷ bs) s = stored_as (svc.upload_object (accumulated ++ (b ∷ bs)) s)

  worker_chunks :
      (accumulated : List ℕ) (ds : List (List ℕ)) (buffer : List ℕ) (s : svc.State)
      → upload_worker svc accumulated (chunks ds ++ finalize (final_data buffer) ∷ []) s
        ≡ result_of (svc.upload_object (accumulated ++ (flatten ds ++ buffer)) s)
  unfolding upload_worker
  worker_chunks accumulated [] buffer s = worker_final accumulated buffer s
  worker_chunks accumulated (d ∷ ds) buffer s =
      worker_chunks (accumulated ++ d) ds buffer s
      ∙ ap (λ (t : List ℕ). result_of (svc.upload_object t s))
          (append_assoc accumulated d (flatten ds ++ buffer)
            ∙ ap (λ (t : List ℕ). accumulated ++ t) (sym (append_assoc d (flatten ds) buffer)))

-- Whatever the chunk size and the writes, after the shutdown the worker makes one request, with all
-- the bytes that were written, and gives its result.
pub upload_worker-write_all :
    (svc : Storage) (size : ℕ) (bufs : List (List ℕ)) (task : TaskPoll) (s : svc.State)
    → upload_worker svc [] (poll_shutdown true task (write_all bufs (build size))).1.sent s
      ≡ result_of (svc.upload_object (flatten bufs) s)
unfolding poll_shutdown send build
upload_worker-write_all svc size bufs task s =
    let w = write_all bufs (build size) in
    let (ds, c) =
      write_all-IsCut [] bufs (build size)
        ([], record { in_order = refl; whole = refl; open_still = refl }) in
    rw c.open_still (
      ap
        (λ (l : List UploadCommand).
          upload_worker svc [] (l ++ finalize (final_data w.buffer) ∷ []) s)
        c.in_order
      ∙ worker_chunks svc [] ds w.buffer s
      ∙ ap (λ (t : List ℕ). result_of (svc.upload_object t s)) c.whole)
