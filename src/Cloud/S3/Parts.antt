-- ===== src/Cloud/S3/Parts.antt =====
-- src/cloud/s3.rs: how `S3ZipWriter` cuts what is written into parts, and what becomes of them.
use mathlib.Core.Path.{subst}
use s_zip.Common.{
  le_of_leb, lt_of_leb, ℕ, suc, ◌+◌, ◌*◌, ◌%◌, ◌^◌, ◌≤◌, ◌<◌, ◌≡◌, refl, sym, ap, ◌∙◌, true, false,
  List, [], ◌∷◌, ◌++◌, Option, some, All, inl, inr, arith, leb, length, flatten, flatten-append,
  append-nil, append_assoc, length-append, Bool-cases,
}
use s_zip.Outcome.{ok}
use s_zip.Cloud.Task.{TaskPoll}
use s_zip.Cloud.S3.Writer.{
  UploadCommand, upload_part, complete, S3ZipWriterBuilder, S3ZipWriter, build, send, poll_write,
  final_data, poll_shutdown, default_part_size,
}
use s_zip.Cloud.S3.Worker.{S3Service, upload_worker_concurrent, no_uploads}
use s_zip.Cloud.S3.Worker.Held.{MultipartLaws}
use s_zip.Cloud.S3.Worker.Delivered.{commands, final_bytes, upload_worker_concurrent-object}

-- The parts that are sent, numbered from `k` on.
abbrev pub parts : ℕ → List (List ℕ) → List UploadCommand
parts k [] = []
parts k (d ∷ ds) = upload_part k d ∷ parts (suc k) ds

parts-append :
    (k : ℕ) (ds : List (List ℕ)) (d : List ℕ)
    → parts k (ds ++ d ∷ []) ≡ parts k ds ++ upload_part (k + length ds) d ∷ []
parts-append k [] d =
    let same : k ≡ k + 0 = omega arith in ap (λ (n : ℕ). upload_part n d ∷ []) same
parts-append k (e ∷ ds) d =
    let same : suc k + length ds ≡ k + suc (length ds) = omega arith in
    ap (λ (l : List UploadCommand). upload_part k e ∷ l)
      (parts-append (suc k) ds d ∙ ap (λ (n : ℕ). parts (suc k) ds ++ upload_part n d ∷ []) same)

parts-commands :
    (k : ℕ) (ds : List (List ℕ)) (final : Option (List ℕ))
    → parts k ds ++ complete final ∷ [] ≡ commands k ds final
parts-commands k [] final = refl
parts-commands k (d ∷ ds) final =
    ap (λ (l : List UploadCommand). upload_part k d ∷ l) (parts-commands (suc k) ds final)

All-append :
    (P : List ℕ → Type 0) (ds : List (List ℕ)) (d : List ℕ) → All P ds → P d → All P (ds ++ d ∷ [])
All-append P [] d h p = (p, tt)
All-append P (e ∷ ds) d h p = (h.0, All-append P ds d h.1 p)

-- The writer after so many bytes: the parts that it has sent are numbered and large enough, and with
-- the buffer, which is smaller than a part, they are the bytes.
pub record Cut (bytes : List ℕ) (ds : List (List ℕ)) (w : S3ZipWriter) : Type 0 where
  pub in_order : w.sent ≡ parts 1 ds
  pub numbered : w.current_part_number ≡ length ds
  pub whole : flatten ds ++ w.buffer ≡ bytes
  pub counted : w.position ≡ length bytes % 2 ^ 64
  pub large : All (λ d. w.part_size ≤ length d) ds
  pub small : length w.buffer < w.part_size
  pub open_still : w.shutdown_initiated ≡ false

abbrev pub IsCut : List ℕ → S3ZipWriter → Type 0
IsCut bytes w = (ds : List (List ℕ)) × Cut bytes ds w

build-Cut : (b : S3ZipWriterBuilder) → 0 < b.part_size → Cut [] [] (build b)
unfolding build
build-Cut b h = record {
  in_order = refl;
  numbered = refl;
  whole = refl;
  counted = refl;
  large = tt;
  small = h;
  open_still = refl;
}

module _ (bytes buf : List ℕ) (ds : List (List ℕ)) (w : S3ZipWriter) (c : Cut bytes ds w) where
  abbrev position' : ℕ
  position' = (w.position + length buf) % 2 ^ 64

  counted' : position' ≡ length (bytes ++ buf) % 2 ^ 64
  counted' = omega (arith, c.counted, length-append bytes buf)

  full-Cut :
      w.part_size ≤ length (w.buffer ++ buf)
      → Cut (bytes ++ buf) (ds ++ (w.buffer ++ buf) ∷ []) (record w {
        sent = w.sent ++ upload_part (w.current_part_number + 1) (w.buffer ++ buf) ∷ [];
        buffer = [];
        position = position';
        current_part_number = w.current_part_number + 1;
      })
  full-Cut enough =
      let number : w.current_part_number + 1 ≡ 1 + length ds = omega (arith, c.numbered) in
      record {
        in_order =
            ap
              (λ (l : List UploadCommand).
                l ++ upload_part (w.current_part_number + 1) (w.buffer ++ buf) ∷ [])
              c.in_order
            ∙ ap (λ (n : ℕ). parts 1 ds ++ upload_part n (w.buffer ++ buf) ∷ []) number
            ∙ sym (parts-append 1 ds (w.buffer ++ buf));
        numbered = omega (arith, c.numbered, length-append {0} ds ((w.buffer ++ buf) ∷ []));
        whole =
            append-nil (flatten (ds ++ (w.buffer ++ buf) ∷ []))
            ∙ flatten-append ds ((w.buffer ++ buf) ∷ [])
            ∙ ap (λ (t : List ℕ). flatten ds ++ t) (append-nil (w.buffer ++ buf))
            ∙ sym (append_assoc (flatten ds) w.buffer buf)
            ∙ ap (λ (t : List ℕ). t ++ buf) c.whole;
        counted = counted';
        large = All-append (λ d. w.part_size ≤ length d) ds (w.buffer ++ buf) c.large enough;
        small = omega (arith, c.small);
        open_still = c.open_still;
      }

  kept-Cut :
      length (w.buffer ++ buf) < w.part_size
      → Cut (bytes ++ buf) ds (record w { buffer = w.buffer ++ buf; position = position' })
  kept-Cut few = record {
    in_order = c.in_order;
    numbered = c.numbered;
    whole = sym (append_assoc (flatten ds) w.buffer buf) ∙ ap (λ (t : List ℕ). t ++ buf) c.whole;
    counted = counted';
    large = c.large;
    small = few;
    open_still = c.open_still;
  }

-- The writer takes all of the bytes, and sends a part where it has enough.
poll_write-IsCut :
    (bytes buf : List ℕ) (w : S3ZipWriter)
    → IsCut bytes w
    → ((poll_write true buf w).0 ≡ ok (length buf)) × IsCut (bytes ++ buf) (poll_write true buf w).1
unfolding poll_write send
poll_write-IsCut bytes buf w (ds, c) =
    elim (Bool-cases (leb w.part_size (length (w.buffer ++ buf)))) [
      | inl e ↦
          rw e (refl, (ds ++ (w.buffer ++ buf) ∷ [], full-Cut bytes buf ds w c (le_of_leb _ _ e)))
      | inr e ↦ rw e (refl, (ds, kept-Cut bytes buf ds w c (lt_of_leb _ _ e)))
    ]

-- A run of writes while the task receives.
unfoldable pub write_all : List (List ℕ) → S3ZipWriter → S3ZipWriter
write_all [] w = w
write_all (buf ∷ bufs) w = write_all bufs (poll_write true buf w).1

write_all-IsCut :
    (bytes : List ℕ) (bufs : List (List ℕ)) (w : S3ZipWriter)
    → IsCut bytes w
    → IsCut (bytes ++ flatten bufs) (write_all bufs w)
unfolding write_all
write_all-IsCut bytes [] w (ds, c) = rw append-nil (ds, c)
write_all-IsCut bytes (buf ∷ bufs) w h =
    subst (λ (t : List ℕ). IsCut t (write_all bufs (poll_write true buf w).1))
      (append_assoc bytes buf (flatten bufs))
      (write_all-IsCut (bytes ++ buf) bufs (poll_write true buf w).1
        (poll_write-IsCut bytes buf w h).1)

-- After any writes, the parts that were sent are numbered from one on, each has at least the part
-- size, the buffer has less, together they are the bytes written, and the position is their number.
pub write_all-Cut :
    (b : S3ZipWriterBuilder) (bufs : List (List ℕ))
    → 0 < b.part_size
    → (ds : List (List ℕ)) × Cut (flatten bufs) ds (write_all bufs (build b))
write_all-Cut b bufs h = write_all-IsCut [] bufs (build b) ([], build-Cut b h)

write_all-part_size :
    (bufs : List (List ℕ)) (w : S3ZipWriter) → (write_all bufs w).part_size ≡ w.part_size
unfolding write_all poll_write send
write_all-part_size [] w = refl
write_all-part_size (buf ∷ bufs) w =
    write_all-part_size bufs (poll_write true buf w).1
    ∙ elim (Bool-cases (leb w.part_size (length (w.buffer ++ buf)))) [ inl e ↦ rw e | inr e ↦ rw e ]

final_bytes-final_data : (buffer : List ℕ) → final_bytes (final_data buffer) ≡ buffer
unfolding final_data
final_bytes-final_data [] = refl
final_bytes-final_data (b ∷ bs) = refl

-- The first shutdown completes the run of commands.
poll_shutdown-commands :
    (bytes : List ℕ) (ds : List (List ℕ)) (w : S3ZipWriter) (task : TaskPoll)
    → Cut bytes ds w
    → (poll_shutdown true task w).1.sent ≡ commands 1 ds (final_data w.buffer)
unfolding poll_shutdown send
poll_shutdown-commands bytes ds w task c = rw c.open_still (
    ap (λ (l : List UploadCommand). l ++ complete (final_data w.buffer) ∷ []) c.in_order
    ∙ parts-commands 1 ds (final_data w.buffer))

-- Parts of a part size have few enough numbers.
few_parts :
    (size : ℕ) (ds : List (List ℕ))
    → default_part_size ≤ size
    → All (λ d. size ≤ length d) ds
    → default_part_size * length ds ≤ length (flatten ds)
few_parts size [] h large = omega arith
few_parts size (d ∷ ds) h (one, rest) =
    omega (arith, few_parts size ds h rest, length-append d (flatten ds))

-- What is written to a writer and completed by a shutdown is the object, byte for byte, where the
-- worker ends well: for a part size within the limits, and at most five tebibytes, of which there is one
-- byte at least.
pub object-write_all :
    (svc : S3Service) (laws : MultipartLaws svc) (b : S3ZipWriterBuilder) (bufs : List (List ℕ))
    (task : TaskPoll) (s s2 : svc.State)
    → default_part_size ≤ b.part_size
    → 0 < b.max_concurrent_uploads
    → 0 < length (flatten bufs)
    → length (flatten bufs) ≤ 5 * 2 ^ 40
    → upload_worker_concurrent svc b.max_concurrent_uploads no_uploads
        (poll_shutdown true task (write_all bufs (build b))).1.sent
        s
      ≡ (ok tt, s2)
    → laws.object s2 ≡ some (flatten bufs)
unfolding build
object-write_all svc laws b bufs task s s2 size permits some_bytes few e =
    let w = write_all bufs (build b) in
    let (ds, c) = write_all-Cut b bufs (omega arith) in
    let whole : flatten ds ++ final_bytes (final_data w.buffer) ≡ flatten bufs =
      ap (λ (t : List ℕ). flatten ds ++ t) (final_bytes-final_data w.buffer) ∙ c.whole in
    let large : default_part_size * length ds ≤ length (flatten ds) =
      few_parts w.part_size ds (omega (arith, write_all-part_size bufs (build b))) c.large in
    upload_worker_concurrent-object svc laws b.max_concurrent_uploads ds (final_data w.buffer) s s2
      permits (omega (arith, ap length c.whole, length-append (flatten ds) w.buffer))
      (omega (arith, ap length whole))
      (ap (λ cs. upload_worker_concurrent svc b.max_concurrent_uploads no_uploads cs s)
          (sym (poll_shutdown-commands (flatten bufs) ds w task c))
        ∙ e)
    ∙ ap some whole
