-- ===== src/Tests/Cloud.antt =====
-- src/cloud/s3.rs against a service in memory that refuses every other part once.
use s_zip.Common.{
  ℕ, suc, ◌≡◌, ◌≢◌, refl, ap, ◌∙◌, inl, inr, Bool, true, false, List, [], ◌∷◌, ◌++◌, Option, none,
  some, arith, flatten, ◌==◌, eq_true, eq_false, if◌then◌else◌,
}
use s_zip.Outcome.{ok}
use s_zip.Cloud.Task.{TaskPoll, ready}
use s_zip.Cloud.S3.Writer.{
  S3ZipWriter, S3ZipWriterBuilder, builder, build, poll_write, poll_shutdown, send, final_data,
}
use s_zip.Cloud.S3.Worker.{S3Service, CompletedPart, upload_worker_concurrent, no_uploads}
use s_zip.Cloud.S3.Worker.OneAtATime.{upload_in_turn, upload_worker_concurrent-in_turn}
use s_zip.Cloud.S3.Worker.Held.{HeldParts, MultipartLaws}
use s_zip.Cloud.S3.Worker.Delivered.{commands}
use s_zip.Cloud.S3.Worker.Retries.{TakesWithin, IsResponsive, upload_worker_concurrent-ends}
use s_zip.Cloud.S3.Parts.{write_all, Cut, write_all-Cut, object-write_all}
use s_zip.Cloud.Gcs
use s_zip.Cloud.Gcs.{Storage, upload_worker}
use s_zip.Cloud.Gcs.Whole.{result_of, upload_worker-write_all}
use s_zip.Cloud.S3.Reader.{poll_read}
use s_zip.Cloud.S3.Reader.Slices.{whole, poll_read-slice}

record Bucket : Type 0 where
  held : ℕ → Option (List ℕ)
  stored : Option (List ℕ)
  refuses : Bool

abbrev both : Option (List ℕ) → Option (List ℕ) → Option (List ℕ)
both none rest = none
both (some d) none = none
both (some d) (some rest) = some (d ++ rest)

abbrev collect : (ℕ → Option (List ℕ)) → List CompletedPart → Option (List ℕ)
collect held [] = some []
collect held (p ∷ ps) = both (held p.0) (collect held ps)

abbrev put : ℕ → List ℕ → Bucket → Option (Option (List ℕ)) × Bucket
put n bytes b = elim b.refuses [
  | true ↦ (none, record b { refuses = false })
  | false ↦ (
    some (some (n ∷ [])),
    record b { held = λ m. if m == n then some bytes else b.held m; refuses = true },
  )
]

abbrev service : S3Service
service = record {
  State = Bucket;
  create_multipart_upload = λ b. (some (some (1 ∷ [])), b);
  put_part = λ id n bytes b. put n bytes b;
  complete_multipart_upload = λ id parts b. (true, record b { stored = collect b.held parts });
  sleep = λ ms b. b;
  pick = λ b fs. 0;
}

put_held :
    (n : ℕ) (bytes : List ℕ) (held : ℕ → Option (List ℕ)) (stored : Option (List ℕ))
    (refuses : Bool) (etag : List ℕ)
    → (put n bytes (record { held = held; stored = stored; refuses = refuses })).0
      ≡ some (some etag)
    → (put n bytes (record { held = held; stored = stored; refuses = refuses })).1.held n
      ≡ some bytes
put_held n bytes held stored true etag h = absurd (cc h)
put_held n bytes held stored false etag h = rw (eq_true n n refl)

put_other :
    (n : ℕ) (bytes : List ℕ) (held : ℕ → Option (List ℕ)) (stored : Option (List ℕ))
    (refuses : Bool) (m : ℕ) (d : List ℕ)
    → m ≢ n
    → held m ≡ some d
    → (put n bytes (record { held = held; stored = stored; refuses = refuses })).1.held m ≡ some d
put_other n bytes held stored true m d ne h = h
put_other n bytes held stored false m d ne h = rw (eq_false m n ne) h

collected :
    (held : ℕ → Option (List ℕ)) (k : ℕ) (parts : List CompletedPart) (ds : List (List ℕ))
    → HeldParts (λ n etag. held n) k parts ds
    → collect held parts ≡ some (flatten ds)
collected held k [] [] h = refl
collected held k [] (d ∷ ds) h = absurd h
collected held k (p ∷ ps) [] h = absurd h
collected held k (p ∷ ps) (d ∷ ds) (number, here, rest) =
    ap (λ o. both o (collect held ps)) (ap held number ∙ here)
    ∙ ap (both (some d)) (collected held (suc k) ps ds rest)

service_laws : MultipartLaws service
service_laws = record {
  part = λ b id n etag. b.held n;
  object = λ b. b.stored;
  part-put_part = λ id n bytes b etag h. put_held n bytes b.held b.stored b.refuses etag h;
  part-put_part_other =
      λ id n bytes b m etag d ne h. put_other n bytes b.held b.stored b.refuses m d ne h;
  part-sleep = λ ms b id m etag d h. h;
  object-complete_multipart_upload = λ id parts ds b h e. collected b.held 1 parts ds h;
}

takes_again :
    (n : ℕ) (bytes : List ℕ) (held : ℕ → Option (List ℕ)) (stored : Option (List ℕ))
    (refuses : Bool)
    → TakesWithin service 3 [] n bytes (record { held = held; stored = stored; refuses = refuses })
takes_again n bytes held stored true = inr (refl, λ ms. inl (n ∷ [], refl))
takes_again n bytes held stored false = inl (n ∷ [], refl)

abbrev service_live : IsResponsive service service_laws
service_live = record {
  least = 1;
  largest = 4;
  creates = λ b. (1 ∷ [], refl);
  takes = λ id n bytes b lo hi fits. takes_again n bytes b.held b.stored b.refuses;
  completes = λ id parts ds b held some_part few sizes. refl;
}

abbrev empty_bucket : Bucket
empty_bucket = record { held = λ m. none; stored = none; refuses = true }

abbrev two_parts : List (List ℕ)
two_parts = (1 ∷ 2 ∷ []) ∷ (3 ∷ []) ∷ []

upload_worker_concurrent-in_turn_example :
    upload_worker_concurrent service 4 no_uploads (commands 1 two_parts (some (4 ∷ [])))
    ≡ upload_in_turn service none [] (commands 1 two_parts (some (4 ∷ [])))
upload_worker_concurrent-in_turn_example =
    upload_worker_concurrent-in_turn service 4 (commands 1 two_parts (some (4 ∷ []))) (omega arith)

abbrev three_at_a_time : S3ZipWriterBuilder
three_at_a_time = record builder { part_size = 3 }

write_all-Cut_example :
    (ds : List (List ℕ)) × Cut
      (1 ∷ 2 ∷ 3 ∷ 4 ∷ 5 ∷ [])
      ds
      (write_all ((1 ∷ 2 ∷ []) ∷ (3 ∷ 4 ∷ []) ∷ (5 ∷ []) ∷ []) (build three_at_a_time))
write_all-Cut_example =
    write_all-Cut three_at_a_time ((1 ∷ 2 ∷ []) ∷ (3 ∷ 4 ∷ []) ∷ (5 ∷ []) ∷ []) (omega arith)

abbrev closed : S3ZipWriter
closed = (poll_shutdown true TaskPoll.pending (write_all two_parts (build builder))).1

abbrev full_bucket : Bucket
full_bucket = (upload_worker_concurrent service 4 no_uploads closed.sent empty_bucket).1

closed-ends :
    upload_worker_concurrent service 4 no_uploads closed.sent empty_bucket ≡ (ok tt, full_bucket)
unfolding write_all build poll_write poll_shutdown send final_data
closed-ends =
    ap (λ r. (r, full_bucket))
      (upload_worker_concurrent-ends service service_laws service_live 4 [] (some (1 ∷ 2 ∷ 3 ∷ []))
        empty_bucket (omega arith) (omega arith) tt (omega arith))

object-write_all_example : full_bucket.stored ≡ some (1 ∷ 2 ∷ 3 ∷ [])
unfolding service_laws
object-write_all_example =
    object-write_all service service_laws builder two_parts TaskPoll.pending empty_bucket
      full_bucket (omega arith) (omega arith) (omega arith) (omega arith) closed-ends

abbrev memory : Storage
memory = record { State = List ℕ; upload_object = λ bytes s. (true, bytes) }

upload_worker-write_all_example :
    upload_worker memory []
      (Gcs.poll_shutdown true TaskPoll.pending (Gcs.Whole.write_all two_parts (Gcs.build 2))).1.sent
      []
    ≡ result_of (memory.upload_object (1 ∷ 2 ∷ 3 ∷ []) [])
upload_worker-write_all_example = upload_worker-write_all memory 2 two_parts TaskPoll.pending []

poll_read-slice_example :
    poll_read (whole (5 ∷ 6 ∷ 7 ∷ [])) 9 (record { position = 1; size = 3; read_future = none })
    ≡ (ready (ok (6 ∷ 7 ∷ [])), record { position = 3; size = 3; read_future = none })
poll_read-slice_example =
    poll_read-slice (5 ∷ 6 ∷ 7 ∷ []) 9 (record { position = 1; size = 3; read_future = none }) refl
      refl (omega arith) (omega arith) (omega arith) (omega arith)
