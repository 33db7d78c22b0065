-- ===== src/Cloud/S3/Worker/OneAtATime.antt =====
-- src/cloud/s3.rs: the worker never has two uploads under way, whatever `max_concurrent` is.
use mathlib.Core.Path.{fun_ext}
use s_zip.Common.{
  ℕ, zero, suc, ◌+◌, ◌<◌, ◌≡◌, refl, ap, ◌∙◌, List, [], ◌∷◌, ◌++◌, Option, none, some, arith,
  length, ltb-true,
}
use s_zip.Outcome.{Result, ok, err, panic}
use s_zip.Sink.{Exec, continue, ◌>>=◌, pure}
use s_zip.Cloud.S3.Worker.{
  S3Service, Uploads, PartUpload, CompletedPart, take_future, pop, part_done, next_future,
  id_or_empty, poll_completed, take_part, ensure_upload, upload_part_with_retry, finish_uploads,
  take_final, take_complete, complete_upload, upload_worker_concurrent, no_uploads,
}
use s_zip.Cloud.S3.Writer.{UploadCommand, upload_part, complete}

-- Nothing waits for its turn.
abbrev pub alone : Option (List ℕ) → List (ℕ × CompletedPart) → List PartUpload → Uploads
alone upload_id done futures = record {
  upload_id = upload_id;
  completed_parts = done;
  upload_futures = futures;
  pending_parts = [];
}

module _ (svc : S3Service) where
  take_only : (i : ℕ) (f : PartUpload) → take_future i (f ∷ []) ≡ some (f, [])
  unfolding take_future
  take_only zero f = refl
  take_only (suc i) f = refl

  -- The loop over one upload: it ends, and no second round is made.
  poll_one :
      (fuel max_concurrent : ℕ) (id : List ℕ) (done : List (ℕ × CompletedPart)) (f : PartUpload)
      → 0 < max_concurrent
      → poll_completed svc (suc fuel) max_concurrent id (alone (some id) done (f ∷ [])) ≡ (
          upload_part_with_retry svc id f >>= λ part. pure (alone (some id) (done ++ part ∷ []) []))
  unfolding poll_completed next_future part_done pop ◌>>=◌ pure
  poll_one fuel max_concurrent id done f h =
      fun_ext λ s. rw (take_only (svc.pick s (f ∷ [])) f, ltb-true 0 max_concurrent h)

  pub take_part-alone :
      (max_concurrent n : ℕ) (bytes : List ℕ) (upload_id : Option (List ℕ))
      (done : List (ℕ × CompletedPart))
      → 0 < max_concurrent
      → take_part svc max_concurrent n bytes (alone upload_id done []) ≡ (
          ensure_upload svc upload_id >>= λ id. upload_part_with_retry svc id (n, bytes) >>= λ part.
          pure (alone (some id) (done ++ part ∷ []) []))
  unfolding take_part
  take_part-alone max_concurrent n bytes upload_id done h =
      ap (λ f. ensure_upload svc upload_id >>= f)
        (fun_ext
          λ id. rw (ltb-true 0 max_concurrent h) (poll_one 1 max_concurrent id done (n, bytes) h))

module _ {S A B C : Type 0} where
  continue_assoc :
      (r : Result A) (f : A → Exec S B) (g : B → Exec S C) (s : S)
      → continue (continue r f s).0 g (continue r f s).1 ≡ continue r (λ a. f a >>= g) s
  unfolding ◌>>=◌
  continue_assoc (ok a) f g s = refl
  continue_assoc (err e) f g s = refl
  continue_assoc panic f g s = refl

  bind_assoc :
      (m : Exec S A) (f : A → Exec S B) (g : B → Exec S C) → (m >>= f) >>= g ≡ m >>= λ a. f a >>= g
  unfolding ◌>>=◌
  bind_assoc m f g = fun_ext λ s. continue_assoc (m s).0 f g (m s).1

module _ {S A B : Type 0} where
  bind_same : (m : Exec S A) (f g : A → Exec S B) → ((a : A) → f a ≡ g a) → m >>= f ≡ m >>= g
  bind_same m f g h = ap (λ k. m >>= k) (fun_ext h)

  pure_bind : (a : A) (f : A → Exec S B) → pure a >>= f ≡ f a
  unfolding ◌>>=◌ pure
  pure_bind a f = refl

module _ (svc : S3Service) where
  -- The reference: one upload after the other.
  unfoldable pub finish_in_turn :
      Option (List ℕ) → Option (List ℕ) → List (ℕ × CompletedPart) → Exec svc.State (Unit {0})
  finish_in_turn none upload_id done = complete_upload svc (alone upload_id done [])
  finish_in_turn (some []) upload_id done = complete_upload svc (alone upload_id done [])
  finish_in_turn (some (b ∷ bs)) upload_id done = do
    id ← ensure_upload svc upload_id
    part ← upload_part_with_retry svc id (length done + 1, b ∷ bs)
    complete_upload svc (alone (some id) (done ++ part ∷ []) [])

  unfoldable pub upload_in_turn :
      Option (List ℕ) → List (ℕ × CompletedPart) → List UploadCommand → Exec svc.State (Unit {0})
  unfolding finish_in_turn
  upload_in_turn upload_id done [] = pure tt
  upload_in_turn upload_id done (upload_part n bytes ∷ cs) = do
    id ← ensure_upload svc upload_id
    part ← upload_part_with_retry svc id (n, bytes)
    upload_in_turn (some id) (done ++ part ∷ []) cs
  upload_in_turn upload_id done (complete final ∷ cs) = finish_in_turn final upload_id done

  finish_none :
      (fuel : ℕ) (id : List ℕ) (upload_id : Option (List ℕ)) (done : List (ℕ × CompletedPart))
      → finish_uploads svc (suc fuel) id (alone upload_id done []) ≡ pure (alone upload_id done [])
  unfolding finish_uploads next_future take_future ◌>>=◌ pure
  finish_none fuel id upload_id done = refl

  finish_one :
      (id : List ℕ) (done : List (ℕ × CompletedPart)) (f : PartUpload)
      → finish_uploads svc 2 id (alone (some id) done (f ∷ [])) ≡ (
          upload_part_with_retry svc id f >>= λ part. pure (alone (some id) (done ++ part ∷ []) []))
  unfolding finish_uploads next_future take_future ◌>>=◌ pure
  finish_one id done f = fun_ext λ s. rw (take_only svc (svc.pick s (f ∷ [])) f)

  number : (done : List (ℕ × CompletedPart)) → length done + 0 + 0 + 1 ≡ length done + 1
  number done = omega arith

  complete_in_turn :
      (final upload_id : Option (List ℕ)) (done : List (ℕ × CompletedPart))
      → take_complete svc final (alone upload_id done []) ≡ finish_in_turn final upload_id done
  unfolding take_complete take_final finish_in_turn id_or_empty
  complete_in_turn none upload_id done =
      pure_bind _ _
      ∙ ap (λ m. m >>= complete_upload svc) (finish_none 0 _ upload_id done)
      ∙ pure_bind _ _
  complete_in_turn (some []) upload_id done =
      pure_bind _ _
      ∙ ap (λ m. m >>= complete_upload svc) (finish_none 0 _ upload_id done)
      ∙ pure_bind _ _
  complete_in_turn (some (b ∷ bs)) upload_id done =
      bind_assoc _ _ _
      ∙ bind_same _ _ _ (λ id.
        pure_bind _ _
        ∙ ap
            (λ (n : ℕ).
              finish_uploads svc 2 id (alone (some id) done ((n, b ∷ bs) ∷ []))
              >>= complete_upload svc)
            (number done)
        ∙ ap (λ m. m >>= complete_upload svc) (finish_one id done (length done + 1, b ∷ bs))
        ∙ bind_assoc _ _ _
        ∙ bind_same _ _ _ (λ part. pure_bind _ _))

  in_turn :
      (max_concurrent : ℕ) (upload_id : Option (List ℕ)) (done : List (ℕ × CompletedPart))
      (cs : List UploadCommand)
      → 0 < max_concurrent
      → upload_worker_concurrent svc max_concurrent (alone upload_id done []) cs
        ≡ upload_in_turn upload_id done cs
  unfolding upload_worker_concurrent upload_in_turn
  in_turn max_concurrent upload_id done [] h = refl
  in_turn max_concurrent upload_id done (upload_part n bytes ∷ cs) h =
      ap (λ m. m >>= λ u. upload_worker_concurrent svc max_concurrent u cs)
        (take_part-alone svc max_concurrent n bytes upload_id done h)
      ∙ bind_assoc _ _ _
      ∙ bind_same _ _ _ (λ id.
        bind_assoc _ _ _
        ∙ bind_same _ _ _
            (λ part. pure_bind _ _ ∙ in_turn max_concurrent (some id) (done ++ part ∷ []) cs h))
  in_turn max_concurrent upload_id done (complete final ∷ cs) h =
      complete_in_turn final upload_id done

-- Whatever `max_concurrent` is, the concurrent worker does what a worker does that uploads one part
-- after the other: for every service and every run of commands, its calls, its result and the state
-- that it leaves are the same.
pub upload_worker_concurrent-in_turn :
    (svc : S3Service) (max_concurrent : ℕ) (cs : List UploadCommand)
    → 0 < max_concurrent
    → upload_worker_concurrent svc max_concurrent no_uploads cs ≡ upload_in_turn svc none [] cs
upload_worker_concurrent-in_turn svc max_concurrent cs h = in_turn svc max_concurrent none [] cs h
