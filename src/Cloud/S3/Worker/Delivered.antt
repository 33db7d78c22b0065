-- ===== src/Cloud/S3/Worker/Delivered.antt =====
-- src/cloud/s3.rs: what the object is once the worker has ended well.
use mathlib.Core.Path.{subst}
use s_zip.Common.{
  ℕ, suc, ◌+◌, ◌^◌, ◌<◌, ◌≡◌, inl, inr, refl, sym, ap, ◌∙◌, List, [], ◌∷◌, ◌++◌, Option, none, some,
  arith, length, flatten, flatten-append, map, append-nil, append_assoc, length-append, Bool-cases,
}
use s_zip.Outcome.{ok, err, ok_inj, io, upload_not_completed}
use s_zip.Cloud.S3.Writer.{UploadCommand, upload_part, complete}
use s_zip.Cloud.S3.Worker.{
  S3Service, CompletedPart, ensure_upload, upload_part_with_retry, complete_upload, sort_parts_from,
  no_uploads, upload_worker_concurrent, max_retries,
}
use s_zip.Cloud.S3.Worker.OneAtATime.{
  alone, finish_in_turn, upload_in_turn, upload_worker_concurrent-in_turn,
}
use s_zip.Cloud.S3.Worker.Held.{MultipartLaws, bind-eq-ok, Done, attempt-Uploaded, sorted-HeldParts}

-- The commands of a writer: parts numbered from `k` on, and the completion.
abbrev pub commands : ℕ → List (List ℕ) → Option (List ℕ) → List UploadCommand
commands k [] final = complete final ∷ []
commands k (d ∷ ds) final = upload_part k d ∷ commands (suc k) ds final

abbrev pub final_bytes : Option (List ℕ) → List ℕ
final_bytes none = []
final_bytes (some bytes) = bytes

module _ (svc : S3Service) (laws : MultipartLaws svc) where
  -- Before the first part there is no upload.
  abbrev pub Standing :
      svc.State → Option (List ℕ) → List (ℕ × CompletedPart) → List (List ℕ) → Type 0
  Standing s none done old = (done ≡ []) × (old ≡ [])
  Standing s (some id) done old = Done svc laws s id 1 done old

  pub ensure-Done :
      (upload_id : Option (List ℕ)) (s : svc.State) (done : List (ℕ × CompletedPart))
      (old : List (List ℕ)) (id : List ℕ)
      → Standing s upload_id done old
      → (ensure_upload svc upload_id s).0 ≡ ok id
      → Done svc laws (ensure_upload svc upload_id s).1 id 1 done old
  unfolding ensure_upload
  ensure-Done none s done old id standing e = rw (standing.0, standing.1) tt
  ensure-Done (some id') s done old id standing e =
      subst (λ (i : List ℕ). Done svc laws s i 1 done old) (ok_inj e) standing

  pub part-Done :
      (id : List ℕ) (n : ℕ) (bytes : List ℕ) (s : svc.State) (done : List (ℕ × CompletedPart))
      (old : List (List ℕ)) (p : ℕ × CompletedPart)
      → n < 2 ^ 31
      → n ≡ 1 + length done
      → Done svc laws s id 1 done old
      → (upload_part_with_retry svc id (n, bytes) s).0 ≡ ok p
      → Done svc laws
          (upload_part_with_retry svc id (n, bytes) s).1
          id
          1
          (done ++ p ∷ [])
          (old ++ bytes ∷ [])
  unfolding upload_part_with_retry
  part-Done id n bytes s done old p small number held e =
      attempt-Uploaded svc laws max_retries id n bytes s done old small number held p e

  complete_upload-object :
      (id : List ℕ) (s s2 : svc.State) (done : List (ℕ × CompletedPart)) (old : List (List ℕ))
      → Done svc laws s id 1 done old
      → complete_upload svc (alone (some id) done []) s ≡ (ok tt, s2)
      → laws.object s2 ≡ some (flatten old)
  unfolding complete_upload
  complete_upload-object id s s2 done old held h =
      let parts = map (λ p. p.1) (sort_parts_from [] done) in
      elim (Bool-cases (svc.complete_multipart_upload id parts s).0) [
        | inl e ↦
            let closed : complete_upload svc (alone (some id) done []) s
                ≡ (ok tt, (svc.complete_multipart_upload id parts s).1) =
              rw (e, complete_upload) in
            rw (ap (λ t. t.1) (sym h ∙ closed)) (
              laws.object-complete_multipart_upload id parts old s
                (sorted-HeldParts svc laws s id done old held) e)
        | inr e ↦
            let refused : (complete_upload svc (alone (some id) done []) s).0
                ≡ err (io upload_not_completed) =
              rw (e, complete_upload) in
            absurd (cc (refused, ap (λ t. t.0) h))
      ]

  finish_in_turn-object :
      (final upload_id : Option (List ℕ)) (s s2 : svc.State) (done : List (ℕ × CompletedPart))
      (old : List (List ℕ))
      → 1 + length done < 2 ^ 31
      → Standing s upload_id done old
      → (upload_id ≡ none → final_bytes final ≡ [] → ⊥)
      → finish_in_turn svc final upload_id done s ≡ (ok tt, s2)
      → laws.object s2 ≡ some (flatten old ++ final_bytes final)
  unfolding finish_in_turn
  finish_in_turn-object none none s s2 done old small standing some_part h =
      absurd (some_part refl refl)
  finish_in_turn-object (some []) none s s2 done old small standing some_part h =
      absurd (some_part refl refl)
  finish_in_turn-object none (some id) s s2 done old small standing some_part h =
      complete_upload-object id s s2 done old standing h ∙ ap some (sym (append-nil (flatten old)))
  finish_in_turn-object (some []) (some id) s s2 done old small standing some_part h =
      complete_upload-object id s s2 done old standing h ∙ ap some (sym (append-nil (flatten old)))
  finish_in_turn-object (some (b ∷ bs)) upload_id s s2 done old small standing some_part h =
      let (id, e, h1) = bind-eq-ok (ensure_upload svc upload_id) _ s h in
      let (p, e1, h2) =
        bind-eq-ok (upload_part_with_retry svc id (length done + 1, b ∷ bs)) _ _ h1 in
      complete_upload-object id _ s2 (done ++ p ∷ []) (old ++ (b ∷ bs) ∷ [])
        (part-Done id (length done + 1) (b ∷ bs) _ done old p (omega arith) (omega arith)
          (ensure-Done upload_id s done old id standing e) e1)
        h2
      ∙ ap some (
          flatten-append old ((b ∷ bs) ∷ [])
          ∙ ap (λ (t : List ℕ). flatten old ++ t) (append-nil (b ∷ bs)))

  upload_in_turn-object :
      (ds : List (List ℕ)) (final upload_id : Option (List ℕ)) (s s2 : svc.State)
      (done : List (ℕ × CompletedPart)) (old : List (List ℕ)) (k : ℕ)
      → k ≡ 1 + length done
      → k + length ds < 2 ^ 31
      → Standing s upload_id done old
      → (upload_id ≡ none → flatten ds ++ final_bytes final ≡ [] → ⊥)
      → upload_in_turn svc upload_id done (commands k ds final) s ≡ (ok tt, s2)
      → laws.object s2 ≡ some (flatten old ++ (flatten ds ++ final_bytes final))
  unfolding upload_in_turn
  upload_in_turn-object [] final upload_id s s2 done old k number small standing some_part h =
      finish_in_turn-object final upload_id s s2 done old (omega arith) standing some_part h
  upload_in_turn-object (d ∷ ds) final upload_id s s2 done old k number small standing some_part h =
      let (id, e, h1) = bind-eq-ok (ensure_upload svc upload_id) _ s h in
      let (p, e1, h2) = bind-eq-ok (upload_part_with_retry svc id (k, d)) _ _ h1 in
      upload_in_turn-object ds final (some id) _ s2 (done ++ p ∷ []) (old ++ d ∷ []) (suc k)
        (omega (arith, length-append done (p ∷ []))) (omega arith)
        (part-Done id k d _ done old p (omega arith) number
          (ensure-Done upload_id s done old id standing e) e1)
        (λ no. absurd (cc no)) h2
      ∙ ap some (
          ap (λ (t : List ℕ). t ++ (flatten ds ++ final_bytes final))
            (flatten-append old (d ∷ []) ∙ ap (λ (t : List ℕ). flatten old ++ t) (append-nil d))
          ∙ append_assoc (flatten old) d (flatten ds ++ final_bytes final)
          ∙ ap (λ (t : List ℕ). flatten old ++ t)
              (sym (append_assoc d (flatten ds) (final_bytes final))))

-- Where the worker ends well on the commands of a writer, the object that the service then has is the
-- bytes of the parts and of the last data in order, whatever number of uploads it may make at once and
-- however many of them it had to repeat.
pub upload_worker_concurrent-object :
    (svc : S3Service) (laws : MultipartLaws svc) (max_concurrent : ℕ) (ds : List (List ℕ))
    (final : Option (List ℕ)) (s s2 : svc.State)
    → 0 < max_concurrent
    → 1 + length ds < 2 ^ 31
    → 0 < length (flatten ds ++ final_bytes final)
    → upload_worker_concurrent svc max_concurrent no_uploads (commands 1 ds final) s ≡ (ok tt, s2)
    → laws.object s2 ≡ some (flatten ds ++ final_bytes final)
upload_worker_concurrent-object svc laws max_concurrent ds final s s2 h small some_bytes e =
    upload_in_turn-object svc laws ds final none s s2 [] [] 1 refl small (refl, refl)
      (λ _ none_left. absurd (omega (arith, ap length none_left)))
      (ap (λ m. m s)
          (sym (upload_worker_concurrent-in_turn svc max_concurrent (commands 1 ds final) h))
        ∙ e)
