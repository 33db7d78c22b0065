-- ===== src/Cloud/S3/Worker/Retries.antt =====
-- src/cloud/s3.rs: the worker ends well where no request fails more than three times in a row.
use s_zip.Common.{
  ℕ, zero, suc, ◌+◌, ◌*◌, ◌-◌, ◌^◌, ◌<◌, ◌≡◌, ◌⊎◌, inl, inr, refl, ap, ◌∙◌, true, List, [], ◌∷◌,
  ◌++◌, Option, none, some, length, map, All, arith, length-append, ◌≤◌,
}
use s_zip.Outcome.{ok}
use s_zip.Sink.{Exec, ◌>>=◌}
use s_zip.Cloud.S3.Worker.{
  S3Service, CompletedPart, as_i32, max_retries, base_delay_ms, ensure_upload, upload_attempt,
  upload_part_with_retry, complete_upload, sort_parts_from, no_uploads, upload_worker_concurrent,
}
use s_zip.Cloud.S3.Worker.OneAtATime.{
  alone, finish_in_turn, upload_in_turn, upload_worker_concurrent-in_turn,
}
use s_zip.Cloud.S3.Worker.Held.{HeldParts, MultipartLaws, Done, sorted-HeldParts}
use s_zip.Cloud.S3.Worker.Delivered.{commands, final_bytes, Standing, ensure-Done, part-Done}

-- The service takes a part, after so many failures at most.
abbrev pub TakesWithin : (svc : S3Service) → ℕ → List ℕ → ℕ → List ℕ → svc.State → Type 0
TakesWithin svc zero id n bytes s =
    (etag : List ℕ) × ((svc.put_part id n bytes s).0 ≡ some (some etag))
TakesWithin svc (suc failures) id n bytes s =
    ((etag : List ℕ) × ((svc.put_part id n bytes s).0 ≡ some (some etag)))
    ⊎ (((svc.put_part id n bytes s).0 ≡ none)
        × ((ms : ℕ)
            → TakesWithin svc failures id n bytes (svc.sleep ms (svc.put_part id n bytes s).1)))

-- Every part but the last has so many bytes at least.
abbrev pub AllButLast : ℕ → List (List ℕ) → Type 0
AllButLast least [] = Unit {0}
AllButLast least (d ∷ []) = Unit {0}
AllButLast least (d ∷ e ∷ es) = (least ≤ length d) × AllButLast least (e ∷ es)

-- A service that answers within its limits: it makes uploads, takes a part under a number from 1 to
-- 10,000 whose size it allows, and completes an upload whose list names the parts that it holds, in
-- ascending order, none but the last too small. On S3 a part has 5 MiB to 5 GiB.
pub record IsResponsive (svc : S3Service) (laws : MultipartLaws svc) : Type 0 where
  pub least : ℕ
  pub largest : ℕ
  pub creates :
      (s : svc.State) → (id : List ℕ) × ((svc.create_multipart_upload s).0 ≡ some (some id))
  pub takes :
      (id : List ℕ) (n : ℕ) (bytes : List ℕ) (s : svc.State)
      → 0 < n
      → n ≤ 10_000
      → length bytes ≤ largest
      → TakesWithin svc max_retries id n bytes s
  pub completes :
      (id : List ℕ) (parts : List CompletedPart) (ds : List (List ℕ)) (s : svc.State)
      → HeldParts (laws.part s id) 1 parts ds
      → 0 < length ds
      → length ds ≤ 10_000
      → AllButLast least ds
      → (svc.complete_multipart_upload id parts s).0 ≡ true

module _ {S A B : Type 0} where
  -- An action ends well where its first part does and the second does behind it.
  bind_ends :
      (m : Exec S A) (f : A → Exec S B) (s : S) (a : A) {b : B}
      → (m s).0 ≡ ok a
      → (f a (m s).1).0 ≡ ok b
      → ((m >>= f) s).0 ≡ ok b
  unfolding ◌>>=◌
  bind_ends m f s a e h = rw e h

module _ (least : ℕ) where
  abbrev IsFull : List ℕ → Type 0
  IsFull d = least ≤ length d

  AllButLast-full : (ds : List (List ℕ)) → All IsFull ds → AllButLast least ds
  AllButLast-full [] h = tt
  AllButLast-full (d ∷ []) h = tt
  AllButLast-full (d ∷ e ∷ es) h = (h.0, AllButLast-full (e ∷ es) h.1)

  AllButLast-append :
      (ds : List (List ℕ)) (x : List ℕ) → All IsFull ds → AllButLast least (ds ++ x ∷ [])
  AllButLast-append [] x h = tt
  AllButLast-append (d ∷ []) x h = (h.0, tt)
  AllButLast-append (d ∷ e ∷ es) x h = (h.0, AllButLast-append (e ∷ es) x h.1)

  All-append_one :
      (ds : List (List ℕ)) (x : List ℕ) → All IsFull ds → IsFull x → All IsFull (ds ++ x ∷ [])
  All-append_one [] x h full = (full, tt)
  All-append_one (d ∷ ds) x h full = (h.0, All-append_one ds x h.1 full)

Done-length :
    (svc : S3Service) (laws : MultipartLaws svc) (s : svc.State) (id : List ℕ) (k : ℕ)
    (ps : List (ℕ × CompletedPart)) (ds : List (List ℕ))
    → Done svc laws s id k ps ds
    → length ps ≡ length ds
Done-length svc laws s id k [] [] h = refl
Done-length svc laws s id k [] (d ∷ ds) h = absurd h
Done-length svc laws s id k (p ∷ ps) [] h = absurd h
Done-length svc laws s id k (p ∷ ps) (d ∷ ds) (_, _, _, rest) =
    omega (arith, Done-length svc laws s id (suc k) ps ds rest)

module _ (svc : S3Service) (laws : MultipartLaws svc) (live : IsResponsive svc laws) where
  ensure_ends :
      (upload_id : Option (List ℕ)) (s : svc.State)
      → (id : List ℕ) × ((ensure_upload svc upload_id s).0 ≡ ok id)
  unfolding ensure_upload
  ensure_ends none s = let (id, e) = live.creates s in (id, rw (e, ensure_upload))
  ensure_ends (some id) s = (id, refl)

  attempt_ends :
      (left : ℕ) (id : List ℕ) (n : ℕ) (bytes : List ℕ) (s : svc.State)
      → TakesWithin svc left id (as_i32 n) bytes s
      → (p : ℕ × CompletedPart) × ((upload_attempt svc left id n bytes s).0 ≡ ok p)
  unfolding upload_attempt
  attempt_ends zero id n bytes s (etag, e) = ((n, (as_i32 n, etag)), rw (e, upload_attempt))
  attempt_ends (suc left) id n bytes s (inl (etag, e)) =
      ((n, (as_i32 n, etag)), rw (e, upload_attempt))
  attempt_ends (suc left) id n bytes s (inr (e, later)) =
      let ms : ℕ = base_delay_ms * 2 ^ (max_retries - left - 1) in
      let s1 = svc.sleep ms (svc.put_part id (as_i32 n) bytes s).1 in
      let (p, h) = attempt_ends left id n bytes s1 (later ms) in (p, rw (e, upload_attempt) h)

  upload_ends :
      (id : List ℕ) (n : ℕ) (bytes : List ℕ) (s : svc.State)
      → 0 < n
      → n ≤ 10_000
      → length bytes ≤ live.largest
      → (p : ℕ × CompletedPart) × ((upload_part_with_retry svc id (n, bytes) s).0 ≡ ok p)
  unfolding upload_part_with_retry
  upload_ends id n bytes s some_number few fits =
      attempt_ends max_retries id n bytes s
        (live.takes id (as_i32 n) bytes s (omega arith) (omega arith) fits)

  complete_ends :
      (id : List ℕ) (s : svc.State) (done : List (ℕ × CompletedPart)) (old : List (List ℕ))
      → Done svc laws s id 1 done old
      → 0 < length done
      → length done ≤ 10_000
      → AllButLast live.least old
      → (complete_upload svc (alone (some id) done []) s).0 ≡ ok tt
  unfolding complete_upload
  complete_ends id s done old held some_part few sizes =
      let same = Done-length svc laws s id 1 done old held in
      rw (
        live.completes id (map (λ p. p.1) (sort_parts_from [] done)) old s
            (sorted-HeldParts svc laws s id done old held) (omega (arith, same))
            (omega (arith, same)) sizes,
        complete_upload,
      )

  -- Nothing was uploaded, or a part was.
  abbrev Begun : Option (List ℕ) → List (ℕ × CompletedPart) → Type 0
  Begun none done = Unit {0}
  Begun (some id) done = 0 < length done

  complete_none :
      (upload_id : Option (List ℕ)) (s : svc.State) (done : List (ℕ × CompletedPart))
      (old : List (List ℕ))
      → Standing svc laws s upload_id done old
      → Begun upload_id done
      → length done ≤ 10_000
      → All (IsFull live.least) old
      → (complete_upload svc (alone upload_id done []) s).0 ≡ ok tt
  unfolding complete_upload
  complete_none none s done old standing begun few full = refl
  complete_none (some id) s done old standing begun few full =
      complete_ends id s done old standing begun few (AllButLast-full live.least old full)

  finish_ends :
      (final upload_id : Option (List ℕ)) (s : svc.State) (done : List (ℕ × CompletedPart))
      (old : List (List ℕ))
      → Standing svc laws s upload_id done old
      → Begun upload_id done
      → length done < 10_000
      → All (IsFull live.least) old
      → length (final_bytes final) ≤ live.largest
      → (finish_in_turn svc final upload_id done s).0 ≡ ok tt
  unfolding finish_in_turn
  finish_ends none upload_id s done old standing begun few full fits =
      complete_none upload_id s done old standing begun (omega arith) full
  finish_ends (some []) upload_id s done old standing begun few full fits =
      complete_none upload_id s done old standing begun (omega arith) full
  finish_ends (some (b ∷ bs)) upload_id s done old standing begun few full fits =
      let (id, e) = ensure_ends upload_id s in
      let s1 = (ensure_upload svc upload_id s).1 in
      let n = length done + 1 in
      let (p, e1) = upload_ends id n (b ∷ bs) s1 (omega arith) (omega arith) fits in
      let more = length-append done (p ∷ []) in
      bind_ends _ _ s id e (
        bind_ends _ _ s1 p e1 (
          complete_ends id _ (done ++ p ∷ []) (old ++ (b ∷ bs) ∷ [])
            (part-Done svc laws id n (b ∷ bs) s1 done old p (omega arith) (omega arith)
              (ensure-Done svc laws upload_id s done old id standing e) e1)
            (omega (arith, more)) (omega (arith, more))
            (AllButLast-append live.least old (b ∷ bs) full)))

  -- A part that the service takes, wherever it stands.
  abbrev pub IsAllowed : List ℕ → Type 0
  IsAllowed d = (live.least ≤ length d) × (length d ≤ live.largest)

  pub in_turn_ends :
      (k : ℕ) (ds : List (List ℕ)) (final upload_id : Option (List ℕ)) (s : svc.State)
      (done : List (ℕ × CompletedPart)) (old : List (List ℕ))
      → k ≡ 1 + length done
      → k + length ds ≤ 10_000
      → Standing svc laws s upload_id done old
      → Begun upload_id done
      → All (IsFull live.least) old
      → All IsAllowed ds
      → length (final_bytes final) ≤ live.largest
      → (upload_in_turn svc upload_id done (commands k ds final) s).0 ≡ ok tt
  unfolding upload_in_turn
  in_turn_ends k [] final upload_id s done old number few standing begun full allowed fits =
      finish_ends final upload_id s done old standing begun (omega arith) full fits
  in_turn_ends k (d ∷ ds) final upload_id s done old number few standing begun full allowed fits =
      let (id, e) = ensure_ends upload_id s in
      let s1 = (ensure_upload svc upload_id s).1 in
      let (p, e1) = upload_ends id k d s1 (omega arith) (omega arith) allowed.0.1 in
      let more = length-append done (p ∷ []) in
      bind_ends _ _ s id e (
        bind_ends _ _ s1 p e1 (
          in_turn_ends (suc k) ds final (some id) _ (done ++ p ∷ []) (old ++ d ∷ [])
            (omega (arith, more)) (omega arith)
            (part-Done svc laws id k d s1 done old p (omega arith) number
              (ensure-Done svc laws upload_id s done old id standing e) e1)
            (omega (arith, more)) (All-append_one live.least old d full allowed.0.0) allowed.1
            fits))

pub upload_worker_concurrent-ends :
    (svc : S3Service) (laws : MultipartLaws svc) (live : IsResponsive svc laws) (max_concurrent : ℕ)
    (ds : List (List ℕ)) (final : Option (List ℕ)) (s : svc.State)
    → 0 < max_concurrent
    → length ds < 10_000
    → All (IsAllowed svc laws live) ds
    → length (final_bytes final) ≤ live.largest
    → (upload_worker_concurrent svc max_concurrent no_uploads (commands 1 ds final) s).0 ≡ ok tt
upload_worker_concurrent-ends svc laws live max_concurrent ds final s h few allowed fits =
    ap (λ m. (m s).0) (upload_worker_concurrent-in_turn svc max_concurrent (commands 1 ds final) h)
    ∙ in_turn_ends svc laws live 1 ds final none s [] [] refl (omega arith) (refl, refl) tt tt
        allowed fits
