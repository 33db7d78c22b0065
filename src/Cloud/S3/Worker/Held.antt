-- ===== src/Cloud/S3/Worker/Held.antt =====
-- src/cloud/s3.rs: what the service holds after the uploads of the worker.
use s_zip.Common.{
  ℕ, zero, suc, ◌+◌, ◌-◌, ◌*◌, ◌^◌, ◌≤◌, ◌<◌, ◌≡◌, ◌≢◌, refl, sym, ap, ◌∙◌, true, List, [], ◌∷◌,
  ◌++◌, Option, none, some, All, arith, append-nil, append_assoc, length, flatten, map, ltb-false,
}
use s_zip.Outcome.{Result, ok, err, panic, ok_inj, io, no_etag, part_not_uploaded}
use s_zip.Sink.{Exec, continue, ◌>>=◌}
use s_zip.Cloud.S3.Worker.{
  S3Service, CompletedPart, as_i32, upload_attempt, insert_part, sort_parts_from, max_retries,
  base_delay_ms,
}

-- The parts of a completed upload, numbered from `k` on, with the data that the service holds for them.
abbrev pub HeldParts :
    (ℕ → List ℕ → Option (List ℕ)) → ℕ → List CompletedPart → List (List ℕ) → Type 0
HeldParts part k [] [] = Unit {0}
HeldParts part k [] (d ∷ ds) = ⊥
HeldParts part k (p ∷ ps) [] = ⊥
HeldParts part k (p ∷ ps) (d ∷ ds) =
    (p.0 ≡ k) × (part k p.1 ≡ some d) × HeldParts part (suc k) ps ds

-- Multipart uploads as they are documented: a part that is accepted is held under its number and its
-- tag, other parts and the time that passes do not touch it, and a completed upload makes the object of
-- the parts in order.
pub record MultipartLaws (svc : S3Service) : Type 0 where
  pub part : svc.State → List ℕ → ℕ → List ℕ → Option (List ℕ)
  pub object : svc.State → Option (List ℕ)
  pub part-put_part :
      (id : List ℕ) (n : ℕ) (bytes : List ℕ) (s : svc.State) (etag : List ℕ)
      → (svc.put_part id n bytes s).0 ≡ some (some etag)
      → part (svc.put_part id n bytes s).1 id n etag ≡ some bytes
  pub part-put_part_other :
      (id : List ℕ) (n : ℕ) (bytes : List ℕ) (s : svc.State) (m : ℕ) (etag held : List ℕ)
      → m ≢ n
      → part s id m etag ≡ some held
      → part (svc.put_part id n bytes s).1 id m etag ≡ some held
  pub part-sleep :
      (ms : ℕ) (s : svc.State) (id : List ℕ) (m : ℕ) (etag held : List ℕ)
      → part s id m etag ≡ some held
      → part (svc.sleep ms s) id m etag ≡ some held
  pub object-complete_multipart_upload :
      (id : List ℕ) (parts : List CompletedPart) (ds : List (List ℕ)) (s : svc.State)
      → HeldParts (part s id) 1 parts ds
      → (svc.complete_multipart_upload id parts s).0 ≡ true
      → object (svc.complete_multipart_upload id parts s).1 ≡ some (flatten ds)

data ReplyCases (r : Option (Option (List ℕ))) : Type 0 where
  none_came : r ≡ none → ReplyCases r
  no_tag : r ≡ some none → ReplyCases r
  tagged : (etag : List ℕ) → r ≡ some (some etag) → ReplyCases r

reply_cases : (r : Option (Option (List ℕ))) → ReplyCases r
reply_cases none = none_came refl
reply_cases (some none) = no_tag refl
reply_cases (some (some etag)) = tagged etag refl

-- An action that ends well has ended well in both of its parts.
module _ {S A B : Type 0} where
  continue_ok :
      (r : Result A) (f : A → Exec S B) (s1 : S) {b : B} {s2 : S}
      → continue r f s1 ≡ (ok b, s2)
      → (a : A) × (r ≡ ok a) × (f a s1 ≡ (ok b, s2))
  continue_ok (ok a) f s1 h = (a, refl, h)
  continue_ok (err e) f s1 h = absurd (cc (ap (λ p. p.0) h))
  continue_ok panic f s1 h = absurd (cc (ap (λ p. p.0) h))

  pub bind-eq-ok :
      (m : Exec S A) (f : A → Exec S B) (s : S) {b : B} {s2 : S}
      → (m >>= f) s ≡ (ok b, s2)
      → (a : A) × ((m s).0 ≡ ok a) × (f a (m s).1 ≡ (ok b, s2))
  unfolding ◌>>=◌
  bind-eq-ok m f s h = continue_ok (m s).0 f (m s).1 h

module _ (svc : S3Service) (laws : MultipartLaws svc) where
  -- The completed parts of the worker, numbered from `k` on.
  abbrev pub Done : svc.State → List ℕ → ℕ → List (ℕ × CompletedPart) → List (List ℕ) → Type 0
  Done s id k [] [] = Unit {0}
  Done s id k [] (d ∷ ds) = ⊥
  Done s id k (p ∷ ps) [] = ⊥
  Done s id k (p ∷ ps) (d ∷ ds) =
      (p.0 ≡ k) × (p.1.0 ≡ k) × (laws.part s id k p.1.1 ≡ some d) × Done s id (suc k) ps ds

  -- Whatever keeps the parts below a number keeps these.
  Done-keep :
      (s s' : svc.State) (id : List ℕ) (k n : ℕ) (ps : List (ℕ × CompletedPart))
      (ds : List (List ℕ))
      → ((m : ℕ) (etag held : List ℕ)
          → m < n
          → laws.part s id m etag ≡ some held
          → laws.part s' id m etag ≡ some held)
      → k + length ps ≤ n
      → Done s id k ps ds
      → Done s' id k ps ds
  Done-keep s s' id k n [] [] keep h done = tt
  Done-keep s s' id k n [] (d ∷ ds) keep h done = done
  Done-keep s s' id k n (p ∷ ps) [] keep h done = done
  Done-keep s s' id k n (p ∷ ps) (d ∷ ds) keep h (number, number', held, rest) = (
    number,
    number',
    keep k p.1.1 d (omega arith) held,
    Done-keep s s' id (suc k) n ps ds keep (omega arith) rest,
  )

  Done-put :
      (s : svc.State) (id : List ℕ) (n : ℕ) (bytes : List ℕ) (k : ℕ) (ps : List (ℕ × CompletedPart))
      (ds : List (List ℕ))
      → k + length ps ≤ n
      → Done s id k ps ds
      → Done (svc.put_part id n bytes s).1 id k ps ds
  Done-put s id n bytes k ps ds h done =
      Done-keep s _ id k n ps ds
        (λ m etag held lt e.
          laws.part-put_part_other id n bytes s m etag held (λ same. omega arith) e)
        h done

  Done-sleep :
      (ms : ℕ) (s : svc.State) (id : List ℕ) (k : ℕ) (ps : List (ℕ × CompletedPart))
      (ds : List (List ℕ))
      → Done s id k ps ds
      → Done (svc.sleep ms s) id k ps ds
  Done-sleep ms s id k ps ds done =
      Done-keep s _ id k (k + length ps) ps ds
        (λ m etag held lt e. laws.part-sleep ms s id m etag held e) (omega arith) done

  Done-append :
      (s : svc.State) (id : List ℕ) (k : ℕ) (ps : List (ℕ × CompletedPart)) (ds : List (List ℕ))
      (n : ℕ) (etag bytes : List ℕ)
      → n ≡ k + length ps
      → laws.part s id n etag ≡ some bytes
      → Done s id k ps ds
      → Done s id k (ps ++ (n, (n, etag)) ∷ []) (ds ++ bytes ∷ [])
  Done-append s id k [] [] n etag bytes number held done =
      let same : n ≡ k = omega arith in
      (same, same, ap (λ (m : ℕ). laws.part s id m etag) (sym same) ∙ held, tt)
  Done-append s id k [] (d ∷ ds) n etag bytes number held done = absurd done
  Done-append s id k (p ∷ ps) [] n etag bytes number held done = absurd done
  Done-append s id k (p ∷ ps) (d ∷ ds) n etag bytes number held (a, b, c, rest) =
      (a, b, c, Done-append s id (suc k) ps ds n etag bytes (omega arith) held rest)

  -- The rounds of the loop, by what the service answers.
  module _ (id : List ℕ) (n : ℕ) (bytes : List ℕ) (s : svc.State) (small : n < 2 ^ 31) where
    abbrev after_put : svc.State
    after_put = (svc.put_part id n bytes s).1

    wraps : as_i32 n ≡ n
    wraps = omega arith

    answered :
        (etag : List ℕ)
        → ◌≡◌ {A = Result (ℕ × CompletedPart) × svc.State}
            (ok (n, (as_i32 n, etag)), (svc.put_part id (as_i32 n) bytes s).1)
            (ok (n, (n, etag)), after_put)
    answered etag =
        ap {B = Result (ℕ × CompletedPart) × svc.State}
          (λ (k : ℕ). (ok (n, (k, etag)), (svc.put_part id k bytes s).1)) wraps

    attempt_tagged :
        (left : ℕ) (etag : List ℕ)
        → (svc.put_part id n bytes s).0 ≡ some (some etag)
        → upload_attempt svc left id n bytes s ≡ (ok (n, (n, etag)), after_put)
    unfolding upload_attempt
    attempt_tagged zero etag e = rw (wraps, e, upload_attempt) (answered etag)
    attempt_tagged (suc left) etag e = rw (wraps, e, upload_attempt) (answered etag)

    attempt_no_tag :
        (left : ℕ)
        → (svc.put_part id n bytes s).0 ≡ some none
        → (upload_attempt svc left id n bytes s).0 ≡ err (io (no_etag n))
    unfolding upload_attempt
    attempt_no_tag zero e = rw (wraps, e, upload_attempt)
    attempt_no_tag (suc left) e = rw (wraps, e, upload_attempt)

    attempt_last :
        (svc.put_part id n bytes s).0 ≡ none
        → (upload_attempt svc 0 id n bytes s).0 ≡ err (io (part_not_uploaded n))
    unfolding upload_attempt
    attempt_last e = rw (wraps, e, upload_attempt)

    attempt_again :
        (left : ℕ)
        → (svc.put_part id n bytes s).0 ≡ none
        → (ms : ℕ) × (upload_attempt svc (suc left) id n bytes s
            ≡ upload_attempt svc left id n bytes (svc.sleep ms after_put))
    unfolding upload_attempt
    attempt_again left e =
        let ms : ℕ = base_delay_ms * 2 ^ (max_retries - left - 1) in
        (
          ms,
          rw (wraps, e, upload_attempt)
              (ap
                (λ (k : ℕ).
                  upload_attempt svc left id n bytes (svc.sleep ms (svc.put_part id k bytes s).1))
                wraps),
        )

  -- What an upload of a part leaves, if it succeeds.
  abbrev pub Uploaded :
      Exec svc.State (ℕ × CompletedPart)
      → List ℕ
      → List ℕ
      → svc.State
      → List (ℕ × CompletedPart)
      → List (List ℕ)
      → Type 0
  Uploaded m id bytes s ps ds =
      (p : ℕ × CompletedPart) → (m s).0 ≡ ok p → Done (m s).1 id 1 (ps ++ p ∷ []) (ds ++ bytes ∷ [])

  tagged-Uploaded :
      (left : ℕ) (id : List ℕ) (n : ℕ) (bytes : List ℕ) (s : svc.State)
      (ps : List (ℕ × CompletedPart)) (ds : List (List ℕ)) (etag : List ℕ)
      → n < 2 ^ 31
      → n ≡ 1 + length ps
      → Done s id 1 ps ds
      → (svc.put_part id n bytes s).0 ≡ some (some etag)
      → Uploaded (upload_attempt svc left id n bytes) id bytes s ps ds
  tagged-Uploaded left id n bytes s ps ds etag small number done e p h =
      let upload = attempt_tagged id n bytes s small left etag e in
      let same : p ≡ (n, (n, etag)) = ok_inj (sym h ∙ ap (λ t. t.0) upload) in
      rw (upload, same)
        (Done-append (svc.put_part id n bytes s).1 id 1 ps ds n etag bytes number
          (laws.part-put_part id n bytes s etag e)
          (Done-put s id n bytes 1 ps ds (omega arith) done))

  -- One upload with its retries: the parts before it stay, and where it succeeds it stands behind them.
  pub attempt-Uploaded :
      (left : ℕ) (id : List ℕ) (n : ℕ) (bytes : List ℕ) (s : svc.State)
      (ps : List (ℕ × CompletedPart)) (ds : List (List ℕ))
      → n < 2 ^ 31
      → n ≡ 1 + length ps
      → Done s id 1 ps ds
      → Uploaded (upload_attempt svc left id n bytes) id bytes s ps ds
  attempt-Uploaded zero id n bytes s ps ds small number done p h =
      elim (reply_cases (svc.put_part id n bytes s).0) [
        | none_came e ↦ absurd (cc (h, attempt_last id n bytes s small e))
        | no_tag e ↦ absurd (cc (h, attempt_no_tag id n bytes s small 0 e))
        | tagged etag e ↦ tagged-Uploaded 0 id n bytes s ps ds etag small number done e p h
      ]
  attempt-Uploaded (suc left) id n bytes s ps ds small number done p h =
      elim (reply_cases (svc.put_part id n bytes s).0) [
        | none_came e ↦
            let (ms, same) = attempt_again id n bytes s small left e in
            let s1 = svc.sleep ms (svc.put_part id n bytes s).1 in
            rw same (
              attempt-Uploaded left id n bytes s1 ps ds small number
                (Done-sleep ms _ id 1 ps ds (Done-put s id n bytes 1 ps ds (omega arith) done)) p
                (sym (ap (λ t. t.0) same) ∙ h))
        | no_tag e ↦ absurd (cc (h, attempt_no_tag id n bytes s small (suc left) e))
        | tagged etag e ↦ tagged-Uploaded (suc left) id n bytes s ps ds etag small number done e p h
      ]

  -- The parts are in order already when they are sorted.
  insert_last :
      (acc : List (ℕ × CompletedPart)) (x : ℕ × CompletedPart)
      → All (λ (y : ℕ × CompletedPart). y.0 ≤ x.0) acc
      → insert_part x acc ≡ acc ++ x ∷ []
  unfolding insert_part
  insert_last [] x h = refl
  insert_last (y ∷ ys) x h =
      rw (ltb-false x.0 y.0 h.0)
        (ap (λ (l : List (ℕ × CompletedPart)). y ∷ l) (insert_last ys x h.1))

  All-below :
      (k : ℕ) (acc : List (ℕ × CompletedPart)) (x : ℕ × CompletedPart)
      → x.0 ≡ k
      → All (λ (y : ℕ × CompletedPart). y.0 < k) acc
      → All (λ (y : ℕ × CompletedPart). y.0 < suc k) (acc ++ x ∷ [])
  All-below k [] x e h = (omega arith, tt)
  All-below k (y ∷ ys) x e h = (omega (arith, h.0), All-below k ys x e h.1)

  All-weaken :
      (k : ℕ) (acc : List (ℕ × CompletedPart)) (x : ℕ × CompletedPart)
      → x.0 ≡ k
      → All (λ (y : ℕ × CompletedPart). y.0 < k) acc
      → All (λ (y : ℕ × CompletedPart). y.0 ≤ x.0) acc
  All-weaken k [] x e h = tt
  All-weaken k (y ∷ ys) x e h = (omega (arith, h.0), All-weaken k ys x e h.1)

  sort_from-Done :
      (s : svc.State) (id : List ℕ) (k : ℕ) (acc ps : List (ℕ × CompletedPart)) (ds : List (List ℕ))
      → All (λ (y : ℕ × CompletedPart). y.0 < k) acc
      → Done s id k ps ds
      → sort_parts_from acc ps ≡ acc ++ ps
  unfolding sort_parts_from
  sort_from-Done s id k acc [] ds below done = sym (append-nil acc)
  sort_from-Done s id k acc (p ∷ ps) [] below done = absurd done
  sort_from-Done s id k acc (p ∷ ps) (d ∷ ds) below (number, _, _, rest) =
      ap (λ (l : List (ℕ × CompletedPart)). sort_parts_from l ps)
        (insert_last acc p (All-weaken k acc p number below))
      ∙ sort_from-Done s id (suc k) (acc ++ p ∷ []) ps ds (All-below k acc p number below) rest
      ∙ append_assoc acc (p ∷ []) ps

  Done-held :
      (s : svc.State) (id : List ℕ) (k : ℕ) (ps : List (ℕ × CompletedPart)) (ds : List (List ℕ))
      → Done s id k ps ds
      → HeldParts (laws.part s id) k (map (λ p. p.1) ps) ds
  Done-held s id k [] [] done = tt
  Done-held s id k [] (d ∷ ds) done = done
  Done-held s id k (p ∷ ps) [] done = done
  Done-held s id k (p ∷ ps) (d ∷ ds) (_, number, held, rest) =
      (number, held, Done-held s id (suc k) ps ds rest)

  -- The sorted parts are those that the service holds, in order.
  pub sorted-HeldParts :
      (s : svc.State) (id : List ℕ) (ps : List (ℕ × CompletedPart)) (ds : List (List ℕ))
      → Done s id 1 ps ds
      → HeldParts (laws.part s id) 1 (map (λ p. p.1) (sort_parts_from [] ps)) ds
  sorted-HeldParts s id ps ds done =
      rw (sort_from-Done s id 1 [] ps ds tt done) (Done-held s id 1 ps ds done)
