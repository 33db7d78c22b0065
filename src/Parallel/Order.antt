-- ===== src/Parallel/Order.antt =====
-- src/parallel.rs: the results come in the order of the entries, whatever the order in which the
-- tasks end.
use s_zip.Common.{
  ℕ, suc, ◌≡◌, refl, sym, ap, ◌∙◌, List, [], ◌∷◌, ◌++◌, map, All, length, append_assoc, append-nil,
}
use s_zip.Outcome.{Result, ok, err, panic, ◌>>=◌}
use s_zip.Parallel.{
  ParallelEntry, CompressedEntry, Stage, queued, compressing, sending, sent, failed, Task, Pool,
  spawn, spawned, settle, join, insert_by_key, sort_from, sort_by_key, outcome, Step, acquire,
  compressed, refused, send, receive, Steps, here, next, HasEnded, IsOver,
}
use s_zip.Parallel.Sorted.{
  sent_one, sent_from, entries_of, task, sent_from_same, entries_of_same, sort_by_key-append,
  insert_at_zero,
}

-- The reference: one entry after the other.
pub compress_all :
    (ParallelEntry → Result CompressedEntry) → List ParallelEntry → Result (List CompressedEntry)
compress_all compress [] = ok []
compress_all compress (e ∷ es) =
    settle (compress e) >>= λ r. compress_all compress es >>= λ rs. ok (r ∷ rs)

module _ (compress : ParallelEntry → Result CompressedEntry) (max_concurrent : ℕ) where
  -- What a task has is what compressing its entry gives.
  abbrev IsRight : ParallelEntry → Stage → Type 0
  IsRight e queued = Unit {0}
  IsRight e compressing = Unit {0}
  IsRight e (sending r) = settle (compress e) ≡ ok r
  IsRight e (sent r) = settle (compress e) ≡ ok r
  IsRight e (failed x) = settle (compress e) ≡ err x

  abbrev AllRight : List Task → Type 0
  AllRight ts = All (λ (t : Task). IsRight t.entry t.stage) ts

  AllRight-at :
      (xs : List Task) (e : ParallelEntry) (s : Stage) (ys : List Task)
      → AllRight (xs ++ task e s ∷ ys)
      → IsRight e s
  AllRight-at [] e s ys h = h.0
  AllRight-at (x ∷ xs) e s ys h = AllRight-at xs e s ys h.1

  AllRight-same :
      (xs : List Task) (e : ParallelEntry) (s s' : Stage) (ys : List Task)
      → IsRight e s'
      → AllRight (xs ++ task e s ∷ ys)
      → AllRight (xs ++ task e s' ∷ ys)
  AllRight-same [] e s s' ys new h = (new, h.1)
  AllRight-same (x ∷ xs) e s s' ys new h = (h.0, AllRight-same xs e s s' ys new h.1)

  AllRight-spawn : (es : List ParallelEntry) → AllRight (spawn es)
  AllRight-spawn [] = tt
  AllRight-spawn (e ∷ es) = (tt, AllRight-spawn es)

  record IsOrdered (entries : List ParallelEntry) (p : Pool) : Type 0 where
    kept : entries_of p.tasks ≡ entries
    right : AllRight p.tasks
    sorted : sort_by_key (p.results ++ p.channel) ≡ sent_from 0 p.tasks

  -- A step of a task that sends nothing.
  quiet-IsOrdered :
      (entries : List ParallelEntry) (p : Pool) (xs : List Task) (e : ParallelEntry) (s s' : Stage)
      (ys : List Task)
      → p.tasks ≡ xs ++ task e s ∷ ys
      → IsRight e s'
      → ((n : ℕ) (rest : List (ℕ × CompressedEntry)) → sent_one n s rest ≡ sent_one n s' rest)
      → IsOrdered entries p
      → IsOrdered entries (record p { tasks = xs ++ task e s' ∷ ys })
  quiet-IsOrdered entries p xs e s s' ys at new same o = record {
    kept = sym (entries_of_same xs e s s' ys) ∙ sym (ap entries_of at) ∙ o.kept;
    right = AllRight-same xs e s s' ys new (rw at at o.right);
    sorted = o.sorted ∙ ap (sent_from 0) at ∙ sent_from_same 0 xs e s s' ys same;
  }

  Step-IsOrdered :
      (entries : List ParallelEntry) {p q : Pool}
      → Step compress max_concurrent p q
      → IsOrdered entries p
      → IsOrdered entries q
  Step-IsOrdered entries {p} (acquire xs e ys at free) o =
      quiet-IsOrdered entries p xs e queued compressing ys at tt (λ n rest. refl) o
  Step-IsOrdered entries {p} (compressed xs e ys r at done) o =
      quiet-IsOrdered entries p xs e compressing (sending r) ys at done (λ n rest. refl) o
  Step-IsOrdered entries {p} (refused xs e ys x at done) o =
      quiet-IsOrdered entries p xs e compressing (failed x) ys at done (λ n rest. refl) o
  Step-IsOrdered entries {p} (send xs e ys r at room) o = record {
    kept = sym (entries_of_same xs e (sending r) (sent r) ys) ∙ sym (ap entries_of at) ∙ o.kept;
    right =
        let rights : AllRight (xs ++ task e (sending r) ∷ ys) = rw at at o.right in
        AllRight-same xs e (sending r) (sent r) ys (AllRight-at xs e (sending r) ys rights) rights;
    sorted =
        ap sort_by_key (sym (append_assoc p.results p.channel ((length xs, r) ∷ [])))
        ∙ sort_by_key-append (p.results ++ p.channel) (length xs, r)
        ∙ ap (insert_by_key (length xs, r)) (o.sorted ∙ ap (sent_from 0) at)
        ∙ insert_at_zero xs e ys r;
  }
  Step-IsOrdered entries {p} (receive x rest at) o = record {
    kept = o.kept;
    right = o.right;
    sorted =
        ap sort_by_key (append_assoc p.results (x ∷ []) rest)
        ∙ ap (λ (l : List (ℕ × CompressedEntry)). sort_by_key (p.results ++ l)) (sym at)
        ∙ o.sorted;
  }

  entries_of-spawn : (es : List ParallelEntry) → entries_of (spawn es) ≡ es
  entries_of-spawn [] = refl
  entries_of-spawn (e ∷ es) = ap (λ (l : List ParallelEntry). e ∷ l) (entries_of-spawn es)

  sent_from-spawn : (k : ℕ) (es : List ParallelEntry) → sent_from k (spawn es) ≡ []
  sent_from-spawn k [] = refl
  sent_from-spawn k (e ∷ es) = sent_from-spawn (suc k) es

  Steps-IsOrdered :
      (entries : List ParallelEntry) {p : Pool} {n : ℕ} {q : Pool}
      → Steps compress max_concurrent p n q
      → IsOrdered entries p
      → IsOrdered entries q
  Steps-IsOrdered entries here o = o
  Steps-IsOrdered entries (next steps step) o =
      Step-IsOrdered entries step (Steps-IsOrdered entries steps o)

  spawned-IsOrdered : (entries : List ParallelEntry) → IsOrdered entries (spawned entries)
  unfolding sort_by_key sort_from
  spawned-IsOrdered entries = record {
    kept = entries_of-spawn entries;
    right = AllRight-spawn entries;
    sorted = sym (sent_from-spawn 0 entries);
  }

  one_more :
      (j : Result (Unit {0})) (r : CompressedEntry) (l : List CompressedEntry)
      (c : Result (List CompressedEntry))
      → (j >>= λ u. ok l) ≡ c
      → (j >>= λ u. ok (r ∷ l)) ≡ (c >>= λ rs. ok (r ∷ rs))
  one_more (ok u) r l c h = ap (λ c. c >>= λ rs. ok (r ∷ rs)) h
  one_more (err x) r l c h = ap (λ c. c >>= λ rs. ok (r ∷ rs)) h
  one_more panic r l c h = ap (λ c. c >>= λ rs. ok (r ∷ rs)) h

  abbrev joined : List Task → List (ℕ × CompressedEntry) → Result (List CompressedEntry)
  joined ts l = join ts >>= λ u. ok (map (λ x. x.1) l)

  ended_one :
      (k : ℕ) (e : ParallelEntry) (s : Stage) (ts : List Task)
      → HasEnded s
      → IsRight e s
      → joined ts (sent_from (suc k) ts) ≡ compress_all compress (entries_of ts)
      → joined (task e s ∷ ts) (sent_from k (task e s ∷ ts))
        ≡ compress_all compress (e ∷ entries_of ts)
  unfolding compress_all join
  ended_one k e queued ts ended right ih = elim ended [ ]
  ended_one k e compressing ts ended right ih = elim ended [ ]
  ended_one k e (sending r) ts ended right ih = elim ended [ ]
  ended_one k e (sent r) ts ended right ih =
      one_more (join ts) r (map (λ x. x.1) (sent_from (suc k) ts)) _ ih ∙ rw right
  ended_one k e (failed x) ts ended right ih = rw right

  ended-All :
      (k : ℕ) (ts : List Task)
      → All (λ (t : Task). HasEnded t.stage) ts
      → AllRight ts
      → joined ts (sent_from k ts) ≡ compress_all compress (entries_of ts)
  unfolding compress_all join
  ended-All k [] ended right = refl
  ended-All k (t ∷ ts) ended right =
      ended_one k t.entry t.stage ts ended.0 right.0 (ended-All (suc k) ts ended.1 right.1)

-- However the tasks are interleaved, once they have ended the call returns what compressing one entry
-- after the other returns: the results in the order of the entries, or the error of the first entry
-- that fails.
pub outcome-compress_all :
    (compress : ParallelEntry → Result CompressedEntry) (max_concurrent : ℕ)
    (entries : List ParallelEntry) (n : ℕ) (p : Pool)
    → Steps compress max_concurrent (spawned entries) n p
    → IsOver p
    → outcome p ≡ compress_all compress entries
unfolding outcome
outcome-compress_all compress max_concurrent entries n p steps (ended, empty) =
    let o =
      Steps-IsOrdered compress max_concurrent entries steps
        (spawned-IsOrdered compress max_concurrent entries) in
    let all_received : sort_by_key p.results ≡ sent_from 0 p.tasks =
      ap sort_by_key (sym (append-nil p.results) ∙ ap (λ l. p.results ++ l) (sym empty))
      ∙ o.sorted in
    ap (λ (l : List (ℕ × CompressedEntry)). joined compress max_concurrent p.tasks l) all_received
    ∙ ended-All compress max_concurrent 0 p.tasks ended o.right
    ∙ ap (compress_all compress) o.kept
