-- ===== src/Parallel/Sorted.antt =====
-- src/parallel.rs: the sorted results of tasks that have sent them, step by step.
use s_zip.Common.{
  ℕ, suc, ◌+◌, ◌<◌, ◌≡◌, refl, ap, ◌∙◌, List, [], ◌∷◌, ◌++◌, arith, length, ltb-true, ltb-false,
}
use s_zip.Parallel.{
  ParallelEntry, CompressedEntry, Stage, queued, compressing, sending, sent, failed, Task,
  insert_by_key, sort_from, sort_by_key,
}

-- What the tasks have sent, with their indices from `k` on.
abbrev pub sent_one : ℕ → Stage → List (ℕ × CompressedEntry) → List (ℕ × CompressedEntry)
sent_one k queued rest = rest
sent_one k compressing rest = rest
sent_one k (sending r) rest = rest
sent_one k (sent r) rest = (k, r) ∷ rest
sent_one k (failed e) rest = rest

abbrev pub sent_from : ℕ → List Task → List (ℕ × CompressedEntry)
sent_from k [] = []
sent_from k (t ∷ ts) = sent_one k t.stage (sent_from (suc k) ts)

abbrev pub entries_of : List Task → List ParallelEntry
entries_of [] = []
entries_of (t ∷ ts) = t.entry ∷ entries_of ts

abbrev pub task : ParallelEntry → Stage → Task
task e s = record { entry = e; stage = s }

-- A result that comes before all those of the tasks.
pub insert_one :
    (k m : ℕ) (r : CompressedEntry) (s : Stage) (rest : List (ℕ × CompressedEntry))
    → k < m
    → insert_by_key (k, r) rest ≡ (k, r) ∷ rest
    → insert_by_key (k, r) (sent_one m s rest) ≡ (k, r) ∷ sent_one m s rest
unfolding insert_by_key
insert_one k m r queued rest h ih = ih
insert_one k m r compressing rest h ih = ih
insert_one k m r (sending c) rest h ih = ih
insert_one k m r (sent c) rest h ih = rw (ltb-true k m h)
insert_one k m r (failed x) rest h ih = ih

pub insert_first :
    (k m : ℕ) (r : CompressedEntry) (ts : List Task)
    → k < m
    → insert_by_key (k, r) (sent_from m ts) ≡ (k, r) ∷ sent_from m ts
unfolding insert_by_key
insert_first k m r [] h = refl
insert_first k m r (t ∷ ts) h =
    insert_one k m r t.stage (sent_from (suc m) ts) h (insert_first k (suc m) r ts (omega arith))

-- A task that sends puts its result at its place among the sorted ones.
pub insert_past :
    (k n : ℕ) (r : CompressedEntry) (s : Stage) (rest : List (ℕ × CompressedEntry))
    → k < n
    → insert_by_key (n, r) (sent_one k s rest) ≡ sent_one k s (insert_by_key (n, r) rest)
unfolding insert_by_key
insert_past k n r queued rest h = refl
insert_past k n r compressing rest h = refl
insert_past k n r (sending c) rest h = refl
insert_past k n r (sent c) rest h = rw (ltb-false n k (omega arith))
insert_past k n r (failed x) rest h = refl

pub sent_from-send :
    (k : ℕ) (xs : List Task) (e : ParallelEntry) (ys : List Task) (r : CompressedEntry)
    → insert_by_key (k + length xs, r) (sent_from k (xs ++ task e (sending r) ∷ ys))
      ≡ sent_from k (xs ++ task e (sent r) ∷ ys)
sent_from-send k [] e ys r =
    let same : k + 0 ≡ k = omega arith in
    ap (λ (n : ℕ). insert_by_key (n, r) (sent_from (suc k) ys)) same
    ∙ insert_first k (suc k) r ys (omega arith)
sent_from-send k (x ∷ xs) e ys r =
    let moved : k + suc (length xs) ≡ suc k + length xs = omega arith in
    insert_past k (k + suc (length xs)) r x.stage
      (sent_from (suc k) (xs ++ task e (sending r) ∷ ys)) (omega arith)
    ∙ ap
        (λ (n : ℕ).
          sent_one k x.stage
            (insert_by_key (n, r) (sent_from (suc k) (xs ++ task e (sending r) ∷ ys))))
        moved
    ∙ ap (λ (l : List (ℕ × CompressedEntry)). sent_one k x.stage l)
        (sent_from-send (suc k) xs e ys r)

-- Any other step of a task changes nothing of what is sent.
pub sent_from_same :
    (k : ℕ) (xs : List Task) (e : ParallelEntry) (s s' : Stage) (ys : List Task)
    → ((n : ℕ) (rest : List (ℕ × CompressedEntry)) → sent_one n s rest ≡ sent_one n s' rest)
    → sent_from k (xs ++ task e s ∷ ys) ≡ sent_from k (xs ++ task e s' ∷ ys)
sent_from_same k [] e s s' ys h = h k (sent_from (suc k) ys)
sent_from_same k (x ∷ xs) e s s' ys h =
    ap (λ (l : List (ℕ × CompressedEntry)). sent_one k x.stage l)
      (sent_from_same (suc k) xs e s s' ys h)

pub entries_of_same :
    (xs : List Task) (e : ParallelEntry) (s s' : Stage) (ys : List Task)
    → entries_of (xs ++ task e s ∷ ys) ≡ entries_of (xs ++ task e s' ∷ ys)
entries_of_same [] e s s' ys = refl
entries_of_same (x ∷ xs) e s s' ys =
    ap (λ (l : List ParallelEntry). x.entry ∷ l) (entries_of_same xs e s s' ys)

pub sort_from-append :
    (acc xs : List (ℕ × CompressedEntry)) (x : ℕ × CompressedEntry)
    → sort_from acc (xs ++ x ∷ []) ≡ insert_by_key x (sort_from acc xs)
unfolding sort_from
sort_from-append acc [] x = refl
sort_from-append acc (y ∷ ys) x = sort_from-append (insert_by_key y acc) ys x

pub sort_by_key-append :
    (xs : List (ℕ × CompressedEntry)) (x : ℕ × CompressedEntry)
    → sort_by_key (xs ++ x ∷ []) ≡ insert_by_key x (sort_by_key xs)
unfolding sort_by_key
sort_by_key-append xs x = sort_from-append [] xs x

pub insert_at_zero :
    (xs : List Task) (e : ParallelEntry) (ys : List Task) (r : CompressedEntry)
    → insert_by_key (length xs, r) (sent_from 0 (xs ++ task e (sending r) ∷ ys))
      ≡ sent_from 0 (xs ++ task e (sent r) ∷ ys)
insert_at_zero xs e ys r =
    let from_zero : length xs ≡ 0 + length xs = omega arith in
    ap (λ (n : ℕ). insert_by_key (n, r) (sent_from 0 (xs ++ task e (sending r) ∷ ys))) from_zero
    ∙ sent_from-send 0 xs e ys r
