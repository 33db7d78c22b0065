-- ===== src/Parallel.antt =====
-- src/parallel.rs: the configuration, and the tasks that compress files under a semaphore and send
-- their results through a bounded channel. The proofs are in the children.
pub mod Crc
pub mod Sorted
pub mod Order
pub mod Bounds
pub mod Progress
use s_zip.Common.{
  ℕ, suc, ◌+◌, ◌<◌, ◌≡◌, List, [], ◌∷◌, ◌++◌, map, All, ltb, ◌==◌, if◌then◌else◌, max, length,
}
use s_zip.Outcome.{
  Result, ok, err, panic, ◌>>=◌, task_join, SZipError, invalid_format, max_concurrent_zero,
  max_concurrent_above,
}
use s_zip.Compress.{CompressionMethod, deflate}

pub record ParallelConfig : Type 0 where
  pub max_concurrent : ℕ
  pub compression_level : ℕ
  pub compression_method : CompressionMethod

-- `Default::default()`, and `balanced()`
abbrev pub default_config : ParallelConfig
default_config = record { max_concurrent = 4; compression_level = 6; compression_method = deflate }

abbrev pub conservative : ParallelConfig
conservative = record { max_concurrent = 2; compression_level = 6; compression_method = deflate }

abbrev pub balanced : ParallelConfig
balanced = default_config

abbrev pub aggressive : ParallelConfig
aggressive = record { max_concurrent = 8; compression_level = 6; compression_method = deflate }

pub with_max_concurrent : ℕ → ParallelConfig → Result ParallelConfig
with_max_concurrent max config =
    if max == 0
    then err (invalid_format max_concurrent_zero)
    else if ltb 16 max
    then err (invalid_format max_concurrent_above)
    else ok (record config { max_concurrent = max })

pub with_compression_level : ℕ → ParallelConfig → ParallelConfig
with_compression_level level config = record config { compression_level = level }

pub estimated_peak_memory_mb : ParallelConfig → ℕ
estimated_peak_memory_mb config = max config.max_concurrent 1

pub record ParallelEntry : Type 0 where
  pub name : List ℕ
  pub path : List ℕ

pub record CompressedEntry : Type 0 where
  pub name : List ℕ
  pub content : List ℕ
  pub uncompressed_size : ℕ
  pub crc32 : ℕ

-- Where a task stands: before its permit, at the file with its permit, at the channel with its result
-- and the permit, and at its end. The last two keep what the task sent or returned.
pub data Stage : Type 0 where
  queued : Stage
  compressing : Stage
  sending : CompressedEntry → Stage
  sent : CompressedEntry → Stage
  failed : SZipError → Stage

pub record Task : Type 0 where
  pub entry : ParallelEntry
  pub stage : Stage

-- The tasks in the order of the entries, the channel, and what the receiver has taken from it.
pub record Pool : Type 0 where
  pub tasks : List Task
  pub channel : List (ℕ × CompressedEntry)
  pub results : List (ℕ × CompressedEntry)

abbrev pub permit_of : Stage → ℕ
permit_of queued = 0
permit_of compressing = 1
permit_of (sending r) = 1
permit_of (sent r) = 0
permit_of (failed e) = 0

-- How many permits of the semaphore are taken.
abbrev pub permits : List Task → ℕ
permits [] = 0
permits (t ∷ ts) = permit_of t.stage + permits ts

abbrev pub spawn : List ParallelEntry → List Task
spawn [] = []
spawn (e ∷ es) = record { entry = e; stage = queued } ∷ spawn es

abbrev pub spawned : List ParallelEntry → Pool
spawned entries = record { tasks = spawn entries; channel = []; results = [] }

-- What the receiver does at the end: the tasks are joined in order, where the first that failed ends
-- the call, and the results are sorted by index. The sort is the standard library's, which is stable.
pub join : List Task → Result (Unit {0})
join [] = ok tt
join (t ∷ ts) = elim t.stage [ failed x ↦ err x | _ ↦ join ts ]

pub insert_by_key : ℕ × CompressedEntry → List (ℕ × CompressedEntry) → List (ℕ × CompressedEntry)
insert_by_key x [] = x ∷ []
insert_by_key x (y ∷ ys) = if ltb x.0 y.0 then x ∷ y ∷ ys else y ∷ insert_by_key x ys

pub sort_from : List (ℕ × CompressedEntry) → List (ℕ × CompressedEntry) → List (ℕ × CompressedEntry)
sort_from sorted [] = sorted
sort_from sorted (x ∷ xs) = sort_from (insert_by_key x sorted) xs

pub sort_by_key : List (ℕ × CompressedEntry) → List (ℕ × CompressedEntry)
unfolding sort_from insert_by_key
sort_by_key xs = sort_from [] xs

pub outcome : Pool → Result (List CompressedEntry)
unfolding join sort_by_key
outcome p = join p.tasks >>= λ u. ok (map (λ x. x.1) (sort_by_key p.results))

-- A task that panics is an error of `join`.
abbrev pub settle : Result CompressedEntry → Result CompressedEntry
settle (ok r) = ok r
settle (err e) = err e
settle panic = err (invalid_format task_join)

-- What compressing one entry gives is a parameter here: `compress_entry` in `Parallel.Crc` is the
-- crate's.
module _ (compress : ParallelEntry → Result CompressedEntry) (max_concurrent : ℕ) where
  -- The steps of the tasks, of which any may be the next, and of the receiver.
  pub data Step (p : Pool) : Pool → Type 0 where
    acquire :
        (xs : List Task) (e : ParallelEntry) (ys : List Task)
        → p.tasks ≡ xs ++ record { entry = e; stage = queued } ∷ ys
        → permits p.tasks < max_concurrent
        → Step p (record p { tasks = xs ++ record { entry = e; stage = compressing } ∷ ys })
    compressed :
        (xs : List Task) (e : ParallelEntry) (ys : List Task) (r : CompressedEntry)
        → p.tasks ≡ xs ++ record { entry = e; stage = compressing } ∷ ys
        → settle (compress e) ≡ ok r
        → Step p (record p { tasks = xs ++ record { entry = e; stage = sending r } ∷ ys })
    refused :
        (xs : List Task) (e : ParallelEntry) (ys : List Task) (x : SZipError)
        → p.tasks ≡ xs ++ record { entry = e; stage = compressing } ∷ ys
        → settle (compress e) ≡ err x
        → Step p (record p { tasks = xs ++ record { entry = e; stage = failed x } ∷ ys })
    send :
        (xs : List Task) (e : ParallelEntry) (ys : List Task) (r : CompressedEntry)
        → p.tasks ≡ xs ++ record { entry = e; stage = sending r } ∷ ys
        → length p.channel < max_concurrent
        → Step p (record p {
          tasks = xs ++ record { entry = e; stage = sent r } ∷ ys;
          channel = p.channel ++ (length xs, r) ∷ [];
        })
    receive :
        (x : ℕ × CompressedEntry) (rest : List (ℕ × CompressedEntry))
        → p.channel ≡ x ∷ rest
        → Step p (record p { channel = rest; results = p.results ++ x ∷ [] })

  -- A run of so many steps.
  pub data Steps (p : Pool) : ℕ → Pool → Type 0 where
    here : Steps p 0 p
    next : {n : ℕ} {q r : Pool} → Steps p n q → Step q r → Steps p (suc n) r

-- The loop of the receiver has ended, and so have the tasks.
abbrev pub HasEnded : Stage → Type 0
HasEnded queued = ⊥
HasEnded compressing = ⊥
HasEnded (sending r) = ⊥
HasEnded (sent r) = Unit {0}
HasEnded (failed e) = Unit {0}

abbrev pub IsOver : Pool → Type 0
IsOver p = All (λ (t : Task). HasEnded t.stage) p.tasks × (p.channel ≡ [])
