-- ===== src/Parallel/Progress.antt =====
-- src/parallel.rs: no run gets stuck, and every run ends.
use s_zip.Common.{
  ℕ, ◌+◌, ◌*◌, ◌≤◌, ◌<◌, ◌≡◌, ◌⊎◌, refl, ap, ◌∙◌, inl, inr, List, [], ◌∷◌, ◌++◌, All, arith, length,
  length-append,
}
use s_zip.Outcome.{Result, ok, err, panic, SZipError}
use s_zip.Parallel.{
  ParallelEntry, CompressedEntry, Stage, queued, compressing, sending, sent, failed, Task, Pool,
  permits, permit_of, spawn, spawned, settle, Step, acquire, compressed, refused, send, receive,
  Steps, here, next, HasEnded, IsOver,
}

-- How many steps a task may still take, and the receiver for it.
abbrev pub left : Stage → ℕ
left queued = 4
left compressing = 3
left (sending r) = 2
left (sent r) = 0
left (failed e) = 0

abbrev pub all_left : List Task → ℕ
all_left [] = 0
all_left (t ∷ ts) = left t.stage + all_left ts

abbrev pub measure : Pool → ℕ
measure p = all_left p.tasks + length p.channel

all_left-append : (xs ys : List Task) → all_left (xs ++ ys) ≡ all_left xs + all_left ys
all_left-append [] ys = omega arith
all_left-append (x ∷ xs) ys = omega (arith, all_left-append xs ys)

all_left_at :
    (ts xs : List Task) (t : Task) (ys : List Task)
    → ts ≡ xs ++ t ∷ ys
    → all_left ts ≡ all_left xs + (left t.stage + all_left ys)
all_left_at ts xs t ys at = ap all_left at ∙ all_left-append xs (t ∷ ys)

all_left-spawn : (es : List ParallelEntry) → all_left (spawn es) ≡ 4 * length es
all_left-spawn [] = omega arith
all_left-spawn (e ∷ es) = omega (arith, all_left-spawn es)

-- A task at the place where it stands among the others.
abbrev Found : (Stage → Type 0) → List Task → Type 0
Found P ts =
    (xs : List Task) × (e : ParallelEntry) × (s : Stage) × (ys : List Task) × (ts
      ≡ xs ++ record { entry = e; stage = s } ∷ ys)
    × P s

abbrev found_first :
    {P : Stage → Type 0} (e : ParallelEntry) (s : Stage) (ts : List Task)
    → P s
    → Found P (record { entry = e; stage = s } ∷ ts)
found_first e s ts h = ([], e, s, ts, refl, h)

abbrev found_later :
    {P : Stage → Type 0} (t : Task) (ts : List Task) → Found P ts → Found P (t ∷ ts)
found_later t ts (xs, e, s, ys, at, h) = (t ∷ xs, e, s, ys, ap (λ (l : List Task). t ∷ l) at, h)

-- Some task holds a permit, or none does.
abbrev Busy : List Task → Type 0
Busy ts = Found (λ s. permit_of s ≡ 1) ts ⊎ (permits ts ≡ 0)

Busy-idle : (t : Task) (ts : List Task) → permit_of t.stage ≡ 0 → Busy ts → Busy (t ∷ ts)
Busy-idle t ts h (inl f) = inl (found_later t ts f)
Busy-idle t ts h (inr z) = inr (omega arith)

Busy-stage :
    (e : ParallelEntry) (s : Stage) (ts : List Task)
    → Busy ts
    → Busy (record { entry = e; stage = s } ∷ ts)
Busy-stage e queued ts b = Busy-idle _ ts refl b
Busy-stage e compressing ts b = inl (found_first e compressing ts refl)
Busy-stage e (sending r) ts b = inl (found_first e (sending r) ts refl)
Busy-stage e (sent r) ts b = Busy-idle _ ts refl b
Busy-stage e (failed x) ts b = Busy-idle _ ts refl b

busy : (ts : List Task) → Busy ts
busy [] = inr refl
busy (t ∷ ts) = Busy-stage t.entry t.stage ts (busy ts)

-- Where none does, some task waits for its first, or all have ended.
abbrev Waiting : List Task → Type 0
Waiting ts = Found (λ s. s ≡ queued) ts ⊎ All (λ (t : Task). HasEnded t.stage) ts

Waiting-ended : (t : Task) (ts : List Task) → HasEnded t.stage → Waiting ts → Waiting (t ∷ ts)
Waiting-ended t ts h (inl f) = inl (found_later t ts f)
Waiting-ended t ts h (inr z) = inr (h, z)

Waiting-stage :
    (e : ParallelEntry) (s : Stage) (ts : List Task)
    → permit_of s ≡ 0
    → Waiting ts
    → Waiting (record { entry = e; stage = s } ∷ ts)
Waiting-stage e queued ts h w = inl (found_first e queued ts refl)
Waiting-stage e compressing ts h w = absurd (omega arith)
Waiting-stage e (sending r) ts h w = absurd (omega arith)
Waiting-stage e (sent r) ts h w = Waiting-ended _ ts tt w
Waiting-stage e (failed x) ts h w = Waiting-ended _ ts tt w

waiting : (ts : List Task) → permits ts ≡ 0 → Waiting ts
waiting [] h = inr tt
waiting (t ∷ ts) h = Waiting-stage t.entry t.stage ts (omega arith) (waiting ts (omega arith))

settle_cases :
    (r : Result CompressedEntry)
    → ((c : CompressedEntry) × (settle r ≡ ok c)) ⊎ ((x : SZipError) × (settle r ≡ err x))
settle_cases (ok c) = inl (c, refl)
settle_cases (err x) = inr (x, refl)
settle_cases panic = inr (_, refl)

module _ (compress : ParallelEntry → Result CompressedEntry) (max_concurrent : ℕ) where
  Step-measure : {p q : Pool} → Step compress max_concurrent p q → measure q < measure p
  Step-measure {p} (acquire xs e ys at free) = omega (
    arith,
    all_left_at p.tasks xs _ ys at,
    all_left-append xs (record { entry = e; stage = compressing } ∷ ys),
  )
  Step-measure {p} (compressed xs e ys r at done) = omega (
    arith,
    all_left_at p.tasks xs _ ys at,
    all_left-append xs (record { entry = e; stage = sending r } ∷ ys),
  )
  Step-measure {p} (refused xs e ys x at done) = omega (
    arith,
    all_left_at p.tasks xs _ ys at,
    all_left-append xs (record { entry = e; stage = failed x } ∷ ys),
  )
  Step-measure {p} (send xs e ys r at room) = omega (
    arith,
    all_left_at p.tasks xs _ ys at,
    all_left-append xs (record { entry = e; stage = sent r } ∷ ys),
    length-append p.channel ((length xs, r) ∷ []),
  )
  Step-measure {p} (receive x rest at) = omega (arith, ap length at)

  Steps-measure :
      {p : Pool} {n : ℕ} {q : Pool}
      → Steps compress max_concurrent p n q
      → n + measure q ≤ measure p
  Steps-measure here = omega arith
  Steps-measure (next steps step) = omega (arith, Steps-measure steps, Step-measure step)

  abbrev CanStep : Pool → Type 0
  CanStep p = (q : Pool) × Step compress max_concurrent p q

  -- A task with a permit can go on: the file, or the channel, is there for it.
  busy-CanStep :
      (p : Pool) (xs : List Task) (e : ParallelEntry) (s : Stage) (ys : List Task)
      → p.tasks ≡ xs ++ record { entry = e; stage = s } ∷ ys
      → permit_of s ≡ 1
      → length p.channel < max_concurrent
      → CanStep p
  busy-CanStep p xs e queued ys at h room = absurd (omega arith)
  busy-CanStep p xs e compressing ys at h room = elim (settle_cases (compress e)) [
    | inl (c, done) ↦ (_, compressed xs e ys c at done)
    | inr (x, done) ↦ (_, refused xs e ys x at done)
  ]
  busy-CanStep p xs e (sending r) ys at h room = (_, send xs e ys r at room)
  busy-CanStep p xs e (sent r) ys at h room = absurd (omega arith)
  busy-CanStep p xs e (failed x) ys at h room = absurd (omega arith)

  idle-CanStep :
      (p : Pool) → 0 < max_concurrent → permits p.tasks ≡ 0 → p.channel ≡ [] → IsOver p ⊎ CanStep p
  idle-CanStep p some_permit none_taken empty = elim (waiting p.tasks none_taken) [
    | inl (xs, e, s, ys, at, h) ↦ inr (
      _,
      acquire xs e ys (at ∙ ap (λ (s : Stage). xs ++ record { entry = e; stage = s } ∷ ys) h)
          (omega arith),
    )
    | inr ended ↦ inl (ended, empty)
  ]

  channel-CanStep :
      (p : Pool) (channel : List (ℕ × CompressedEntry))
      → p.channel ≡ channel
      → 0 < max_concurrent
      → IsOver p ⊎ CanStep p
  channel-CanStep p (x ∷ rest) at some_permit = inr (_, receive x rest at)
  channel-CanStep p [] at some_permit = elim (busy p.tasks) [
    | inl (xs, e, s, ys, place, h) ↦
        inr (busy-CanStep p xs e s ys place h (omega (arith, ap length at)))
    | inr none_taken ↦ idle-CanStep p some_permit none_taken at
  ]

-- Where there is one permit at least, no pool is stuck: it is over, or has a step, with which the
-- number of steps that are left falls.
pub IsOver-or_step :
    (compress : ParallelEntry → Result CompressedEntry) (max_concurrent : ℕ) (p : Pool)
    → 0 < max_concurrent
    → IsOver p ⊎ ((q : Pool) × Step compress max_concurrent p q × (measure q < measure p))
IsOver-or_step compress max_concurrent p some_permit =
    elim (channel-CanStep compress max_concurrent p p.channel refl some_permit) [
      | inl over ↦ inl over
      | inr (q, step) ↦ inr (q, step, Step-measure compress max_concurrent step)
    ]

-- Every run has four steps for each entry at most.
pub spawned-steps :
    (compress : ParallelEntry → Result CompressedEntry) (max_concurrent : ℕ)
    (entries : List ParallelEntry) (n : ℕ) (p : Pool)
    → Steps compress max_concurrent (spawned entries) n p
    → n ≤ 4 * length entries
spawned-steps compress max_concurrent entries n p steps =
    omega (arith, Steps-measure compress max_concurrent steps, all_left-spawn entries)
