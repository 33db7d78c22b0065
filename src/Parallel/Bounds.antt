-- ===== src/Parallel/Bounds.antt =====
-- src/parallel.rs: what bounds the tasks at work and the results under way.
use s_zip.Common.{
  ℕ, ◌+◌, ◌*◌, ◌≤◌, ◌≡◌, refl, ap, ◌∙◌, List, [], ◌∷◌, ◌++◌, arith, length, length-append,
}
use s_zip.Outcome.{Result}
use s_zip.Parallel.{
  ParallelEntry, CompressedEntry, Stage, queued, Task, compressing, sending, sent, failed, Pool,
  permits, permit_of, spawn, spawned, Step, acquire, compressed, refused, send, receive, Steps,
  here, next,
}

-- A number for each task, summed up over the tasks.
abbrev pub total : (Stage → ℕ) → List Task → ℕ
total count [] = 0
total count (t ∷ ts) = count t.stage + total count ts

-- A task that has its file or its result in memory: it compresses, or waits for room in the channel.
abbrev pub at_work : Stage → ℕ
at_work queued = 0
at_work compressing = 1
at_work (sending r) = 1
at_work (sent r) = 0
at_work (failed e) = 0

-- A task whose result has left it.
abbrev pub has_sent : Stage → ℕ
has_sent queued = 0
has_sent compressing = 0
has_sent (sending r) = 0
has_sent (sent r) = 1
has_sent (failed e) = 0

total-append :
    (count : Stage → ℕ) (xs ys : List Task)
    → total count (xs ++ ys) ≡ total count xs + total count ys
total-append count [] ys = omega arith
total-append count (x ∷ xs) ys = omega (arith, total-append count xs ys)

total_at :
    (count : Stage → ℕ) (ts xs : List Task) (t : Task) (ys : List Task)
    → ts ≡ xs ++ t ∷ ys
    → total count ts ≡ total count xs + (count t.stage + total count ys)
total_at count ts xs t ys at = ap (total count) at ∙ total-append count xs (t ∷ ys)

-- No task is at work without a permit.
at_work-permit : (s : Stage) → at_work s ≤ permit_of s
at_work-permit queued = omega arith
at_work-permit compressing = omega arith
at_work-permit (sending r) = omega arith
at_work-permit (sent r) = omega arith
at_work-permit (failed e) = omega arith

at_work-permits : (ts : List Task) → total at_work ts ≤ permits ts
at_work-permits [] = omega arith
at_work-permits (t ∷ ts) = omega (arith, at_work-permit t.stage, at_work-permits ts)

spawn-idle :
    (es : List ParallelEntry) → (total at_work (spawn es) ≡ 0) × (total has_sent (spawn es) ≡ 0)
spawn-idle [] = (refl, refl)
spawn-idle (e ∷ es) = let idle = spawn-idle es in (omega (arith, idle.0), omega (arith, idle.1))

module _ (compress : ParallelEntry → Result CompressedEntry) (max_concurrent : ℕ) where
  record IsBounded (p : Pool) : Type 0 where
    at_work_few : total at_work p.tasks ≤ max_concurrent
    channel_short : length p.channel ≤ max_concurrent
    none_lost : total has_sent p.tasks ≡ length p.channel + length p.results

  -- A task that goes on from one stage to another.
  moved :
      (count : Stage → ℕ) (ts xs : List Task) (e : ParallelEntry) (a b : Stage) (ys : List Task)
      → ts ≡ xs ++ record { entry = e; stage = a } ∷ ys
      → total count (xs ++ record { entry = e; stage = b } ∷ ys) + count a
        ≡ total count ts + count b
  moved count ts xs e a b ys at = omega (
    arith,
    total_at count ts xs _ ys at,
    total-append count xs (record { entry = e; stage = b } ∷ ys),
  )

  Step-IsBounded : {p q : Pool} → Step compress max_concurrent p q → IsBounded p → IsBounded q
  Step-IsBounded {p} (acquire xs e ys at free) h = record {
    at_work_few =
        omega (arith, moved at_work p.tasks xs e queued compressing ys at, at_work-permits p.tasks);
    channel_short = h.channel_short;
    none_lost = omega (arith, h.none_lost, moved has_sent p.tasks xs e queued compressing ys at);
  }
  Step-IsBounded {p} (compressed xs e ys r at done) h = record {
    at_work_few =
        omega (arith, h.at_work_few, moved at_work p.tasks xs e compressing (sending r) ys at);
    channel_short = h.channel_short;
    none_lost =
        omega (arith, h.none_lost, moved has_sent p.tasks xs e compressing (sending r) ys at);
  }
  Step-IsBounded {p} (refused xs e ys x at done) h = record {
    at_work_few =
        omega (arith, h.at_work_few, moved at_work p.tasks xs e compressing (failed x) ys at);
    channel_short = h.channel_short;
    none_lost =
        omega (arith, h.none_lost, moved has_sent p.tasks xs e compressing (failed x) ys at);
  }
  Step-IsBounded {p} (send xs e ys r at room) h = record {
    at_work_few =
        omega (arith, h.at_work_few, moved at_work p.tasks xs e (sending r) (sent r) ys at);
    channel_short = omega (arith, length-append p.channel ((length xs, r) ∷ []));
    none_lost = omega (
      arith,
      h.none_lost,
      moved has_sent p.tasks xs e (sending r) (sent r) ys at,
      length-append p.channel ((length xs, r) ∷ []),
    );
  }
  Step-IsBounded {p} (receive x rest at) h = record {
    at_work_few = h.at_work_few;
    channel_short = omega (arith, h.channel_short, ap length at);
    none_lost = omega (arith, h.none_lost, ap length at, length-append p.results (x ∷ []));
  }

  Steps-IsBounded :
      {p : Pool} {n : ℕ} {q : Pool}
      → Steps compress max_concurrent p n q
      → IsBounded p
      → IsBounded q
  Steps-IsBounded here b = b
  Steps-IsBounded (next steps step) b = Step-IsBounded step (Steps-IsBounded steps b)

-- However the tasks are interleaved, no more of them than `max_concurrent` are at work, with a file that
-- they compress or a result that they wait to send; with the results in the channel, at most twice as
-- many are in memory before the receiver; and every result that was sent is in the channel or received.
pub spawned-IsBounded :
    (compress : ParallelEntry → Result CompressedEntry) (max_concurrent : ℕ)
    (entries : List ParallelEntry) (n : ℕ) (p : Pool)
    → Steps compress max_concurrent (spawned entries) n p
    → (total at_work p.tasks ≤ max_concurrent)
      × (total at_work p.tasks + length p.channel ≤ 2 * max_concurrent)
      × (total has_sent p.tasks ≡ length p.channel + length p.results)
spawned-IsBounded compress max_concurrent entries n p steps =
    let idle = spawn-idle entries in
    let h : IsBounded compress max_concurrent p =
      Steps-IsBounded compress max_concurrent steps (record {
        at_work_few = omega (arith, idle.0);
        channel_short = omega arith;
        none_lost = omega (arith, idle.1);
      }) in
    (h.at_work_few, omega (arith, h.at_work_few, h.channel_short), h.none_lost)
