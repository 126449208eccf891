-- ===== src/LatencyJob/Carried.antt =====
-- The statistics that OptaneStudy/microbenchmark/latency_job.c prints for a task cover the tasks
-- before it as well.
use rw_sep.Prelude.{ℕ, zero, suc, ◌+◌, ◌^◌, ◌<◌, ◌≤◌, List, [], ◌∷◌, All, arith}
use rw_sep.Machine.{add64}
use rw_sep.LatencyJob.{Stats, record_result, run_ops, Line, report, Task, latency_job}

-- A kernel that returns no negative number.
abbrev pub IsLatency : (ℕ → ℕ → ℕ) → Type 0
IsLatency bench = (j a : ℕ) → bench j a < 2 ^ 63

-- The bounds on what has been seen, of which no later step loses anything.
record Narrows (s s' : Stats) : Type 0 where
  below : s'.min ≤ s.min
  above : s.max ≤ s'.max
  small : s'.min < 2 ^ 63
  small' : s'.max < 2 ^ 63

record_result-Narrows :
    (r : ℕ) (s : Stats)
    → r < 2 ^ 63
    → s.min < 2 ^ 63
    → s.max < 2 ^ 63
    → Narrows s (record_result r s)
unfolding record_result
record_result-Narrows r s h k l = record {
  below = ground arith;
  above = ground arith;
  small = ground arith;
  small' = ground arith;
}

run_ops-Narrows :
    (bench : ℕ → ℕ → ℕ) (left j buf skip : ℕ) (s : Stats)
    → IsLatency bench
    → s.min < 2 ^ 63
    → s.max < 2 ^ 63
    → Narrows s (run_ops bench left j buf skip s).1
unfolding run_ops
run_ops-Narrows bench zero j buf skip s latency k l = record {
  below = omega arith;
  above = omega arith;
  small = k;
  small' = l;
}
run_ops-Narrows bench (suc left) j buf skip s latency k l =
    let first = record_result-Narrows (bench j buf) s (latency j buf) k l in
    let rest =
      run_ops-Narrows bench left (j + 1) (add64 buf skip) skip (record_result (bench j buf) s)
        latency first.small first.small' in
    record {
      below = omega (arith, rest.below, first.below);
      above = omega (arith, rest.above, first.above);
      small = rest.small;
      small' = rest.small';
    }

abbrev Ordered : Stats → List Line → Type 0
Ordered s ls = All (λ (l : Line). (l.min ≤ s.min) × (s.max ≤ l.max)) ls

-- Each line prints a minimum that is not above, and a maximum that is not below, those of the lines
-- before it.
abbrev pub Monotone : List Line → Type 0
Monotone [] = Unit
Monotone (l ∷ ls) = All (λ (k : Line). (k.min ≤ l.min) × (l.max ≤ k.max)) ls × Monotone ls

Ordered-before : (s s' : Stats) (ls : List Line) → Narrows s s' → Ordered s' ls → Ordered s ls
Ordered-before s s' [] n h = tt
Ordered-before s s' (l ∷ ls) n h =
    ((omega (arith, h.0.0, n.below), omega (arith, h.0.1, n.above)), Ordered-before s s' ls n h.1)

latency_job-Ordered :
    (count m : ℕ) (tasks : List Task) (s : Stats)
    → All (λ (t : Task). IsLatency t.bench) tasks
    → s.min < 2 ^ 63
    → s.max < 2 ^ 63
    → Ordered s (latency_job count m tasks s) × Monotone (latency_job count m tasks s)
unfolding latency_job report
latency_job-Ordered count m [] s latencies k l = (tt, tt)
latency_job-Ordered count m (t ∷ tasks) s latencies k l =
    let n = run_ops-Narrows t.bench count 0 m t.skip s latencies.0 k l in
    let s' = (run_ops t.bench count 0 m t.skip s).1 in
    let (rest, sorted) = latency_job-Ordered count m tasks s' latencies.1 n.small n.small' in
    (
      ((n.below, n.above), Ordered-before s s' (latency_job count m tasks s') n rest),
      (rest, sorted),
    )

-- For kernels that return no negative number, whatever each of their calls returns, and with first
-- values of `min` and `max` that are not negative: the minima that the job prints never rise from
-- one task to the next, and the maxima never fall.
pub latency_job-Monotone :
    (count m : ℕ) (tasks : List Task) (s : Stats)
    → All (λ (t : Task). IsLatency t.bench) tasks
    → s.min < 2 ^ 63
    → s.max < 2 ^ 63
    → Monotone (latency_job count m tasks s)
latency_job-Monotone count m tasks s latencies k l =
    (latency_job-Ordered count m tasks s latencies k l).1
