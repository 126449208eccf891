-- ===== src/LatencyJob.antt =====
-- The statistics of OptaneStudy/microbenchmark/latency_job.c. What a kernel of Latency returns in
-- each of its calls is a parameter, as are the values that `total`, `min` and `max`, which are not
-- initialised, begin with. A `long` is a 64-bit word.
pub mod Carried
use rw_sep.Prelude.{ℕ, zero, suc, ◌+◌, ◌*◌, ◌/◌, ◌%◌, ◌^◌, List, [], ◌∷◌, ◌++◌, ltb, if◌then◌else◌}
use rw_sep.Machine.{add64, sub64, signed_ltb}

-- BASIC_OPS_TASK_COUNT and LATENCY_OPS_COUNT.
abbrev pub basic_ops_task_count : ℕ
basic_ops_task_count = 25

abbrev pub latency_ops_count : ℕ
latency_ops_count = 1048576

pub record Stats : Type 0 where
  pub total : ℕ
  pub min : ℕ
  pub max : ℕ

-- The body of the loop on `j`, for what the kernel returns.
unfoldable pub record_result : (result : ℕ) → Stats → Stats
record_result result s = record {
  total = add64 s.total result;
  min = if signed_ltb result s.min then result else s.min;
  max = if signed_ltb s.max result then result else s.max;
}

-- The loop on `j` from `j` on, with `left` rounds to go: what it writes to `rbuf`, and the
-- statistics after it. `bench j buf` is what the kernel returns in round `j`, called with `buf`.
unfoldable pub run_ops : (bench : ℕ → ℕ → ℕ) → (left j buf skip : ℕ) → Stats → List ℕ × Stats
unfolding record_result
run_ops bench zero j buf skip s = ([], s)
run_ops bench (suc left) j buf skip s =
    let rest = run_ops bench left (j + 1) (add64 buf skip) skip (record_result (bench j buf) s) in
    (bench j buf ∷ rest.0, rest.1)

-- `/` on a `long` and a positive count: the quotient is rounded toward 0.
unfoldable pub div_long : (a count : ℕ) → ℕ
div_long a count = if ltb a (2 ^ 63) then a / count else sub64 0 (sub64 0 a / count)

-- The loop that adds up the squares of the deviations.
unfoldable pub add_squares : (average : ℕ) → List ℕ → (stddev : ℕ) → ℕ
add_squares average [] stddev = stddev
add_squares average (r ∷ rbuf) stddev =
    add_squares average rbuf (add64 stddev (sub64 r average * sub64 r average % 2 ^ 64))

-- What is printed of one task.
pub record Line : Type 0 where
  pub average : ℕ
  pub variance : ℕ
  pub max : ℕ
  pub min : ℕ

unfoldable pub report : (count : ℕ) → (rbuf : List ℕ) → Stats → Line
unfolding div_long add_squares
report count rbuf s =
    let average = div_long s.total count in
    record {
      average = average;
      variance = div_long (add_squares average rbuf 0) count;
      max = s.max;
      min = s.min;
    }

-- A task: what its kernel returns in each round at each address, which the counter decides, and its
-- entry in `latency_tasks_skip`.
pub record Task : Type 0 where
  pub bench : ℕ → ℕ → ℕ
  pub skip : ℕ

-- The loop on `i`, over the tasks that are left. The statistics are not reset in between.
unfoldable pub latency_job : (count m : ℕ) → List Task → Stats → List Line
unfolding run_ops report
latency_job count m [] s = []
latency_job count m (t ∷ tasks) s =
    let ran = run_ops t.bench count 0 m t.skip s in
    report count ran.0 ran.1 ∷ latency_job count m tasks ran.1
