-- ===== src/Afterwrite/Job.antt =====
-- The whole of `read_after_write_job` of OptaneStudy/microbenchmark/read_after_write.cpp: its tasks
-- in their order, each on buffers that `init` allocates and `fast_free` gives back. `flush_cache`,
-- which walks a buffer of its own, and the printing are left out.
use rw_sep.Prelude.{ℕ, Option, some, List, [], ◌∷◌}
use rw_sep.Prelude.Loops.{◌>>=◌}
use rw_sep.Machine.{Instr, Cpu, block}
use rw_sep.Memaccess.Stride.{stride_nt, stride_storeclwb}
use rw_sep.Channels.{fast_free}
use rw_sep.Afterwrite.{
  access_size, stride_size, delay, Buffers, init, read_clock, finish, task_separate, task_mixed,
  task_combined,
}

pub record Bench : Type 0 where
  -- How many regions the system has handed out.
  pub regions : ℕ
  pub cpu : Cpu

abbrev pub fence : List Instr
fence = Instr.mfence ∷ []

-- `fast_free(alloc1); fast_free(alloc2);`.
unfoldable pub release : Buffers → Cpu → Option Bench
release b c = fast_free (some b.alloc1) >>= λ _.
    fast_free (some b.alloc2) >>= λ _. some (record { regions = b.alloc2.regions; cpu = c })

-- `asm volatile ("mfence \n" :::)` between two tasks.
unfoldable pub barrier : Bench → Option Bench
barrier s = block fence s.cpu >>= λ c. some (record s { cpu = c })

-- What grn becomes in `for(; grn <= 16; grn *= 2)`.
abbrev pub grns : List ℕ
grns = 1 ∷ 2 ∷ 4 ∷ 8 ∷ 16 ∷ []

module _ (os : ℕ → ℕ) (slots : List ℕ) (fuel count : ℕ) where
  -- "raw-separate": `init` stands between the readings of the clock.
  unfoldable pub job_separate : Bench → Option Bench
  job_separate s = block read_clock s.cpu >>= λ c.
      init os slots s.regions count stride_size >>= λ b.
      stride_storeclwb fuel b.buf_sep1 access_size stride_size delay count c
      >>= block fence
      >>= block read_clock
      >>= stride_nt fuel b.buf_sep1 access_size stride_size delay count
      >>= block finish
      >>= release b

  -- "raw-combined".
  unfoldable pub job_combined : Bench → Option Bench
  job_combined s = init os slots s.regions count stride_size >>= λ b.
      task_combined fuel count b.buf_sep1 s.cpu >>= release b

  -- A task on the buffers of `init`, behind a fence.
  unfoldable pub job_task : (Buffers → Cpu → Option Cpu) → Bench → Option Bench
  job_task task s =
      init os slots s.regions count stride_size >>= λ b. block fence s.cpu >>= task b >>= release b

  -- The loop over grn.
  unfoldable pub job_mixed : (streamed : Buffers → ℕ) → List ℕ → Bench → Option Bench
  job_mixed streamed [] s = some s
  job_mixed streamed (grn ∷ more) s =
      job_task (λ b. task_mixed fuel count grn b.buf_sep1 (streamed b)) s
      >>= job_mixed streamed more

  unfoldable pub read_after_write_job : Bench → Option Bench
  read_after_write_job s =
      barrier s
      >>= job_separate
      >>= job_combined
      >>= barrier
      >>= job_task (λ b. task_separate fuel count b.buf_sep1 b.buf_sep2)
      >>= barrier
      >>= job_mixed (λ b. b.buf_sep2) grns
      >>= barrier
      >>= job_task (λ b. task_separate fuel count b.buf_sep1 b.buf_sep1_)
      >>= barrier
      >>= job_mixed (λ b. b.buf_sep1_) grns
      >>= barrier
