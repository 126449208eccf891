-- ===== src/Examples/Afterwrite.antt =====
-- The theorems on OptaneStudy/microbenchmark/read_after_write.cpp at concrete inputs.
use rw_sep.Prelude.{◌*◌, ◌^◌, ◌≤◌, replicate, ◌/◌, ◌≡◌, refl, ◌↔◌, ◌-◌, some, arith}
use rw_sep.Machine.{Cpu}
use rw_sep.Machine.Faults.{NoFault}
use rw_sep.Afterwrite.{Timeval, timediff, task_separate, task_mixed}
use rw_sep.Afterwrite.Times.{nanoseconds, timediff_misses}
use rw_sep.Afterwrite.Order.{choose, if_store, if_stream}
use rw_sep.Afterwrite.Reorder.{task_mixed_reorders}
use rw_sep.Fastalloc.{alloc_size, round_up}
use rw_sep.Afterwrite.Job.{Bench, read_after_write_job}
use rw_sep.Afterwrite.Completes.{read_after_write_job_completes}
use rw_sep.Examples.{boot, in_a_row}

task_mixed_reorders_example :
    (c1 : Cpu) × (c2 : Cpu) × (task_separate 1000 16 4096 8192 boot ≡ some c1)
    × (task_mixed 1000 16 4 4096 8192 boot ≡ some c2)
    × NoFault c1.trace
    × NoFault c2.trace
    × (choose if_store c1.trace ≡ choose if_store c2.trace)
    × (choose if_stream c1.trace ≡ choose if_stream c2.trace)
task_mixed_reorders_example =
    task_mixed_reorders 1000 16 4 4096 8192 boot refl refl tt (omega arith) (omega arith)
      (omega arith) (omega arith) (omega arith) (omega arith) (omega arith) (omega arith)

-- Half a second apart.
abbrev early : Timeval
early = record { tv_sec = 1700000000; tv_usec = 250000 }

abbrev late : Timeval
late = record { tv_sec = 1700000000; tv_usec = 750000 }

timediff_misses_example :
    (timediff early late ≡ nanoseconds late - nanoseconds early) ↔ (early.tv_usec ≡ late.tv_usec)
timediff_misses_example =
    timediff_misses early late (omega arith) (omega arith) (omega arith) (omega arith) (omega arith)
      (omega arith)

a_gigabyte : round_up (2 ^ 24 * 64) ≤ alloc_size / 2
unfolding round_up
a_gigabyte = omega arith

read_after_write_job_completes_example :
    (s' : Bench) × (read_after_write_job in_a_row
        (replicate 100 0)
        (2 ^ 25)
        (2 ^ 24)
        (record { regions = 0; cpu = boot })
      ≡ some s')
    × (s'.regions ≡ 84)
read_after_write_job_completes_example =
    read_after_write_job_completes in_a_row (replicate 100 0) (2 ^ 25) (2 ^ 24) refl a_gigabyte
      (omega arith) (omega arith) (omega arith) (record { regions = 0; cpu = boot })
