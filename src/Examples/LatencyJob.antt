-- ===== src/Examples/LatencyJob.antt =====
-- The theorems on OptaneStudy/microbenchmark/latency_job.c and on the names in
-- OptaneStudy/src/common.h at concrete inputs.
use rw_sep.Latency.Tables.{
  bench_func, latency_funcs_64byte, latency_funcs_128byte, latency_funcs_256byte,
}
use rw_sep.Latency.Labels.{
  latency_tasks_str, latency_bench_map, spelled, sized, bench_names, all_tasks,
}
use rw_sep.Latency.Saved.{Tells, of_size, names_tell}
use rw_sep.Examples.{boot, all_clean}
use rw_sep.Prelude.{◌+◌, ◌*◌, ◌%◌, ◌≡◌, refl, map, [], ◌∷◌, arith}
use rw_sep.LatencyJob.{Stats, Task, latency_job}
use rw_sep.LatencyJob.Carried.{Monotone, latency_job-Monotone}

-- A fast task, and a slow one that stays at one address. Their calls differ.
abbrev fast : Task
fast = record { bench = λ j a. 30 + j * 7 % 4; skip = 64 }

abbrev slow : Task
slow = record { bench = λ j a. 900 + j * 5 % 3; skip = 0 }

abbrev zeros : Stats
zeros = record { total = 0; min = 100; max = 0 }

latency_job-Monotone_example : Monotone (latency_job 4 4096 (fast ∷ slow ∷ []) zeros)
latency_job-Monotone_example =
    latency_job-Monotone 4 4096 (fast ∷ slow ∷ []) zeros
      (λ j a. omega arith, (λ j a. omega arith, tt)) (omega arith) (omega arith)

names_tell_example :
    (latency_tasks_str ≡ map sized all_tasks)
    × Tells 4096 boot all_clean all_tasks bench_func
    × (latency_bench_map ≡ map spelled bench_names)
    × Tells 4096 boot all_clean (of_size 1) latency_funcs_64byte
    × Tells 4096 boot all_clean (of_size 2) latency_funcs_128byte
    × Tells 4096 boot all_clean (of_size 4) latency_funcs_256byte
names_tell_example = names_tell 4096 boot all_clean refl (λ x e. cc)
