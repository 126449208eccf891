-- ===== src/Examples.antt =====
-- The theorems at concrete inputs.
mod Random
mod Sequential
mod Chase
mod Separation
mod Probes
mod Traverse
mod Channels
mod Afterwrite
mod Lists
mod Multithread
mod LatencyJob
mod Globals
mod Pmemcopy
mod Runs
mod Schedule
use rw_sep.Prelude.{
  ℕ, ◌+◌, ◌-◌, ◌*◌, ◌/◌, ◌%◌, ◌^◌, ◌≤◌, ◌<◌, ◌≡◌, ◌⊎◌, refl, true, Option, none, some, List, [],
  ◌∷◌, All, length, get_elem?, replicate, arith,
}
use rw_sep.Machine.{Cpu, add64, sub64}
use rw_sep.Machine.Faults.{NoFault}
use rw_sep.Machine.Persist.{Status, Lines, line, effects, Durable}
use rw_sep.Memaccess.Stride.{
  stride_load, stride_nt, stride_store, stride_storeclwb, clwb_nt_mixed, stride_read_after_write,
}
use rw_sep.Memaccess.Advance.{load_line, stream_line, store_line, store_flush_line}
use rw_sep.Memaccess.Rounds.{at_least_one, pieces, Completes}
use rw_sep.Memaccess.Kernels.{strided, stride_storeclwb-Completes}
use rw_sep.Memaccess.Durable.{
  stride_nt-Durable, stride_storeclwb-Durable, clwb_nt_mixed-Durable,
  stride_read_after_write-Durable,
}
use rw_sep.Memaccess.Volatile.{stride_store_dirty}
use rw_sep.Latency.Macros.{call}
use rw_sep.Latency.Tables.{bench_func, latency_tasks_skip}
use rw_sep.Latency.Tasks.{all_kernels, call-elapsed-All, measured, tiles, zip_tasks, measured-tiles}
use rw_sep.Chasing.{Outcome, init_chasing_index}
use rw_sep.Chasing.Cycle.{IsCycle}
use rw_sep.Chasing.Init.{Ensures, init_chasing_index-Ensures}
use rw_sep.Chasing.Progress.{init_chasing_index_done, init_chasing_index_failed}
use rw_sep.Fastalloc.{Fastalloc, alloc, init, constructed, round_up, alloc_size, free}
use rw_sep.Fastalloc.Free.{free_dram_only}
use rw_sep.Fastalloc.Rounding.{round_up_least, round_up_wraps}
use rw_sep.Fastalloc.Blocks.{Block, IsSystem}
use rw_sep.Fastalloc.Disjoint.{allocs, Separate, init-allocs}
use rw_sep.Fastalloc.Limits.{alloc_overruns, alloc_slots_exhausted}

-- A processor at rest, whose counter advances by 7 from one reading to the next.
abbrev pub boot : Cpu
boot = record {
  rax = 0;
  rcx = 0;
  rdx = 0;
  rsi = 0;
  r8 = 0;
  r9 = 0;
  r10 = 0;
  r11 = 0;
  r12 = 0;
  t1 = 0;
  t2 = 0;
  vec = λ n i. 0;
  mem = λ x. 0;
  trace = [];
  clock = λ n. n * 7 % 2 ^ 64;
  ticks = 0;
}

abbrev pub all_clean : Lines
all_clean x = Status.clean

pub clean-NoDirty : (x : ℕ) → effects [] all_clean x ≡ Status.dirty → ⊥
unfolding effects
clean-NoDirty x e = cc

stride_storeclwb-Completes_example :
    Completes
      (stride_storeclwb 300 4096 100 256 3 2 boot)
      boot
      (strided store_flush_line 4096 100 256 2)
stride_storeclwb-Completes_example =
    stride_storeclwb-Completes 4096 100 256 3 2 300 boot refl refl (omega arith) (omega arith)
      (omega arith) (omega arith) (omega arith) (omega arith)

stride_storeclwb-Durable_example :
    (c' : Cpu) × (stride_storeclwb 300 4096 100 256 3 2 boot ≡ some c')
    × Durable (effects c'.trace all_clean)
stride_storeclwb-Durable_example =
    stride_storeclwb-Durable 4096 100 256 3 2 300 boot all_clean (omega arith) (omega arith)
      (omega arith) (omega arith) (omega arith) (omega arith) (omega arith) (omega arith)
      clean-NoDirty

stride_store_dirty_example :
    (c' : Cpu) × (stride_store 300 4096 100 256 3 2 boot ≡ some c')
    × NoFault c'.trace
    × ((i j : ℕ)
        → i < at_least_one 2
        → j < pieces 100
        → effects c'.trace all_clean (line (add64 (add64 4096 (256 * i)) (64 * j))) ≡ Status.dirty)
stride_store_dirty_example =
    stride_store_dirty 4096 100 256 3 2 300 boot all_clean refl refl (omega arith) (omega arith)
      (omega arith) (omega arith) (omega arith) (omega arith) tt

call-elapsed-All_example :
    All
      (λ k. (call (k 4096) boot).0 ≡ sub64 (boot.clock (boot.ticks + 1)) (boot.clock boot.ticks))
      all_kernels
call-elapsed-All_example = call-elapsed-All 4096 boot (λ n. omega arith)

measured-tiles_example :
    All
      (λ t.
        (measured t.0 4096 boot ≡ tiles 4096 32 0 (t.1 / 32))
        ⊎ (measured t.0 4096 boot ≡ tiles 4096 8 0 (t.1 / 8)))
      (zip_tasks bench_func latency_tasks_skip)
measured-tiles_example = measured-tiles 4096 boot

-- Random numbers 0, 1, 2, …: the first is the position that is held, and is drawn again.
abbrev counting : ℕ → Option ℕ
counting k = some k

abbrev dry : ℕ → Option ℕ
dry k = none

init_chasing_index-Ensures_example : Ensures 4 (init_chasing_index counting 9 4 0)
init_chasing_index-Ensures_example = init_chasing_index-Ensures counting 3 9 0

init_chasing_index_runs : init_chasing_index counting 9 4 0 ≡ Outcome.done (1 ∷ 2 ∷ 3 ∷ 0 ∷ []) 4
unfolding init_chasing_index
init_chasing_index_runs = refl

init_chasing_index_done_example :
    (cindex : List ℕ) × (init_chasing_index counting 1 4 1 ≡ Outcome.done cindex 4)
    × IsCycle 4 cindex (3 ∷ 2 ∷ 1 ∷ 0 ∷ [])
init_chasing_index_done_example =
    init_chasing_index_done counting 3 0 1 (1 ∷ 2 ∷ 3 ∷ []) refl (refl, (refl, (refl, tt)))
      (omega arith, (omega arith, (omega arith, tt)))
      ((omega arith, (omega arith, tt)), ((omega arith, tt), (tt, tt)))
      (omega arith, (omega arith, (omega arith, tt)))

-- A system whose regions lie one behind the other.
abbrev pub in_a_row : ℕ → ℕ
in_a_row k = alloc_size + k * alloc_size

pub in_a_row-IsSystem : IsSystem in_a_row 11
in_a_row-IsSystem = record { spaced = λ i j p q ne. omega arith; bounded = λ i p. omega arith }

pub fits : All (λ n. round_up n ≤ alloc_size) (64 ∷ 100 ∷ 2 ^ 31 ∷ 2 ^ 31 ∷ [])
unfolding round_up
fits = (omega arith, (omega arith, (omega arith, (omega arith, tt))))

init-allocs_example :
    (a : Fastalloc) × (blocks : List Block) × (a' : Fastalloc) × (init in_a_row
        (2 ^ 30)
        (constructed (replicate 100 0) (replicate 100 0) 0)
      ≡ some a)
    × (allocs in_a_row (64 ∷ 100 ∷ 2 ^ 31 ∷ 2 ^ 31 ∷ []) a ≡ some (blocks, a'))
    × Separate blocks
init-allocs_example =
    init-allocs in_a_row 11 in_a_row-IsSystem (replicate 100 0) (replicate 100 0) 0 (2 ^ 30)
      (64 ∷ 100 ∷ 2 ^ 31 ∷ 2 ^ 31 ∷ []) (omega arith) fits (omega arith) (omega arith)

abbrev worn : (left cnt : ℕ) → Fastalloc
worn left cnt = record {
  dram = record { slots = []; curr = 0; left = 0; cnt = 0 };
  nvm = record { slots = []; curr = 2 ^ 40; left = left; cnt = cnt };
  regions = 3;
}

alloc_overruns_example :
    (a' : Fastalloc) × (a'' : Fastalloc) × (alloc in_a_row (2 ^ 33) true (worn 128 1)
      ≡ some (in_a_row 3, a'))
    × (alloc_size < a'.nvm.left)
    × (alloc in_a_row 64 true a' ≡ some (in_a_row 3 + round_up (2 ^ 33), a''))
unfolding round_up
alloc_overruns_example =
    alloc_overruns in_a_row (2 ^ 33) 64 (worn 128 1) (omega arith) (omega arith) (omega arith)
      (omega arith) (omega arith) (omega arith)

-- Two arenas on DRAM, and one on persistent memory.
abbrev grown : Fastalloc
grown = record {
  dram = record {
    slots = 2 ^ 40 ∷ 2 ^ 41 ∷ replicate 98 0;
    curr = 2 ^ 41 + 64;
    left = 64;
    cnt = 2;
  };
  nvm = record { slots = 2 ^ 42 ∷ replicate 99 0; curr = 2 ^ 42; left = 128; cnt = 1 };
  regions = 4;
}
