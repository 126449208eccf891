-- ===== src/Multithread.antt =====
-- The threads of OptaneStudy/microbenchmark/rw_sep_multithread.cpp: pairs of a thread that stores
-- and flushes and one that streams, each over a buffer that `set_arg` gives it. The program has its
-- own copy of the text of the two kernels of memaccess.c.
pub mod Interleaved
pub mod Threads
pub mod Schedule
pub mod Lives
pub mod Barrier
pub mod Tasks
pub mod Progress
pub mod Buffers
use rw_sep.Prelude.{ℕ, Option, List, [], ◌∷◌, ◌++◌, map}
use rw_sep.Prelude.Loops.{◌>>=◌}
use rw_sep.Machine.{Instr, Reg, Src, Cpu, block}
use rw_sep.Memaccess.Macros.{piece}
use rw_sep.Memaccess.Stride.{clear_counters, load_zmm0, fenced, stride_loop}

-- NUMTHREAD.
abbrev pub numthread : ℕ
numthread = 8

-- `struct foo`.
pub record Foo : Type 0 where
  pub start_addr : ℕ
  pub access_size : ℕ
  pub stride_skip : ℕ
  pub delay : ℕ
  pub count : ℕ

unfoldable pub sizebtstflush_64_avx512 : List Instr
sizebtstflush_64_avx512 =
    Instr.vmovdqa_store 8 0 (piece 0x0)
    ∷ Instr.clwb (piece 0x0)
    ∷ Instr.add Reg.r10 (Src.imm 0x40)
    ∷ []

unfoldable pub sizebtnt_64_avx512 : List Instr
sizebtnt_64_avx512 = Instr.vmovnt_store 8 0 (piece 0x0) ∷ Instr.add Reg.r10 (Src.imm 0x40) ∷ []

-- The thread functions `stride_nt` and `stride_storeclwb`.
unfoldable pub run_stride_nt : ℕ → Foo → Cpu → Option Cpu
unfolding sizebtnt_64_avx512
run_stride_nt fuel f =
    stride_loop fuel (clear_counters ++ load_zmm0 f.start_addr)
      (fenced fuel sizebtnt_64_avx512 f.access_size) f.start_addr f.stride_skip f.delay f.count

unfoldable pub run_stride_storeclwb : ℕ → Foo → Cpu → Option Cpu
unfolding sizebtstflush_64_avx512
run_stride_storeclwb fuel f =
    stride_loop fuel (clear_counters ++ load_zmm0 f.start_addr)
      (fenced fuel sizebtstflush_64_avx512 f.access_size) f.start_addr f.stride_skip f.delay f.count

-- `set_arg`, for `f1` from buf_sep1 or `f2` from buf_sep2.
unfoldable pub set_arg : (access_size stride_size delay count : ℕ) → (bufs : List ℕ) → List Foo
set_arg access_size stride_size delay count [] = []
set_arg access_size stride_size delay count (b ∷ bufs) =
    record {
      start_addr = b;
      access_size = access_size;
      stride_skip = stride_size;
      delay = delay;
      count = count;
    }
    ∷ set_arg access_size stride_size delay count bufs
