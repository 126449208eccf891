-- ===== src/Afterwrite.antt =====
-- The tasks of OptaneStudy/microbenchmark/read_after_write.cpp: buffers on two channels, and the
-- same lines stored, flushed and streamed to in one pass each, alternating in chunks, or by one
-- kernel. The times are computed from what the machine reads; the printing and `flush_cache`, which
-- walks a buffer of its own, are left out.
pub mod Order
pub mod Tasks
pub mod Reorder
pub mod Init
pub mod Times
pub mod Job
pub mod Completes
use rw_sep.Prelude.{
  ℕ, zero, suc, ◌+◌, ◌*◌, ◌/◌, ◌^◌, ◌%◌, true, Option, none, some, List, [], ◌∷◌, ltb,
  if◌then◌else◌,
}
use rw_sep.Prelude.Loops.{◌>>=◌}
use rw_sep.Machine.{Instr, Reg, Cpu, block, add64, sub64}
use rw_sep.Memaccess.Stride.{stride_nt, stride_storeclwb, stride_read_after_write}
use rw_sep.Channels.{Allocator, exited, started, constructed}
use rw_sep.Channels

-- The locals of `read_after_write_job`.
abbrev pub access_size : ℕ
access_size = 64

abbrev pub stride_size : ℕ
stride_size = 64

abbrev pub delay : ℕ
delay = 200

-- The allocators and buffers that `init` sets.
pub record Buffers : Type 0 where
  pub alloc1 : Allocator
  pub alloc2 : Allocator
  pub buf_sep1 : ℕ
  pub buf_sep1_ : ℕ
  pub buf_sep2 : ℕ

-- `init_fast_allocator`, where `none` is the exit, or undefined behaviour.
unfoldable pub init_fast_allocator :
    (ℕ → ℕ) → (channel : ℕ) → (dram_slots nvm_slots : List ℕ) → (regions : ℕ) → Option Allocator
init_fast_allocator os channel dram_slots nvm_slots regions =
    elim (Channels.init os channel (constructed 0 dram_slots nvm_slots regions)) [
      | exited ↦ none
      | started a ↦ a
    ]

-- `init`. One system serves both allocators, so each goes on where the other stopped.
unfoldable pub init : (ℕ → ℕ) → (slots : List ℕ) → (regions count stride_size : ℕ) → Option Buffers
unfolding init_fast_allocator
init os slots regions count stride_size = init_fast_allocator os 0 slots slots regions >>= λ alloc1.
    init_fast_allocator os 1 slots slots alloc1.regions >>= λ alloc2.
    Channels.alloc os (count * stride_size) true (record alloc1 { regions = alloc2.regions })
    >>= λ x. Channels.alloc os (count * stride_size) true x.1 >>= λ y.
        Channels.alloc os (count * stride_size) true (record alloc2 { regions = y.1.regions })
        >>= λ z.
            some (record {
              alloc1 = y.1;
              alloc2 = z.1;
              buf_sep1 = x.0;
              buf_sep1_ = y.0;
              buf_sep2 = z.0;
            })

-- The instructions that RAW_BEFORE_WRITE, RAW_BEFORE_READ and RAW_FINAL share: the two halves of
-- the counter go to `t1` and `t2`.
unfoldable pub read_clock : List Instr
read_clock =
    Instr.rdtscp ∷ Instr.lfence ∷ Instr.movl Reg.t1 Reg.rdx ∷ Instr.movl Reg.t2 Reg.rax ∷ []

unfoldable pub finish : List Instr
finish =
    Instr.mfence
    ∷ Instr.rdtscp
    ∷ Instr.lfence
    ∷ Instr.movl Reg.t1 Reg.rdx
    ∷ Instr.movl Reg.t2 Reg.rax
    ∷ []

-- `i++` for an `int i`; `none` is the overflow, which is undefined.
unfoldable pub inc_int : ℕ → Option ℕ
inc_int i = if ltb (i + 1) (2 ^ 31) then some (i + 1) else none

-- `for(int i = 0; i < count; i++);` from `i` on, with `left` rounds to go.
unfoldable pub empty_loop : (left i : ℕ) → Option ℕ
unfolding inc_int
empty_loop zero i = some i
empty_loop (suc left) i = inc_int i >>= empty_loop left

-- Task 1 with buf_sep1 and buf_sep2, and task 3 with buf_sep1 and buf_sep1_: one pass, and then the
-- other.
unfoldable pub task_separate : ℕ → (count written streamed : ℕ) → Cpu → Option Cpu
unfolding read_clock finish empty_loop
task_separate fuel count written streamed c =
    block read_clock c
    >>= (λ c'. empty_loop count 0 >>= λ _.
        stride_storeclwb fuel written access_size stride_size delay count c')
    >>= block read_clock
    >>= stride_nt fuel streamed access_size stride_size delay count
    >>= block finish

-- The loop of tasks 2 and 4 from `i` on, with `left` rounds to go.
unfoldable pub mixed_loop : ℕ → (left i grn written streamed : ℕ) → Cpu → Option Cpu
unfolding inc_int
mixed_loop fuel zero i grn written streamed c = some c
mixed_loop fuel (suc left) i grn written streamed c =
    stride_storeclwb fuel (add64 written (i * grn * stride_size)) (grn * access_size) 0 delay 1 c
    >>= stride_nt fuel (add64 streamed (i * grn * stride_size)) (grn * access_size) 0 delay 1
    >>= λ c'. inc_int i >>= λ i'. mixed_loop fuel left i' grn written streamed c'

-- Task 2 with buf_sep1 and buf_sep2, and task 4 with buf_sep1 and buf_sep1_, for one `grn`.
unfoldable pub task_mixed : ℕ → (count grn written streamed : ℕ) → Cpu → Option Cpu
unfolding read_clock finish mixed_loop
task_mixed fuel count grn written streamed c =
    block read_clock c
    >>= block read_clock
    >>= mixed_loop fuel (count / grn) 0 grn written streamed
    >>= block finish

-- The naive job, "raw-combined".
unfoldable pub task_combined : ℕ → (count buf : ℕ) → Cpu → Option Cpu
unfolding read_clock finish
task_combined fuel count buf c =
    block read_clock c
    >>= block read_clock
    >>= stride_read_after_write fuel buf access_size stride_size delay count
    >>= block finish

-- `struct timeval`.
pub record Timeval : Type 0 where
  pub tv_sec : ℕ
  pub tv_usec : ℕ

-- TIMEDIFF, on 64-bit words.
unfoldable pub timediff : (start end : Timeval) → ℕ
timediff start end =
    add64 (sub64 end.tv_sec start.tv_sec * 1000000000 % 2 ^ 64) (sub64 end.tv_usec start.tv_usec)
